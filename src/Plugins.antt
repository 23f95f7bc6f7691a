-- ===== src/Plugins.antt =====
-- plugins/manager.py, with what it takes of plugins/manifest.py: the plugins that are known, the
-- adapters that they put into the registry, and the gate that a job passes before it runs.
pub mod Lifecycle
pub mod Catalog
pub mod Owners
pub mod Refresh
pub mod Gate
use ksec.Prelude.{
  ℕ, String, Bool, true, false, not, ◌&&◌, Option, none, some, List, [], ◌∷◌, ◌++◌, str_eq, opt_eq,
  any, select, find?, update_where, if◌then◌else◌,
}
use ksec.Prelude.Dict.{Dict, get?, put, string_eq}
use ksec.Prelude.Exec.{
  Exec, returned, raised, pure, raise, raise_if, or_raise, modify, gets, assert_some, ksec_error,
  ◌>>=◌, ◌>>◌,
}
use ksec.Prelude.Strings.{lower, ◌<>◌}
use ksec.Audit.{AuditEvent, event, record_event}
use ksec.Adapters.Builtin.{ToolAdapter, Safety}
use ksec.Adapters.Registry.{AdapterRegistry, capabilities, register, unregister, plugin_of}

-- The safety class of a descriptor is one of the three, as the validation of a manifest asks.
pub record AdapterDescriptor : Type 0 where
  pub capability : String
  pub module_name : String
  pub class_name : String
  pub tool : String
  pub safety : Safety
  pub parser : String

pub record ParserDescriptor : Type 0 where
  pub name : String
  pub module_name : String
  pub class_name : String

-- A manifest, without the fields that are only shown.
pub record PluginManifest : Type 0 where
  pub id : String
  pub name : String
  pub version : String
  pub description : String
  pub author : String
  pub category : String
  pub trust_level : String
  pub permissions : List String
  pub capabilities : List String
  pub adapters : List AdapterDescriptor
  pub parsers : List ParserDescriptor

-- `level in EXECUTABLE_TRUST_LEVELS`
abbrev pub executable_level : String → Bool
executable_level level =
    any (λ name. str_eq name level) ("CORE_TRUSTED" ∷ "VERIFIED" ∷ "LOCAL" ∷ "THIRD_PARTY" ∷ [])

unfoldable pub is_executable : PluginManifest → Bool
is_executable m = executable_level m.trust_level

pub record PluginInfo : Type 0 where
  pub plugin_id : String
  pub name : String
  pub version : String
  pub description : String
  pub author : String
  pub category : String
  pub trust_level : String
  pub status : String
  pub source : String
  pub path : String
  pub permissions : List String
  pub capabilities : List String
  pub manifest_sha256 : String
  pub installed_by : String
  pub installed_at : ℕ

-- `text in texts`
abbrev pub is_in : String → List String → Bool
is_in text texts = any (λ name. str_eq name text) texts

unfoldable pub executable : PluginInfo → Bool
executable info =
    str_eq info.status "ENABLED"
    && executable_level info.trust_level
    && is_in "tool.execute" info.permissions

-- A directory of the search path. `manifest` is what `load_manifest` gives, `none` where it raises
-- (the text of its error is left out of the messages); `sha` is the hash of the directory.
pub record Directory : Type 0 where
  pub path : String
  pub bundled : Bool
  pub manifest : Option PluginManifest
  pub sha : String

-- What importing a class of a plugin gives, by directory, module and class. For an adapter: `none`
-- where there is no class, where it cannot be built or builds no adapter. For a parser: `none` where
-- there is no class, and whether it builds a parser.
pub record Imports : Type 0 where
  pub adapter_class : String → String → String → Option ToolAdapter
  pub parser_class : String → String → String → Option Bool

-- The manager with the registry of adapters, the table `plugin_registry`, the directories on the
-- disk, the names of the parsers that plugins brought and the audit log.
pub record PluginManager : Type 0 where
  pub registry : AdapterRegistry
  pub rows : List PluginInfo
  pub dirs : List Directory
  pub manifests : Dict String PluginManifest
  pub loaded : List String
  pub parser_names : List String
  pub audit_log : List AuditEvent

abbrev pub Manage : Type 0 → Type 0
Manage A = Exec PluginManager A

abbrev pub has_id : String → PluginInfo → Bool
has_id plugin_id info = str_eq info.plugin_id plugin_id

abbrev pub is_listed : String → PluginInfo → Bool
is_listed plugin_id info = has_id plugin_id info && not (str_eq info.status "UNINSTALLED")

unfoldable pub get : String → PluginManager → Option PluginInfo
get plugin_id s = find? (is_listed plugin_id) s.rows

-- `load_manifest(path)`
abbrev pub load_manifest : String → PluginManager → Option PluginManifest
load_manifest path s = elim (find? (λ (d : Directory). str_eq d.path path) s.dirs) [
  | none ↦ none
  | some d ↦ d.manifest
]

-- What a plugin's adapter is called and provides is said by the manifest.
abbrev pub described : AdapterDescriptor → ToolAdapter → ToolAdapter
described d adapter = record adapter {
  name = if str_eq d.tool "" then d.capability else d.tool;
  capability = d.capability;
  default_parser = d.parser;
  safety = d.safety;
}

-- The loop over `manifest.adapters`, with the value of `ok` at its end.
unfoldable pub load_adapters :
    Imports → String → String → List AdapterDescriptor → AdapterRegistry → Bool × AdapterRegistry
load_adapters imports plugin_id path [] r = (true, r)
load_adapters imports plugin_id path (d ∷ ds) r =
    if is_in d.capability (capabilities r)
    then load_adapters imports plugin_id path ds r
    else elim (imports.adapter_class path d.module_name d.class_name) [
      | none ↦ (false, (load_adapters imports plugin_id path ds r).1)
      | some adapter ↦
          load_adapters imports plugin_id path ds
            (register (described d adapter) (some plugin_id) r)
    ]

-- The loop over `manifest.parsers`, with `ok` and the names of the parsers.
unfoldable pub load_parsers :
    Imports → String → List ParserDescriptor → List String → Bool × List String
load_parsers imports path [] names = (true, names)
load_parsers imports path (p ∷ ps) names =
    elim (imports.parser_class path p.module_name p.class_name) [
      | none ↦ (false, (load_parsers imports path ps names).1)
      | some false ↦ load_parsers imports path ps names
      | some true ↦ load_parsers imports path ps (p.name ∷ names)
    ]

-- `_load_plugin`
unfoldable pub load_plugin : Imports → PluginManifest → String → Manage Bool
load_plugin imports m path s =
    let (adapters_ok, registry) = load_adapters imports m.id path m.adapters s.registry in
    let (parsers_ok, names) = load_parsers imports path m.parsers s.parser_names in
    let ok = adapters_ok && parsers_ok in
    (
      returned ok,
      record s {
        registry = registry;
        parser_names = names;
        loaded = if ok then m.id ∷ s.loaded else s.loaded;
      },
    )

-- The loop of `_unregister_plugin` over the capabilities.
unfoldable pub drop_owned : String → List String → AdapterRegistry → AdapterRegistry
drop_owned plugin_id [] r = r
drop_owned plugin_id (c ∷ cs) r =
    drop_owned plugin_id cs (if opt_eq (plugin_of c r) (some plugin_id) then unregister c r else r)

-- `_unregister_plugin`
unfoldable pub unregister_plugin : String → PluginManager → PluginManager
unregister_plugin plugin_id s = record s {
  registry = drop_owned plugin_id (capabilities s.registry) s.registry;
  loaded = select (λ name. not (str_eq name plugin_id)) s.loaded;
}
