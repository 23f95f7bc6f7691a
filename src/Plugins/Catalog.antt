-- ===== src/Plugins/Catalog.antt =====
-- plugins/manager.py: what goes through all plugins or capabilities: the search of the directories,
-- the loading of the enabled plugins, the report on each directory and the owned capabilities.
use ksec.Prelude.{
  ℕ, String, Bool, true, false, not, ◌&&◌, Option, none, some, List, [], ◌∷◌, ◌++◌, str_eq, any,
  select, find?, update_where, if◌then◌else◌,
}
use ksec.Prelude.Dict.{put, string_eq}
use ksec.Prelude.Exec.{returned, pure, modify, gets, ◌>>=◌, ◌>>◌}
use ksec.Adapters.Registry.{AdapterRegistry, capabilities, plugin_of}
use ksec.Plugins.{
  AdapterDescriptor, PluginManifest, PluginInfo, Directory, Imports, PluginManager, Manage, is_in,
  executable, has_id, get, load_plugin,
}

-- `plugin_of` for each capability, where a plugin owns it.
unfoldable pub plugin_capabilities_from : List String → AdapterRegistry → List (String × String)
plugin_capabilities_from [] r = []
plugin_capabilities_from (c ∷ cs) r =
    let rest = plugin_capabilities_from cs r in
    elim (plugin_of c r) [ none ↦ rest | some plugin_id ↦ (c, plugin_id) ∷ rest ]

unfoldable pub plugin_capabilities : PluginManager → List (String × String)
plugin_capabilities s = plugin_capabilities_from (capabilities s.registry) s.registry

abbrev pub source_of : Directory → String
source_of d = if d.bundled then "bundled" else "user"

-- The row that a plugin gets when it is seen first.
abbrev pub new_row : ℕ → PluginManifest → Directory → PluginInfo
new_row now m d = record {
  plugin_id = m.id;
  name = m.name;
  version = m.version;
  description = m.description;
  author = m.author;
  category = m.category;
  trust_level = m.trust_level;
  status = if d.bundled then "ENABLED" else "INSTALLED";
  source = source_of d;
  path = d.path;
  permissions = m.permissions;
  capabilities = m.capabilities;
  manifest_sha256 = d.sha;
  installed_by = if d.bundled then "bundled" else "";
  installed_at = now;
}

abbrev pub refreshed : PluginManifest → Directory → PluginInfo → PluginInfo
refreshed m d info = record info {
  name = m.name;
  version = m.version;
  description = m.description;
  author = m.author;
  category = m.category;
  trust_level = m.trust_level;
  path = d.path;
  permissions = m.permissions;
  capabilities = m.capabilities;
  manifest_sha256 = d.sha;
}

-- `_ensure_registry_row`
unfoldable pub ensure_registry_row : ℕ → PluginManifest → Directory → PluginManager → PluginManager
ensure_registry_row now m d s = elim (find? (has_id m.id) s.rows) [
  | none ↦ record s { rows = s.rows ++ new_row now m d ∷ [] }
  | some row ↦ record s { rows = update_where (has_id m.id) (refreshed m d) s.rows }
]

-- The loop of `discover`, which passes over directories without a valid manifest.
unfoldable pub discover_each : ℕ → List Directory → PluginManager → PluginManager
discover_each now [] s = s
discover_each now (d ∷ ds) s = elim d.manifest [
  | none ↦ discover_each now ds s
  | some m ↦
      discover_each now ds
        (ensure_registry_row now m d (record s { manifests = put m.id m s.manifests }))
]

-- The rows are not sorted by name here.
unfoldable pub discover : ℕ → Manage (List PluginInfo)
discover now = do
  modify (λ s. discover_each now s.dirs s)
  gets (λ s. select (λ info. not (str_eq info.status "UNINSTALLED")) s.rows)

-- One round of `load_enabled`: the id of the plugin, if it is loaded.
unfoldable pub load_directory : Imports → Directory → Manage (Option String)
load_directory imports d s = elim d.manifest [
  | none ↦ (returned none, s)
  | some m ↦ elim (get m.id s) [
    | none ↦ (returned none, s)
    | some info ↦
        if executable info
        then (load_plugin imports m info.path >>= λ ok. pure (if ok then some m.id else none)) s
        else (returned none, s)
  ]
]

unfoldable pub load_each : Imports → List Directory → Manage (List String)
load_each imports [] = pure []
load_each imports (d ∷ ds) = do
  loaded ← load_directory imports d
  others ← load_each imports ds
  pure (elim loaded [ none ↦ others | some plugin_id ↦ plugin_id ∷ others ])

unfoldable pub load_enabled : Imports → Manage (List String)
load_enabled imports s = load_each imports s.dirs s

-- The row of the report that `check` writes for a directory: whether the hash is still the recorded
-- one (`none` where nothing is recorded), and whether there is no complaint.
pub record Report : Type 0 where
  pub plugin_id : Option String
  pub path : String
  pub ok : Bool
  pub hash_matches : Option Bool
  pub adapters_loaded : Bool

abbrev pub all_provided : List AdapterDescriptor → AdapterRegistry → Bool
all_provided ds r =
    not (any (λ (d : AdapterDescriptor). not (is_in d.capability (capabilities r))) ds)

unfoldable pub check_directory : Directory → PluginManager → Report
check_directory d s = elim d.manifest [
  | none ↦ record {
    plugin_id = none;
    path = d.path;
    ok = false;
    hash_matches = none;
    adapters_loaded = false;
  }
  | some m ↦ elim (get m.id s) [
    | none ↦ record {
      plugin_id = some m.id;
      path = d.path;
      ok = false;
      hash_matches = none;
      adapters_loaded = false;
    }
    | some info ↦ record {
      plugin_id = some m.id;
      path = d.path;
      ok = str_eq d.sha info.manifest_sha256;
      hash_matches = some (str_eq d.sha info.manifest_sha256);
      adapters_loaded =
          (elim m.adapters [ [] ↦ false | a ∷ more ↦ true ]) && all_provided m.adapters s.registry;
    }
  ]
]
