-- ===== src/Plugins/Lifecycle.antt =====
-- plugins/manager.py: the states of a plugin, its uninstallation and the gate.
use ksec.Prelude.{
  String, Bool, not, Option, none, some, [], ◌∷◌, str_eq, select, update_where, if◌then◌else◌,
}
use ksec.Prelude.Dict.{get?, string_eq}
use ksec.Prelude.Exec.{
  returned, raised, pure, raise_if, or_raise, modify, gets, assert_some, ksec_error, ◌>>=◌, ◌>>◌,
}
use ksec.Prelude.Strings.{lower, ◌<>◌}
use ksec.Audit.{event, record_event}
use ksec.Adapters.Registry.{plugin_of}
use ksec.Plugins.{
  PluginManifest, executable_level, is_executable, PluginInfo, is_in, Directory, Imports,
  PluginManager, Manage, has_id, get, load_manifest, load_plugin, unregister_plugin,
}

abbrev pub write_status : String → String → PluginManager → PluginManager
write_status plugin_id status s = record s {
  rows = update_where (has_id plugin_id) (λ info. record info { status = status }) s.rows;
}

-- `actor or None`
abbrev pub actor_or_none : String → Option String
actor_or_none actor = if str_eq actor "" then none else some actor

unfoldable pub audit : Bool → String → String → String → String → PluginManager → PluginManager
audit audit_on event_type actor action plugin_id s = record s {
  audit_log =
      record_event audit_on
        (record (event event_type) {
          actor = actor_or_none actor;
          action = some action;
          target = some plugin_id;
        })
        s.audit_log;
}

-- The manifest that `set_status` asks for before it enables a plugin.
unfoldable pub manifest_of : String → PluginInfo → Manage PluginManifest
manifest_of plugin_id info s = elim (get? plugin_id s.manifests) [
  | some m ↦ (returned m, s)
  | none ↦ elim (load_manifest info.path s) [
    | some m ↦ (returned m, s)
    | none ↦ (raised (ksec_error ("cannot enable " ∷ plugin_id ∷ [])), s)
  ]
]

-- `set_status(plugin_id, "ENABLED")` for a known plugin.
unfoldable pub enable : Imports → Bool → String → PluginInfo → String → Manage (Unit {0})
enable imports audit_on plugin_id info actor = do
  m ← manifest_of plugin_id info
  raise_if (not (is_executable m)) (
      ksec_error (
        "cannot enable " ∷ plugin_id ∷ ": trust level " ∷ m.trust_level ∷ " is not executable"
        ∷ []))
  modify (write_status plugin_id "ENABLED")
  modify (audit audit_on "plugin.status" actor "plugin.enabled" plugin_id)
  _ ← load_plugin imports m info.path
  pure tt

-- `set_status` for a known plugin and one of the other two states.
unfoldable pub withdraw : Bool → String → String → String → Manage (Unit {0})
withdraw audit_on plugin_id status actor = do
  modify (write_status plugin_id status)
  modify (audit audit_on "plugin.status" actor ("plugin." <> lower status) plugin_id)
  modify (unregister_plugin plugin_id)

unfoldable pub set_status : Imports → Bool → String → String → String → Manage PluginInfo
set_status imports audit_on plugin_id status actor = do
  found ← gets (get plugin_id)
  info ← or_raise found (ksec_error ("unknown plugin: " ∷ plugin_id ∷ []))
  raise_if (not (is_in status ("ENABLED" ∷ "DISABLED" ∷ "BLOCKED" ∷ [])))
      (ksec_error ("invalid status: " ∷ status ∷ []))
  (if str_eq status "ENABLED"
      then enable imports audit_on plugin_id info actor
      else withdraw audit_on plugin_id status actor)
  updated ← gets (get plugin_id)
  assert_some updated

unfoldable pub uninstall : Bool → String → String → Manage (Unit {0})
uninstall audit_on plugin_id actor = do
  found ← gets (get plugin_id)
  info ← or_raise found (ksec_error ("unknown plugin: " ∷ plugin_id ∷ []))
  raise_if (str_eq info.source "bundled")
      (ksec_error ("cannot uninstall bundled plugin " ∷ plugin_id ∷ []))
  modify (unregister_plugin plugin_id)
  modify (λ s. record s { dirs = select (λ (d : Directory). not (str_eq d.path info.path)) s.dirs })
  modify (write_status plugin_id "UNINSTALLED")
  modify (audit audit_on "plugin.uninstall" actor "plugin.uninstall" plugin_id)

-- The last three tests of the gate, for a plugin that is known.
unfoldable pub check_plugin : String → String → PluginInfo → Manage (Unit {0})
check_plugin capability plugin_id info = do
  raise_if (not (str_eq info.status "ENABLED")) (
      ksec_error (
        "capability " ∷ capability ∷ " is provided by plugin " ∷ plugin_id ∷ " which is "
        ∷ info.status ∷ " — enable it first" ∷ []))
  raise_if (not (executable_level info.trust_level)) (
      ksec_error (
        "capability " ∷ capability ∷ " is provided by untrusted plugin " ∷ plugin_id
        ∷ " (trust level " ∷ info.trust_level ∷ ") — cannot execute" ∷ []))
  raise_if (not (is_in "tool.execute" info.permissions)) (
      ksec_error (
        "plugin " ∷ plugin_id
        ∷ " does not declare the 'tool.execute' permission — execution denied (spec: no undeclared privileges)"
        ∷ []))

unfoldable pub assert_capability_allowed : String → Manage (Unit {0})
assert_capability_allowed capability s = elim (plugin_of capability s.registry) [
  | none ↦ (returned tt, s)
  | some plugin_id ↦ elim (get plugin_id s) [
    | none ↦ (
      raised (
          ksec_error
            ("capability " ∷ capability ∷ " is provided by unknown plugin " ∷ plugin_id ∷ [])),
      s,
    )
    | some info ↦ check_plugin capability plugin_id info s
  ]
]
