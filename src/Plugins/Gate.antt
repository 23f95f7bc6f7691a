-- ===== src/Plugins/Gate.antt =====
-- What the gate lets run, and what is left of a plugin that was withdrawn.
use ksec.Prelude.{
  String, ◌≡◌, refl, Bool, true, none, some, str_eq, opt_eq, arith, Bool-cases, Option-cases, inl,
  inr, ◌↔◌, if◌then◌else◌,
}
use text.Mathlib.TextEquality.{eq_iff}
use ksec.Prelude.Exec.{returned}
use ksec.Adapters.Builtin.{ToolAdapter}
use ksec.Adapters.Registry as Registry
use ksec.Adapters.Registry.{AdapterRegistry, plugin_of, tool_for, capabilities}
use ksec.Plugins.{PluginInfo, PluginManager, get, executable, unregister_plugin, drop_owned}
use ksec.Plugins.Lifecycle.{check_plugin, assert_capability_allowed, uninstall, audit}
use ksec.Plugins.Owners.{OwnedProvided, owned_is_in, plugin_of-drop_owned, tool_for-drop_owned}

-- A capability may run if no plugin owns it, or if its plugin is known and executable.
pub data MayRun (capability : String) (s : PluginManager) : Type 0 where
  built_in : plugin_of capability s.registry ≡ none → MayRun capability s
  from_plugin :
      (plugin_id : String) (info : PluginInfo)
      → plugin_of capability s.registry ≡ some plugin_id
      → get plugin_id s ≡ some info
      → executable info ≡ true
      → MayRun capability s

check_plugin_iff :
    (capability plugin_id : String) (info : PluginInfo) (s : PluginManager)
    → ((check_plugin capability plugin_id info s).0 ≡ returned tt) ↔ (executable info ≡ true)
unfolding check_plugin executable
check_plugin_iff capability plugin_id info s = ground arith

-- The gate lets a capability pass exactly if no plugin owns it, or if the plugin that owns it is
-- known, enabled, of an executable trust level and declares the permission to execute tools.
pub assert_capability_allowed_iff :
    (capability : String) (s : PluginManager)
    → ((assert_capability_allowed capability s).0 ≡ returned tt) ↔ MayRun capability s
unfolding assert_capability_allowed
assert_capability_allowed_iff capability s = (
  λ e. elim (Option-cases (plugin_of capability s.registry)) [
    | inl free ↦ built_in free
    | inr (plugin_id, owned) ↦ elim (Option-cases (get plugin_id s)) [
      | inl unknown ↦ ground (arith, owned, unknown, e)
      | inr (info, known) ↦
          from_plugin plugin_id info owned known
            ((check_plugin_iff capability plugin_id info s).0 (ground (arith, owned, known, e)))
    ]
  ],
  λ may. elim may [
    | built_in free ↦ rw (assert_capability_allowed, free) refl
    | from_plugin plugin_id info owned known can ↦
        rw (assert_capability_allowed, owned, known)
          ((check_plugin_iff capability plugin_id info s).1 can)
  ],
)

uninstall-registry :
    (audit_on : Bool) (plugin_id actor : String) (s : PluginManager)
    → (uninstall audit_on plugin_id actor s).0 ≡ returned tt
    → (uninstall audit_on plugin_id actor s).1.registry
      ≡ drop_owned plugin_id (capabilities s.registry) s.registry
unfolding uninstall unregister_plugin audit
uninstall-registry audit_on plugin_id actor s e = elim (Option-cases (get plugin_id s)) [
  | inl unknown ↦ ground (arith, unknown, e)
  | inr (info, known) ↦ elim (Bool-cases (str_eq info.source "bundled")) [
    | inl bundled ↦ ground (arith, known, bundled, e)
    | inr own ↦ rw (uninstall, known, own) refl
  ]
]

-- After an uninstallation that returned, no capability belongs to the plugin any more, and every
-- other capability has the owner that it had (where each owned capability had an adapter, as is
-- always so).
pub uninstall-plugin_of :
    (audit_on : Bool) (plugin_id actor capability : String) (s : PluginManager)
    → OwnedProvided s.registry
    → (uninstall audit_on plugin_id actor s).0 ≡ returned tt
    → plugin_of capability (uninstall audit_on plugin_id actor s).1.registry ≡ (
        if opt_eq (plugin_of capability s.registry) (some plugin_id)
        then none
        else plugin_of capability s.registry)
uninstall-plugin_of audit_on plugin_id actor capability s provided e =
    rw
      (
        uninstall-registry audit_on plugin_id actor s e,
        plugin_of-drop_owned plugin_id capability (capabilities s.registry) s.registry,
      )
      (elim (Option-cases (plugin_of capability s.registry)) [
        | inl free ↦ rw free (ground arith)
        | inr (owner, owned) ↦
            rw (owned, owned_is_in capability owner s.registry provided owned) refl
      ])

-- After an uninstallation that returned, the adapter of a tool that the plugin brought is still
-- given to a job that asks for this tool, and the gate lets the job pass.
pub uninstall-assert_capability_allowed :
    (audit_on : Bool) (plugin_id actor capability tool : String) (a : ToolAdapter)
    (s : PluginManager)
    → OwnedProvided s.registry
    → plugin_of capability s.registry ≡ some plugin_id
    → tool_for capability (some tool) s.registry ≡ some a
    → (uninstall audit_on plugin_id actor s).0 ≡ returned tt
    → (Registry.get capability (some tool) (uninstall audit_on plugin_id actor s).1.registry
        ≡ some a)
      × ((assert_capability_allowed capability (uninstall audit_on plugin_id actor s).1).0
          ≡ returned tt)
unfolding Registry.get
uninstall-assert_capability_allowed audit_on plugin_id actor capability tool a s provided owned
      brought e =
    (
      rw
          (
            uninstall-registry audit_on plugin_id actor s e,
            Registry.get,
            tool_for-drop_owned plugin_id capability (some tool) (capabilities s.registry)
                s.registry,
            brought,
          )
          refl,
      (assert_capability_allowed_iff capability (uninstall audit_on plugin_id actor s).1).1 (
          built_in (
            rw
              (
                uninstall-plugin_of audit_on plugin_id actor capability s provided e,
                owned,
                (eq_iff plugin_id plugin_id).1 refl,
              )
              refl)),
    )
