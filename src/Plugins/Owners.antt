-- ===== src/Plugins/Owners.antt =====
-- Which plugin owns a capability, after plugins are loaded and withdrawn.
use ksec.Prelude.{
  String, ◌≡◌, refl, ap, Bool, true, false, Option, none, some, List, [], ◌∷◌, map, str_eq, opt_eq,
  arith, any, Bool-cases, Option-cases, inl, inr, if◌then◌else◌,
}
use ksec.Prelude.Dict.{Dict, get?, string_eq, get?-remove, get?-put}
use ksec.Adapters.Builtin.{ToolAdapter, builtin_adapters}
use ksec.Adapters.Registry.{
  AdapterRegistry, capabilities, register, unregister, plugin_of, tool_for, set_default,
  add_builtin, add_builtins, builtin_registry, no_adapters, Change, add_adapter, drop_capability,
  after,
}
use ksec.Plugins.{is_in, drop_owned}

-- Every capability with an owner has an adapter.
abbrev pub OwnedProvided : AdapterRegistry → Type 0
OwnedProvided r =
    (c : String) (o : Option String) → get? c r.owners ≡ some o → is_in c (capabilities r) ≡ true

plugin_of-unregister :
    (c k : String) (r : AdapterRegistry)
    → plugin_of k (unregister c r) ≡ (if str_eq c k then none else plugin_of k r)
unfolding plugin_of unregister
plugin_of-unregister c k r = ground (arith, get?-remove c k r.owners)

-- The loop takes a capability from the plugin if it is among those it goes through.
pub plugin_of-drop_owned :
    (plugin_id k : String) (cs : List String) (r : AdapterRegistry)
    → plugin_of k (drop_owned plugin_id cs r) ≡ (
        if is_in k cs
        then (if opt_eq (plugin_of k r) (some plugin_id) then none else plugin_of k r)
        else plugin_of k r)
unfolding drop_owned any
plugin_of-drop_owned plugin_id k [] r = refl
plugin_of-drop_owned plugin_id k (c ∷ cs) r =
    elim (Bool-cases (opt_eq (plugin_of c r) (some plugin_id))) [
      | inl own ↦
          let same = string_eq.beq_iff c k in
          rw (own, plugin_of-drop_owned plugin_id k cs (unregister c r), plugin_of-unregister c k r)
            (elim (Bool-cases (str_eq c k)) [
              | inl here ↦
                  let moved : plugin_of c r ≡ plugin_of k r =
                    ap (λ x. plugin_of x r) (same.0 here) in
                  ground (arith, here, own, moved)
              | inr there ↦ ground (arith, there)
            ])
      | inr other ↦
          let same = string_eq.beq_iff c k in
          rw (other, plugin_of-drop_owned plugin_id k cs r)
            (elim (Bool-cases (str_eq c k)) [
              | inl here ↦
                  let moved : plugin_of c r ≡ plugin_of k r =
                    ap (λ x. plugin_of x r) (same.0 here) in
                  ground (arith, here, other, moved)
              | inr there ↦ ground (arith, there)
            ])
    ]

tool_for-unregister :
    (c k : String) (tool : Option String) (r : AdapterRegistry)
    → tool_for k tool (unregister c r) ≡ tool_for k tool r
unfolding tool_for unregister
tool_for-unregister c k none r = refl
tool_for-unregister c k (some tool) r = refl

-- It keeps the adapters of all tools.
pub tool_for-drop_owned :
    (plugin_id k : String) (tool : Option String) (cs : List String) (r : AdapterRegistry)
    → tool_for k tool (drop_owned plugin_id cs r) ≡ tool_for k tool r
unfolding drop_owned
tool_for-drop_owned plugin_id k tool [] r = refl
tool_for-drop_owned plugin_id k tool (c ∷ cs) r =
    elim (Bool-cases (opt_eq (plugin_of c r) (some plugin_id))) [
      | inl own ↦
          rw (own, tool_for-drop_owned plugin_id k tool cs (unregister c r))
            (tool_for-unregister c k tool r)
      | inr other ↦ rw other (tool_for-drop_owned plugin_id k tool cs r)
    ]

abbrev is_some {ℓ} : {A : Type ℓ} → Option A → Bool
is_some none = false
is_some (some a) = true

is_in-capabilities :
    (c : String) (m : Dict String ToolAdapter)
    → is_in c (map (λ (entry : String × ToolAdapter). entry.0) m) ≡ is_some (get? c m)
unfolding any get?
is_in-capabilities c [] = refl
is_in-capabilities c ((k, a) ∷ m) = ground (arith, is_in-capabilities c m)

-- The same, without the list of the keys.
abbrev Paired : AdapterRegistry → Type 0
Paired r =
    (c : String) (o : Option String) → get? c r.owners ≡ some o → is_some (get? c r.adapters) ≡ true

register-Paired :
    (a : ToolAdapter) (p : Option String) (r : AdapterRegistry) → Paired r → Paired (register a p r)
unfolding register
register-Paired a p r h c o e =
    ground
      (arith, h c o, e, get?-put a.capability c a r.adapters, get?-put a.capability c p r.owners)

unregister-Paired : (k : String) (r : AdapterRegistry) → Paired r → Paired (unregister k r)
unfolding unregister
unregister-Paired k r h c o e =
    ground (arith, h c o, e, get?-remove k c r.adapters, get?-remove k c r.owners)

add_builtin-Paired : (a : ToolAdapter) (r : AdapterRegistry) → Paired r → Paired (add_builtin a r)
unfolding add_builtin set_default
add_builtin-Paired a r h c o e =
    let same = string_eq.beq_iff a.capability c in
    elim (Option-cases (get? a.capability r.adapters)) [
      | inl new ↦ elim (Option-cases (get? a.capability r.owners)) [
        | inl free ↦ ground (
          arith,
          h c o,
          e,
          new,
          free,
          get?-put a.capability c a r.adapters,
          get?-put a.capability c none r.owners,
        )
        | inr (p, owned) ↦
            ground (arith, h c o, e, new, owned, get?-put a.capability c a r.adapters)
      ]
      | inr (b, known) ↦ elim (Option-cases (get? a.capability r.owners)) [
        | inl free ↦ elim (Bool-cases (str_eq a.capability c)) [
          | inl here ↦
              let moved : get? a.capability r.adapters ≡ get? c r.adapters =
                ap (λ k. get? k r.adapters) (same.0 here) in
              ground (arith, known, moved)
          | inr there ↦
              ground (arith, h c o, e, known, free, there, get?-put a.capability c none r.owners)
        ]
        | inr (p, owned) ↦ ground (arith, h c o, e, known, owned)
      ]
    ]

add_builtins-Paired :
    (adapters : List ToolAdapter) (r : AdapterRegistry)
    → Paired r
    → Paired (add_builtins adapters r)
unfolding add_builtins
add_builtins-Paired [] r h = h
add_builtins-Paired (a ∷ adapters) r h =
    add_builtins-Paired adapters (add_builtin a r) (add_builtin-Paired a r h)

after-Paired : (cs : List Change) (r : AdapterRegistry) → Paired r → Paired (after cs r)
unfolding after
after-Paired [] r h = h
after-Paired (add_adapter a p ∷ cs) r h = after-Paired cs (register a p r) (register-Paired a p r h)
after-Paired (drop_capability c ∷ cs) r h =
    after-Paired cs (unregister c r) (unregister-Paired c r h)

empty-Paired : Paired no_adapters
unfolding get?
empty-Paired c o e = ground arith

-- The registry has this property from its start on.
pub after-OwnedProvided : (cs : List Change) → OwnedProvided (after cs builtin_registry)
unfolding builtin_registry capabilities
after-OwnedProvided cs c o e = rw (is_in-capabilities c (after cs builtin_registry).adapters) (
    after-Paired cs builtin_registry (add_builtins-Paired builtin_adapters no_adapters empty-Paired)
      c o e)

pub owned_is_in :
    (c owner : String) (r : AdapterRegistry)
    → OwnedProvided r
    → plugin_of c r ≡ some owner
    → is_in c (capabilities r) ≡ true
unfolding plugin_of
owned_is_in c owner r provided e = elim (Option-cases (get? c r.owners)) [
  | inl free ↦ ground (arith, free, e)
  | inr (o, known) ↦ provided c o known
]
