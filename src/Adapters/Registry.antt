-- ===== src/Adapters/Registry.antt =====
-- adapters/registry.py: the adapters of the capabilities, with the choice of a tool and the plugins
-- that own a capability.
use ksec.Prelude.{
  String, ◌≡◌, Option, none, some, List, [], ◌∷◌, map, str_eq, arith, Option-cases, inl, inr,
  if◌then◌else◌,
}
use ksec.Prelude.Dict.{Dict, get?, put, remove, string_eq, get?-put, get?-remove}
use ksec.Adapters.Builtin.{ToolAdapter, builtin_adapters}

-- The owner `none` of a capability is the program itself.
pub record AdapterRegistry : Type 0 where
  pub adapters : Dict String ToolAdapter
  pub by_tool : Dict String ToolAdapter
  pub owners : Dict String (Option String)

-- `d.setdefault(k, v)`
unfoldable pub set_default {ℓ} : {V : Type ℓ} → String → V → Dict String V → Dict String V
set_default k v m = elim (get? k m) [ none ↦ put k v m | some _ ↦ m ]

-- One round of the loop of `__init__`.
unfoldable pub add_builtin : ToolAdapter → AdapterRegistry → AdapterRegistry
add_builtin adapter r = record {
  adapters = set_default adapter.capability adapter r.adapters;
  by_tool = put adapter.name adapter r.by_tool;
  owners = set_default adapter.capability none r.owners;
}

unfoldable pub add_builtins : List ToolAdapter → AdapterRegistry → AdapterRegistry
add_builtins [] r = r
add_builtins (adapter ∷ adapters) r = add_builtins adapters (add_builtin adapter r)

abbrev pub no_adapters : AdapterRegistry
no_adapters = record { adapters = []; by_tool = []; owners = [] }

-- `AdapterRegistry()`
unfoldable pub builtin_registry : AdapterRegistry
builtin_registry = add_builtins builtin_adapters no_adapters

-- The adapter of a tool, if it provides the capability.
unfoldable pub tool_for : String → Option String → AdapterRegistry → Option ToolAdapter
tool_for capability none r = none
tool_for capability (some tool) r = if str_eq tool "" then none else elim (get? tool r.by_tool) [
  | none ↦ none
  | some adapter ↦ if str_eq adapter.capability capability then some adapter else none
]

unfoldable pub get : String → Option String → AdapterRegistry → Option ToolAdapter
get capability tool r = elim (tool_for capability tool r) [
  | some adapter ↦ some adapter
  | none ↦ get? capability r.adapters
]

-- The keys, without their sorting.
unfoldable pub capabilities : AdapterRegistry → List String
capabilities r = map (λ (entry : String × ToolAdapter). entry.0) r.adapters

unfoldable pub register : ToolAdapter → Option String → AdapterRegistry → AdapterRegistry
register adapter plugin_id r = record {
  adapters = put adapter.capability adapter r.adapters;
  by_tool = put adapter.name adapter r.by_tool;
  owners = put adapter.capability plugin_id r.owners;
}

unfoldable pub unregister : String → AdapterRegistry → AdapterRegistry
unregister capability r = record r {
  adapters = remove capability r.adapters;
  owners = remove capability r.owners;
}

unfoldable pub plugin_of : String → AdapterRegistry → Option String
plugin_of capability r = elim (get? capability r.owners) [ none ↦ none | some owner ↦ owner ]

-- What changes the registry after its start.
pub data Change : Type 0 where
  add_adapter : ToolAdapter → Option String → Change
  drop_capability : String → Change

unfoldable pub after : List Change → AdapterRegistry → AdapterRegistry
after [] r = r
after (add_adapter adapter plugin_id ∷ cs) r = after cs (register adapter plugin_id r)
after (drop_capability capability ∷ cs) r = after cs (unregister capability r)

-- Every adapter stands under its own capability.
abbrev pub IsKeyed : AdapterRegistry → Type 0
IsKeyed r = (c : String) (a : ToolAdapter) → get? c r.adapters ≡ some a → a.capability ≡ c

register-IsKeyed :
    (adapter : ToolAdapter) (plugin_id : Option String) (r : AdapterRegistry)
    → IsKeyed r
    → IsKeyed (register adapter plugin_id r)
unfolding register
register-IsKeyed adapter plugin_id r h c a e = ground (
  arith,
  h c a,
  get?-put adapter.capability c adapter r.adapters,
  string_eq.beq_iff adapter.capability c,
  e,
)

unregister-IsKeyed :
    (capability : String) (r : AdapterRegistry) → IsKeyed r → IsKeyed (unregister capability r)
unfolding unregister
unregister-IsKeyed capability r h c a e =
    ground (arith, h c a, get?-remove capability c r.adapters, e)

add_builtin-IsKeyed :
    (adapter : ToolAdapter) (r : AdapterRegistry) → IsKeyed r → IsKeyed (add_builtin adapter r)
unfolding add_builtin set_default
add_builtin-IsKeyed adapter r h c a e = ground (
  arith,
  h c a,
  get?-put adapter.capability c adapter r.adapters,
  string_eq.beq_iff adapter.capability c,
  e,
)

add_builtins-IsKeyed :
    (adapters : List ToolAdapter) (r : AdapterRegistry)
    → IsKeyed r
    → IsKeyed (add_builtins adapters r)
unfolding add_builtins
add_builtins-IsKeyed [] r h = h
add_builtins-IsKeyed (a ∷ adapters) r h =
    add_builtins-IsKeyed adapters (add_builtin a r) (add_builtin-IsKeyed a r h)

after-IsKeyed : (cs : List Change) (r : AdapterRegistry) → IsKeyed r → IsKeyed (after cs r)
unfolding after
after-IsKeyed [] r h = h
after-IsKeyed (add_adapter a p ∷ cs) r h =
    after-IsKeyed cs (register a p r) (register-IsKeyed a p r h)
after-IsKeyed (drop_capability c ∷ cs) r h =
    after-IsKeyed cs (unregister c r) (unregister-IsKeyed c r h)

empty-IsKeyed : IsKeyed no_adapters
unfolding get?
empty-IsKeyed c a e = ground arith

tool_for-capability :
    (capability : String) (tool : Option String) (r : AdapterRegistry) (a : ToolAdapter)
    → tool_for capability tool r ≡ some a
    → a.capability ≡ capability
unfolding tool_for
tool_for-capability capability none r a e = ground arith
tool_for-capability capability (some tool) r a e = elim (Option-cases (get? tool r.by_tool)) [
  | inl unknown ↦ ground (arith, e, unknown)
  | inr (b, known) ↦ ground (arith, e, known, string_eq.beq_iff b.capability capability)
]

-- After any changes of the registry that the program starts with, the adapter that it gives for a
-- capability provides this capability, whether or not a tool was asked for.
pub get-capability :
    (cs : List Change) (capability : String) (tool : Option String) (a : ToolAdapter)
    → get capability tool (after cs builtin_registry) ≡ some a
    → a.capability ≡ capability
unfolding get builtin_registry
get-capability cs capability tool a e =
    let keyed =
      after-IsKeyed cs builtin_registry
        (add_builtins-IsKeyed builtin_adapters no_adapters empty-IsKeyed) capability a in
    ground (arith, e, keyed, tool_for-capability capability tool (after cs builtin_registry) a)
