-- ===== src/Change/Diff.antt =====
-- change/service.py: `_diff`, which lists the differences of two snapshots.
use ksec.Prelude.{
  String, Bool, true, false, Option, none, some, List, [], ◌∷◌, ◌++◌, str_eq, if◌then◌else◌,
}
use ksec.Prelude.Json.{Json, Fields, end, field}
use ksec.Prelude.Sort.{sort_by}
use ksec.Prelude.Strings.{◌<>◌}
use Prim.Native.String.{compare}
use Prim.Native.Nat.{Ordering}

-- `key in d` and `d[key]`, in one.
unfoldable pub lookup : String → Fields → Option Json
lookup key end = none
lookup key (field k value rest) = if str_eq k key then some value else lookup key rest

-- The order of texts that `sorted` uses.
abbrev pub text_before : String → String → Bool
text_before a b = elim (compare a b) [ Ordering.lt ↦ true | _ ↦ false ]

pub data Change : Type 0 where
  added removed : Json → Change
  changed : Json → Json → Change

-- An item of the drift, with its path.
pub record DriftItem : Type 0 where
  pub path : String
  pub change : Change

-- `f"{path}.{key}" if path else str(key)`
abbrev pub sub_path : String → String → String
sub_path path key = if str_eq path "" then key else path <> "." <> key

-- `path or default`
abbrev pub path_or : String → String → String
path_or path default = if str_eq path "" then default else path

-- The items of a key.
abbrev pub Entry : Type 0
Entry = String × List DriftItem

abbrev pub key_before : Entry → Entry → Bool
key_before a b = text_before a.0 b.0

unfoldable pub concat : List Entry → List DriftItem
concat [] = []
concat ((key, drift) ∷ entries) = drift ++ concat entries

-- The keys of the second dictionary that the first has not.
unfoldable pub added_keys : Fields → Fields → String → List Entry
added_keys a end path = []
added_keys a (field key value rest) path =
    let others = added_keys a rest path in
    elim (lookup key a) [
      | none ↦ (key, record { path = sub_path path key; change = added value } ∷ []) ∷ others
      | some old ↦ others
    ]

-- `equal` is Python's `==` on two values that are not both dictionaries.
module _ (equal : Json → Json → Bool) where
  abbrev pub unequal : Json → Json → String → List DriftItem
  unequal a b path = if equal a b then [] else record { path = path; change = changed a b } ∷ []

  unfoldable mutual
    -- `walk`. The loop over the sorted keys of both dictionaries: the keys of the first, those
    -- that only the second has, and the items in the order of the keys.
    pub walk : Json → Json → String → List DriftItem
    walk (Json.obj a) (Json.obj b) path =
        concat (sort_by key_before (walk_fields a b path ++ added_keys a b path))
    walk (Json.arr xs) (Json.arr ys) path =
        unequal (Json.arr xs) (Json.arr ys) (path_or path "(list)")
    walk a b path = unequal a b (path_or path "(value)")

    pub walk_fields : Fields → Fields → String → List Entry
    walk_fields end b path = []
    walk_fields (field key value rest) b path =
        let others = walk_fields rest b path in
        elim (lookup key b) [
          | none ↦ (key, record { path = sub_path path key; change = removed value } ∷ []) ∷ others
          | some new ↦ (key, walk value new (sub_path path key)) ∷ others
        ]

  -- `_diff`
  unfoldable pub diff : Json → Json → List DriftItem
  diff before after = walk before after ""
