-- ===== src/Change/Quiet.antt =====
-- When the walk through two values appends nothing.
use ksec.Prelude.{
  String, ◌≡◌, ◌↔◌, refl, ap, Bool, true, false, none, some, List, [], ◌∷◌, ◌++◌, str_eq, eq_iff,
  eq_refl, arith, Bool-cases, Option-cases, inl, inr, All,
}
use ksec.Prelude.Json.{Json, Fields, end, field}
use ksec.Prelude.Sort.{sort_by, insert_by}
use ksec.Change.Diff.{
  lookup, DriftItem, Entry, key_before, concat, added_keys, unequal, walk, walk_fields,
}

abbrev pub both_objects : Json → Json → Bool
both_objects (Json.obj a) (Json.obj b) = true
both_objects _ _ = false

abbrev pub Quiet : List Entry → Type 0
Quiet = All (λ (e : Entry). e.1 ≡ [])

append-nothing : (xs ys : List DriftItem) → xs ++ ys ≡ [] → (xs ≡ []) × (ys ≡ [])
append-nothing [] ys e = (refl, e)
append-nothing (x ∷ xs) ys e = absurd (ground (arith, e))

concat-Quiet : (es : List Entry) → (concat es ≡ []) ↔ Quiet es
unfolding concat
concat-Quiet [] = (λ e. tt, λ q. refl)
concat-Quiet ((key, drift) ∷ es) = (
  λ e. let (here, there) = append-nothing drift (concat es) e in (here, (concat-Quiet es).0 there),
  λ q. rw q.0 ((concat-Quiet es).1 q.1),
)

insert-Quiet :
    (e : Entry) (es : List Entry) → Quiet (insert_by key_before e es) ↔ ((e.1 ≡ []) × Quiet es)
unfolding insert_by
insert-Quiet e [] = (λ q. q, λ q. q)
insert-Quiet e (x ∷ es) = elim (Bool-cases (key_before x e)) [
  | inl first ↦ rw first (
    λ q. let (own, rest) = (insert-Quiet e es).0 q.1 in (own, (q.0, rest)),
    λ q. (q.1.0, (insert-Quiet e es).1 (q.0, q.1.1)),
  )
  | inr after ↦ rw after (λ q. q, λ q. q)
]

sort-Quiet : (es : List Entry) → Quiet (sort_by key_before es) ↔ Quiet es
unfolding sort_by
sort-Quiet [] = (λ q. q, λ q. q)
sort-Quiet (e ∷ es) = (
  λ q.
      let (own, rest) = (insert-Quiet e (sort_by key_before es)).0 q in
      (own, (sort-Quiet es).0 rest),
  λ q. (insert-Quiet e (sort_by key_before es)).1 (q.0, (sort-Quiet es).1 q.1),
)

append-Quiet : (xs ys : List Entry) → Quiet (xs ++ ys) ↔ (Quiet xs × Quiet ys)
append-Quiet [] ys = (λ q. (tt, q), λ q. q.1)
append-Quiet (x ∷ xs) ys = (
  λ q. let (l, r) = (append-Quiet xs ys).0 q.1 in ((q.0, l), r),
  λ q. (q.0.0, (append-Quiet xs ys).1 (q.0.1, q.1)),
)

module _ (equal : Json → Json → Bool) where
  pub walk-objects :
      (a b : Fields) (path : String)
      → (walk equal (Json.obj a) (Json.obj b) path ≡ [])
        ↔ (Quiet (walk_fields equal a b path) × Quiet (added_keys a b path))
  unfolding walk
  walk-objects a b path =
      let both = walk_fields equal a b path ++ added_keys a b path in
      (
        λ e.
            (append-Quiet (walk_fields equal a b path) (added_keys a b path)).0
              ((sort-Quiet both).0 ((concat-Quiet (sort_by key_before both)).0 e)),
        λ q. (concat-Quiet (sort_by key_before both)).1 (
            (sort-Quiet both).1
              ((append-Quiet (walk_fields equal a b path) (added_keys a b path)).1 q)),
      )

  unequal_iff : (a b : Json) (path : String) → (unequal equal a b path ≡ []) ↔ (equal a b ≡ true)
  unequal_iff a b path = ground arith

  pub walk-values :
      (a b : Json) (path : String)
      → both_objects a b ≡ false
      → (walk equal a b path ≡ []) ↔ (equal a b ≡ true)
  unfolding walk
  walk-values Json.null b path h = unequal_iff _ _ _
  walk-values (Json.bool x) b path h = unequal_iff _ _ _
  walk-values (Json.int x) b path h = unequal_iff _ _ _
  walk-values (Json.real x) b path h = unequal_iff _ _ _
  walk-values (Json.str x) b path h = unequal_iff _ _ _
  walk-values (Json.arr xs) Json.null path h = unequal_iff _ _ _
  walk-values (Json.arr xs) (Json.bool x) path h = unequal_iff _ _ _
  walk-values (Json.arr xs) (Json.int x) path h = unequal_iff _ _ _
  walk-values (Json.arr xs) (Json.real x) path h = unequal_iff _ _ _
  walk-values (Json.arr xs) (Json.str x) path h = unequal_iff _ _ _
  walk-values (Json.arr xs) (Json.arr ys) path h = unequal_iff _ _ _
  walk-values (Json.arr xs) (Json.obj b) path h = unequal_iff _ _ _
  walk-values (Json.obj a) Json.null path h = unequal_iff _ _ _
  walk-values (Json.obj a) (Json.bool x) path h = unequal_iff _ _ _
  walk-values (Json.obj a) (Json.int x) path h = unequal_iff _ _ _
  walk-values (Json.obj a) (Json.real x) path h = unequal_iff _ _ _
  walk-values (Json.obj a) (Json.str x) path h = unequal_iff _ _ _
  walk-values (Json.obj a) (Json.arr ys) path h = unequal_iff _ _ _
  walk-values (Json.obj a) (Json.obj b) path h = absurd (ground (arith, h))

pub added_keys-Quiet :
    (a b : Fields) (path : String)
    → Quiet (added_keys a b path) ↔ ((key : String) → lookup key a ≡ none → lookup key b ≡ none)
unfolding added_keys lookup
added_keys-Quiet a end path = (λ q key e. refl, λ h. tt)
added_keys-Quiet a (field k value rest) path = elim (Option-cases (lookup k a)) [
  | inl missing ↦
      rw (added_keys, missing)
        (
          λ q. absurd (ground (arith, q.0)),
          λ h.
              let found = h k missing in let own = eq_refl k in absurd (ground (arith, found, own)),
        )
  | inr (old, known) ↦
      rw (added_keys, known)
        (
          λ q key e. elim (Bool-cases (str_eq k key)) [
            | inl own ↦
                let moved : lookup k a ≡ lookup key a =
                  ap (λ j. lookup j a) ((eq_iff k key).0 own) in
                absurd (ground (arith, known, moved, e))
            | inr other ↦ rw other ((added_keys-Quiet a rest path).0 q key e)
          ],
          λ h. (added_keys-Quiet a rest path).1 (λ key e. elim (Bool-cases (str_eq k key)) [
            | inl own ↦
                let moved : lookup k a ≡ lookup key a =
                  ap (λ j. lookup j a) ((eq_iff k key).0 own) in
                absurd (ground (arith, known, moved, e))
            | inr other ↦ let there = h key e in ground (arith, there, other)
          ]),
        )
]

pub lookup_own :
    (k key : String) (v : Json) (rest : Fields)
    → str_eq k key ≡ true
    → lookup key (field k v rest) ≡ some v
unfolding lookup
lookup_own k key v rest e = rw e refl

pub lookup_other :
    (k key : String) (v : Json) (rest : Fields)
    → str_eq k key ≡ false
    → lookup key (field k v rest) ≡ lookup key rest
unfolding lookup
lookup_other k key v rest e = rw e refl
