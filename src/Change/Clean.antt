-- ===== src/Change/Clean.antt =====
-- When two snapshots have no difference.
use ksec.Prelude.{
  String, ◌≡◌, ◌↔◌, refl, sym, ap, ◌∙◌, Bool, true, false, Option, none, some, [], ◌∷◌, str_eq,
  eq_iff, eq_refl, arith, Bool-cases, Option-cases, inl, inr,
}
use ksec.Prelude.Json.{Json, Fields, end, field}
use mathlib.Core.Path.{subst}
use ksec.Change.Diff.{removed, lookup, sub_path, walk, walk_fields, diff}
use ksec.Change.Quiet.{
  both_objects, Quiet, walk-objects, walk-values, added_keys-Quiet, lookup_own, lookup_other,
}

-- Two values are the same if they are equal values, or two dictionaries with the same values at
-- every key, whatever the order of the keys.
mutual
  pub data Same (equal : Json → Json → Bool) : Json → Json → Type 0 where
    dictionaries :
        (a b : Fields)
        → ((key : String) → SameAt equal (lookup key a) (lookup key b))
        → Same equal (Json.obj a) (Json.obj b)
    values : (a b : Json) → both_objects a b ≡ false → equal a b ≡ true → Same equal a b

  pub data SameAt (equal : Json → Json → Bool) : Option Json → Option Json → Type 0 where
    absent : SameAt equal none none
    present : (a b : Json) → Same equal a b → SameAt equal (some a) (some b)

-- No dictionary in the value has a key twice.
unfoldable mutual
  pub IsJson : Json → Type 0
  IsJson (Json.obj fields) = HasKeysOnce fields
  IsJson _ = Unit

  pub HasKeysOnce : Fields → Type 0
  HasKeysOnce end = Unit
  HasKeysOnce (field key value rest) = (lookup key rest ≡ none) × IsJson value × HasKeysOnce rest

module _ (equal : Json → Json → Bool) where
  agreeing_values :
      (a b : Json) (path : String)
      → both_objects a b ≡ false
      → walk equal a b path ≡ []
      → Same equal a b
  agreeing_values a b path h e = values a b h ((walk-values equal a b path h).0 e)

  walk_fields-Quiet :
      (k : String) (v : Json) (rest b : Fields) (path : String)
      → Quiet (walk_fields equal (field k v rest) b path)
      → (new : Json) × (lookup k b ≡ some new)
        × (walk equal v new (sub_path path k) ≡ [])
        × Quiet (walk_fields equal rest b path)
  unfolding walk
  walk_fields-Quiet k v rest b path q = elim (Option-cases (lookup k b)) [
    | inl missing ↦ absurd (ground (arith, missing, q))
    | inr (new, known) ↦
        let here =
          subst
            (λ o. Quiet (elim o [
              | none ↦
                  (k, record { path = sub_path path k; change = removed v } ∷ [])
                  ∷ walk_fields equal rest b path
              | some w ↦ (k, walk equal v w (sub_path path k)) ∷ walk_fields equal rest b path
            ]))
            known q in
        (new, known, here.0, here.1)
  ]

  mutual
    unfolding lookup

    walk-Same : (a b : Json) (path : String) → walk equal a b path ≡ [] → Same equal a b
    walk-Same (Json.obj a) (Json.obj b) path e =
        let (common, extra) = (walk-objects equal a b path).0 e in
        dictionaries a b
          (λ key. at_key a b path key common ((added_keys-Quiet a b path).0 extra key))
    walk-Same (Json.obj a) Json.null path e = agreeing_values _ _ path refl e
    walk-Same (Json.obj a) (Json.bool x) path e = agreeing_values _ _ path refl e
    walk-Same (Json.obj a) (Json.int x) path e = agreeing_values _ _ path refl e
    walk-Same (Json.obj a) (Json.real x) path e = agreeing_values _ _ path refl e
    walk-Same (Json.obj a) (Json.str x) path e = agreeing_values _ _ path refl e
    walk-Same (Json.obj a) (Json.arr ys) path e = agreeing_values _ _ path refl e
    walk-Same Json.null b path e = agreeing_values _ b path refl e
    walk-Same (Json.bool x) b path e = agreeing_values _ b path refl e
    walk-Same (Json.int x) b path e = agreeing_values _ b path refl e
    walk-Same (Json.real x) b path e = agreeing_values _ b path refl e
    walk-Same (Json.str x) b path e = agreeing_values _ b path refl e
    walk-Same (Json.arr xs) b path e = agreeing_values _ b path refl e

    at_key :
        (a b : Fields) (path key : String)
        → Quiet (walk_fields equal a b path)
        → (lookup key a ≡ none → lookup key b ≡ none)
        → SameAt equal (lookup key a) (lookup key b)
    at_key end b path key q extra = rw (extra refl) absent
    at_key (field k v rest) b path key q extra =
        let (new, known, quiet, others) = walk_fields-Quiet k v rest b path q in
        elim (Bool-cases (str_eq k key)) [
          | inl own ↦
              let moved : lookup k b ≡ lookup key b = ap (λ j. lookup j b) ((eq_iff k key).0 own) in
              rw (lookup_own k key v rest own, sym moved ∙ known)
                (present v new (walk-Same v new (sub_path path k) quiet))
          | inr other ↦
              rw (lookup_other k key v rest other)
                (at_key rest b path key others (λ e. extra (lookup_other k key v rest other ∙ e)))
        ]

  fields_agree :
      (a b : Fields)
      → Same equal (Json.obj a) (Json.obj b)
      → (key : String) → SameAt equal (lookup key a) (lookup key b)
  fields_agree a b (dictionaries _ _ agree) = agree
  fields_agree a b (values _ _ h _) = absurd (ground (arith, h))

  values_agree : (a b : Json) → both_objects a b ≡ false → Same equal a b → equal a b ≡ true
  values_agree _ _ h (dictionaries a b agree) = absurd (ground (arith, h))
  values_agree a b h (values _ _ _ e) = e

  no_drift :
      (a b : Json) (path : String)
      → both_objects a b ≡ false
      → Same equal a b
      → walk equal a b path ≡ []
  no_drift a b path h same = (walk-values equal a b path h).1 (values_agree a b h same)

  present_agrees :
      (a : Json) (o : Option Json)
      → SameAt equal (some a) o
      → (b : Json) × (o ≡ some b) × Same equal a b
  present_agrees a o (present _ b same) = (b, refl, same)

  absent_agrees : (o : Option Json) → SameAt equal none o → o ≡ none
  absent_agrees o absent = refl

  mutual
    unfolding lookup walk IsJson

    Same-walk : (a b : Json) (path : String) → IsJson a → Same equal a b → walk equal a b path ≡ []
    Same-walk (Json.obj a) (Json.obj b) path once same =
        let agree = fields_agree a b same in
        (walk-objects equal a b path).1 (
          agreeing a b path once
              (λ key v e. subst (λ o. SameAt equal o (lookup key b)) e (agree key)),
          (added_keys-Quiet a b path).1 (λ key e.
              absent_agrees (lookup key b)
                (subst (λ o. SameAt equal o (lookup key b)) e (agree key))),
        )
    Same-walk (Json.obj a) Json.null path once same = no_drift _ _ path refl same
    Same-walk (Json.obj a) (Json.bool x) path once same = no_drift _ _ path refl same
    Same-walk (Json.obj a) (Json.int x) path once same = no_drift _ _ path refl same
    Same-walk (Json.obj a) (Json.real x) path once same = no_drift _ _ path refl same
    Same-walk (Json.obj a) (Json.str x) path once same = no_drift _ _ path refl same
    Same-walk (Json.obj a) (Json.arr ys) path once same = no_drift _ _ path refl same
    Same-walk Json.null b path once same = no_drift _ b path refl same
    Same-walk (Json.bool x) b path once same = no_drift _ b path refl same
    Same-walk (Json.int x) b path once same = no_drift _ b path refl same
    Same-walk (Json.real x) b path once same = no_drift _ b path refl same
    Same-walk (Json.str x) b path once same = no_drift _ b path refl same
    Same-walk (Json.arr xs) b path once same = no_drift _ b path refl same

    agreeing :
        (a b : Fields) (path : String)
        → HasKeysOnce a
        → ((key : String) (v : Json) → lookup key a ≡ some v → SameAt equal (some v) (lookup key b))
        → Quiet (walk_fields equal a b path)
    agreeing end b path once agree = tt
    agreeing (field k v rest) b path once agree =
        let (new, known, same) =
          present_agrees v (lookup k b) (agree k v (lookup_own k k v rest (eq_refl k))) in
        rw (walk_fields, known)
          (
            Same-walk v new (sub_path path k) once.1 same,
            agreeing rest b path once.2 (λ key u e. agree key u (elim (Bool-cases (str_eq k key)) [
              | inl own ↦
                  let moved : lookup k rest ≡ lookup key rest =
                    ap (λ j. lookup j rest) ((eq_iff k key).0 own) in
                  absurd (ground (arith, once.0, moved, e))
              | inr other ↦ lookup_other k key v rest other ∙ e
            ])),
          )

-- Two snapshots have no difference exactly if they are the same, where the first has no key twice
-- in a dictionary.
pub diff-Same :
    (equal : Json → Json → Bool) (before after : Json)
    → IsJson before
    → (diff equal before after ≡ []) ↔ Same equal before after
unfolding diff
diff-Same equal before after once =
    (walk-Same equal before after "", Same-walk equal before after "" once)
