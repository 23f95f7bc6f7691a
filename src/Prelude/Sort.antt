-- ===== src/Prelude/Sort.antt =====
-- The order of a query's rows: `ORDER BY … LIMIT n`. `before y x` says that `y` must stand before
-- `x`; rows that are not told apart keep the order of the table.
use mathlib.Core.Path.{◌≡◌, refl}
use mathlib.Core.Logic.{◌⊎◌}
use mathlib.Core.Bool.{Bool}
use mathlib.Core.List.{List, [], ◌∷◌}
use mathlib.Core.Option.{Option, none, some}
use native.Mathlib.Omega.{arith}
use ksec.Prelude.Tests.{if◌then◌else◌}

-- A row of the table.
abbrev pub In : {A : Type 0} → A → List A → Type 0
In x [] = ⊥
In x (y ∷ ys) = (x ≡ y) ⊎ In x ys

module _ {ℓ} {A : Type ℓ} (before : A → A → Bool) where
  unfoldable pub insert_by : A → List A → List A
  insert_by x [] = x ∷ []
  insert_by x (y ∷ ys) = if before y x then y ∷ insert_by x ys else x ∷ y ∷ ys

  unfoldable pub sort_by : List A → List A
  unfolding insert_by
  sort_by [] = []
  sort_by (x ∷ xs) = insert_by x (sort_by xs)

  -- The first row of the order: `LIMIT 1`.
  abbrev pub earlier : A → Option A → A
  earlier x none = x
  earlier x (some y) = if before y x then y else x

  unfoldable pub first_by : List A → Option A
  first_by [] = none
  first_by (x ∷ xs) = some (earlier x (first_by xs))

-- `first_by` gives a row of the table, and no row must stand before it.
pub first_by-none {ℓ} :
    {A : Type ℓ} (before : A → A → Bool) (xs : List A) → first_by before xs ≡ none → xs ≡ []
unfolding first_by
first_by-none before [] h = refl
first_by-none before (x ∷ xs) h = ground arith

pub first_by-In :
    {A : Type 0} (before : A → A → Bool) (xs : List A) (r : A)
    → first_by before xs ≡ some r
    → In r xs
unfolding first_by
first_by-In before [] r h = ground arith
first_by-In before (x ∷ xs) r h = ground (arith, first_by-In before xs r)
