-- ===== src/Prelude/Dict.antt =====
-- Python dictionaries as association lists, over keys with a Boolean equality.
use mathlib.Core.Path.{◌≡◌, refl}
use mathlib.Core.Logic.{◌↔◌}
use mathlib.Core.Bool.{Bool, true, false}
use mathlib.Core.List.{List, [], ◌∷◌}
use mathlib.Core.Option.{Option, none, some}
use native.Mathlib.Omega.{arith}
use Prim.Native.Nat.{ℕ, ◌≤◌, ◌+◌}
use Prim.Native.String.{String}
use text.Mathlib.TextEquality.{eq_iff}
use ksec.Prelude.Tests.{◌==◌, str_eq, if◌then◌else◌}
use ksec.Prelude.Lists.{length}

pub record Eq {ℓ} (A : Type ℓ) : Type ℓ where
  pub beq : A → A → Bool
  pub beq_iff : (a b : A) → (beq a b ≡ true) ↔ (a ≡ b)

instance abbrev pub string_eq : Eq String
string_eq = record { beq = str_eq; beq_iff = eq_iff }

-- Equality of optional numbers.
abbrev pub opt_beq : Option ℕ → Option ℕ → Bool
opt_beq none none = true
opt_beq (some a) (some b) = a == b
opt_beq _ _ = false

pub opt_beq_iff : (a b : Option ℕ) → (opt_beq a b ≡ true) ↔ (a ≡ b)
opt_beq_iff a b = ground arith

instance abbrev pub option_eq : Eq (Option ℕ)
option_eq = record { beq = opt_beq; beq_iff = opt_beq_iff }

pub beq_refl {ℓ} : {K : Type ℓ} ⦃e : Eq K⦄ (k : K) → e.beq k k ≡ true
beq_refl ⦃e⦄ k = (e.beq_iff k k).1 refl

abbrev pub Dict {ℓ κ} : Type ℓ → Type κ → Type (ℓ ⊔ κ)
Dict K V = List (K × V)

module _ {ℓ κ} {K : Type ℓ} {V : Type κ} ⦃e : Eq K⦄ where
  unfoldable pub get? : K → Dict K V → Option V
  get? k [] = none
  get? k ((j, v) ∷ m) = if e.beq j k then some v else get? k m

  unfoldable pub put : K → V → Dict K V → Dict K V
  put k v [] = (k, v) ∷ []
  put k v ((j, w) ∷ m) = if e.beq j k then (k, v) ∷ m else (j, w) ∷ put k v m

  unfoldable pub remove : K → Dict K V → Dict K V
  remove k [] = []
  remove k ((j, w) ∷ m) = let rest = remove k m in if e.beq j k then rest else (j, w) ∷ rest

  pub get?-put :
      (k j : K) (v : V) (m : Dict K V)
      → get? j (put k v m) ≡ (if e.beq k j then some v else get? j m)
  unfolding get? put
  get?-put k j v [] = refl
  get?-put k j v ((i, w) ∷ m) =
      ground (arith, e.beq_iff k j, e.beq_iff i k, e.beq_iff i j, get?-put k j v m)

  pub get?-remove :
      (k j : K) (m : Dict K V) → get? j (remove k m) ≡ (if e.beq k j then none else get? j m)
  unfolding get? remove
  get?-remove k j [] = ground arith
  get?-remove k j ((i, w) ∷ m) =
      ground (arith, e.beq_iff k j, e.beq_iff i k, e.beq_iff i j, get?-remove k j m)

  pub length-put : (k : K) (v : V) (m : Dict K V) → length (put k v m) ≤ length m + 1
  unfolding put
  length-put k v [] = omega arith
  length-put k v ((j, w) ∷ m) = ground (arith, length-put k v m)

  pub length-remove : (k : K) (m : Dict K V) → length (remove k m) ≤ length m
  unfolding remove
  length-remove k [] = omega arith
  length-remove k ((j, w) ∷ m) = ground (arith, length-remove k m)
