-- ===== src/Prelude/Texts.antt =====
-- Texts that the program walks, as lists of code points, and truncation.
use Prim.Native.Char.{code}
use Prim.Native.Nat.{ℕ, zero, suc, ◌≤◌}
use Prim.Native.String.{String}
use mathlib.Core.List.{List, [], ◌∷◌}
use native.Mathlib.Omega.{arith}

abbrev pub codes : String → List ℕ
codes String.[] = []
codes (String.◌∷◌ c s) = code c ∷ codes s

-- `s[:n]`
unfoldable pub cut : ℕ → String → String
cut zero s = ""
cut (suc n) String.[] = ""
cut (suc n) (String.◌∷◌ c s) = String.◌∷◌ c (cut n s)

-- `len(s)`, in characters.
unfoldable pub chars : String → ℕ
chars String.[] = 0
chars (String.◌∷◌ c s) = suc (chars s)

pub chars-cut : (n : ℕ) (s : String) → chars (cut n s) ≤ n
unfolding chars cut
chars-cut zero s = omega arith
chars-cut (suc n) String.[] = omega arith
chars-cut (suc n) (String.◌∷◌ c s) = omega (arith, chars-cut n s)
