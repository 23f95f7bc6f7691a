-- ===== src/Prelude/Strings/Decimal.antt =====
-- The decimal text of a number, and reading it back.
use Prim.Native.Char.{code}
use ksec.Prelude.{
  ℕ, zero, suc, ◌+◌, ◌-◌, ◌*◌, ◌/◌, ◌%◌, ◌<◌, String, ◌≡◌, refl, true, arith, ltb, if◌then◌else◌,
}
use ksec.Prelude.Int.{ℤ, pos, negsuc}
use ksec.Prelude.Strings.{◌<>◌, all_digits, isdigit, number_from, to_number}

-- The character of a digit.
unfoldable pub digit_char : ℕ → String
digit_char zero = "0"
digit_char (suc zero) = "1"
digit_char (suc (suc zero)) = "2"
digit_char (suc (suc (suc zero))) = "3"
digit_char (suc (suc (suc (suc zero)))) = "4"
digit_char (suc (suc (suc (suc (suc zero))))) = "5"
digit_char (suc (suc (suc (suc (suc (suc zero)))))) = "6"
digit_char (suc (suc (suc (suc (suc (suc (suc zero))))))) = "7"
digit_char (suc (suc (suc (suc (suc (suc (suc (suc zero)))))))) = "8"
digit_char _ = "9"

-- The digits of a number, on fuel above it.
unfoldable pub show_from : ℕ → ℕ → String
show_from zero n = digit_char 0
show_from (suc f) n =
    let more = show_from f (n / 10) <> digit_char (n % 10) in
    if ltb n 10 then digit_char n else more

-- `str(n)`
unfoldable pub show : ℕ → String
show n = show_from (suc n) n

all_digits-<> :
    (s t : String) → all_digits s ≡ true → all_digits t ≡ true → all_digits (s <> t) ≡ true
unfolding all_digits ◌<>◌
all_digits-<> String.[] t p q = q
all_digits-<> (String.◌∷◌ c s) t p q = ground (arith, all_digits-<> s t)

number_from-<> : (n : ℕ) (s t : String) → number_from n (s <> t) ≡ number_from (number_from n s) t
unfolding number_from ◌<>◌
number_from-<> n String.[] t = refl
number_from-<> n (String.◌∷◌ c s) t = number_from-<> (n * 10 + (code c - b'0')) s t

all_digits-digit_char : (n : ℕ) → all_digits (digit_char n) ≡ true
unfolding all_digits digit_char
all_digits-digit_char zero = refl
all_digits-digit_char (suc zero) = refl
all_digits-digit_char (suc (suc zero)) = refl
all_digits-digit_char (suc (suc (suc zero))) = refl
all_digits-digit_char (suc (suc (suc (suc zero)))) = refl
all_digits-digit_char (suc (suc (suc (suc (suc zero))))) = refl
all_digits-digit_char (suc (suc (suc (suc (suc (suc zero)))))) = refl
all_digits-digit_char (suc (suc (suc (suc (suc (suc (suc zero))))))) = refl
all_digits-digit_char (suc (suc (suc (suc (suc (suc (suc (suc zero)))))))) = refl
all_digits-digit_char _ = refl

number_from-digit_char : (m n : ℕ) → n < 10 → number_from m (digit_char n) ≡ m * 10 + n
unfolding number_from digit_char
number_from-digit_char m zero h = refl
number_from-digit_char m (suc zero) h = refl
number_from-digit_char m (suc (suc zero)) h = refl
number_from-digit_char m (suc (suc (suc zero))) h = refl
number_from-digit_char m (suc (suc (suc (suc zero)))) h = refl
number_from-digit_char m (suc (suc (suc (suc (suc zero))))) h = refl
number_from-digit_char m (suc (suc (suc (suc (suc (suc zero)))))) h = refl
number_from-digit_char m (suc (suc (suc (suc (suc (suc (suc zero))))))) h = refl
number_from-digit_char m (suc (suc (suc (suc (suc (suc (suc (suc zero)))))))) h = refl
number_from-digit_char m (suc (suc (suc (suc (suc (suc (suc (suc (suc n))))))))) h =
    let e : n ≡ 0 = omega arith in rw e

all_digits-show_from : (f n : ℕ) → all_digits (show_from f n) ≡ true
unfolding show_from
all_digits-show_from zero n = all_digits-digit_char 0
all_digits-show_from (suc f) n = ground (
  arith,
  all_digits-digit_char n,
  all_digits-<> (show_from f (n / 10)) (digit_char (n % 10)),
  all_digits-show_from f (n / 10),
  all_digits-digit_char (n % 10),
)

number_from-show_from : (f n : ℕ) → n < f → number_from 0 (show_from f n) ≡ n
unfolding show_from
number_from-show_from zero n h = absurd (omega arith)
number_from-show_from (suc f) n h = ground (
  arith,
  number_from-digit_char 0 n,
  number_from-<> 0 (show_from f (n / 10)) (digit_char (n % 10)),
  number_from-show_from f (n / 10),
  number_from-digit_char (n / 10) (n % 10),
)

pub to_number-show : (n : ℕ) → to_number (show n) ≡ n
unfolding to_number show
to_number-show n = number_from-show_from (suc n) n (omega arith)

-- A text of digits that has a value other than the empty one's is not empty.
isdigit-<> : (s t : String) → isdigit s ≡ true → all_digits t ≡ true → isdigit (s <> t) ≡ true
unfolding isdigit ◌<>◌
isdigit-<> String.[] t p q = ground arith
isdigit-<> (String.◌∷◌ c s) t p q = ground (arith, all_digits-<> s t)

isdigit-digit_char : (n : ℕ) → isdigit (digit_char n) ≡ true
unfolding isdigit digit_char
isdigit-digit_char zero = refl
isdigit-digit_char (suc zero) = refl
isdigit-digit_char (suc (suc zero)) = refl
isdigit-digit_char (suc (suc (suc zero))) = refl
isdigit-digit_char (suc (suc (suc (suc zero)))) = refl
isdigit-digit_char (suc (suc (suc (suc (suc zero))))) = refl
isdigit-digit_char (suc (suc (suc (suc (suc (suc zero)))))) = refl
isdigit-digit_char (suc (suc (suc (suc (suc (suc (suc zero))))))) = refl
isdigit-digit_char (suc (suc (suc (suc (suc (suc (suc (suc zero)))))))) = refl
isdigit-digit_char _ = refl

isdigit-show_from : (f n : ℕ) → isdigit (show_from f n) ≡ true
unfolding show_from
isdigit-show_from zero n = isdigit-digit_char 0
isdigit-show_from (suc f) n = ground (
  arith,
  isdigit-digit_char n,
  isdigit-<> (show_from f (n / 10)) (digit_char (n % 10)),
  isdigit-show_from f (n / 10),
  all_digits-digit_char (n % 10),
)

pub isdigit-show : (n : ℕ) → isdigit (show n) ≡ true
unfolding show
isdigit-show n = isdigit-show_from (suc n) n

-- `str` of a whole number.
abbrev pub show_ℤ : ℤ → String
show_ℤ (pos n) = show n
show_ℤ (negsuc n) = "-" <> show (suc n)
