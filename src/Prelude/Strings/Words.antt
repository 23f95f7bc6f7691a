-- ===== src/Prelude/Strings/Words.antt =====
-- How the text operations act on texts of digits, and on words that are put together.
use Prim.Native.Char.{Char, code}
use ksec.Prelude.{
  ℕ, String, ◌≡◌, refl, Bool, true, false, ◌&&◌, arith, ◌∙◌, ap, and_left, and_right, Bool-cases,
  inl, inr, [], ◌∷◌, not,
}
use ksec.Prelude.Strings.{
  ◌<>◌, is_digit, is_space, all_digits, isdigit, words, strip, lstrip, rstrip, rstrip_cons,
  split_on, has_char, begins_word,
}

-- A text with no white space.
unfoldable pub solid : String → Bool
solid String.[] = true
solid (String.◌∷◌ c s) = not (is_space (code c)) && solid s

solid_of_all_digits : (s : String) → all_digits s ≡ true → solid s ≡ true
unfolding solid all_digits is_space
solid_of_all_digits String.[] h = refl
solid_of_all_digits (String.◌∷◌ c s) h = ground (arith, solid_of_all_digits s)

rstrip-solid : (s : String) → solid s ≡ true → rstrip s ≡ s
unfolding solid rstrip
rstrip-solid String.[] h = refl
rstrip-solid (String.◌∷◌ c String.[]) h = ground arith
rstrip-solid (String.◌∷◌ c (String.◌∷◌ d s)) h =
    ap (rstrip_cons c) (rstrip-solid (String.◌∷◌ d s) (and_right _ _ h))

pub strip-solid : (s : String) → solid s ≡ true → strip s ≡ s
unfolding strip lstrip solid
strip-solid String.[] h = rstrip-solid "" refl
strip-solid (String.◌∷◌ c s) h = ground (arith, rstrip-solid (String.◌∷◌ c s) h)

no_char_in_digits :
    (p : ℕ) (s : String) → is_digit p ≡ false → all_digits s ≡ true → has_char p s ≡ false
unfolding has_char all_digits
no_char_in_digits p String.[] h d = refl
no_char_in_digits p (String.◌∷◌ c s) h d = ground (arith, no_char_in_digits p s)

pub split_on-absent : (p : ℕ) (s : String) → has_char p s ≡ false → split_on p s ≡ s ∷ []
unfolding split_on has_char
split_on-absent p String.[] h = refl
split_on-absent p (String.◌∷◌ c s) h = ground (arith, split_on-absent p s)

blank : is_space 32 ≡ true
unfolding is_space
blank = refl

-- A solid word in front of a blank is the first of the words.
pub words-<> :
    (c : Char) (s t : String)
    → is_space (code c) ≡ false
    → solid s ≡ true
    → words ((String.◌∷◌ c s) <> " " <> t) ≡ String.◌∷◌ c s ∷ words t
unfolding words solid ◌<>◌
words-<> c String.[] t h k = ground (arith, blank)
words-<> c (String.◌∷◌ d s) t h k = ground (arith, words-<> d s t, blank)

pub isdigit-solid : (s : String) → isdigit s ≡ true → solid s ≡ true
unfolding isdigit solid
isdigit-solid String.[] h = refl
isdigit-solid (String.◌∷◌ c s) h = solid_of_all_digits (String.◌∷◌ c s) h

pub isdigit-no_char :
    (p : ℕ) (s : String) → is_digit p ≡ false → isdigit s ≡ true → has_char p s ≡ false
unfolding isdigit
isdigit-no_char p String.[] q h = ground arith
isdigit-no_char p (String.◌∷◌ c s) q h = no_char_in_digits p (String.◌∷◌ c s) q h

digit_not_space : (c : Char) → is_digit (code c) ≡ true → is_space (code c) ≡ false
unfolding is_space
digit_not_space c h = ground arith

-- A number in front of a blank is the first of the words.
pub words-isdigit : (s t : String) → isdigit s ≡ true → words (s <> " " <> t) ≡ s ∷ words t
unfolding isdigit
words-isdigit String.[] t h = ground arith
words-isdigit (String.◌∷◌ c s) t h =
    words-<> c s t (digit_not_space c (and_left _ _ h)) (solid_of_all_digits s (and_right _ _ h))

words-lstrip : (s : String) → words (lstrip s) ≡ words s
unfolding words lstrip
words-lstrip String.[] = refl
words-lstrip (String.◌∷◌ c s) = elim (Bool-cases (is_space (code c))) [
  | inl space ↦ rw space (words-lstrip s)
  | inr other ↦ rw other (rw other)
]

begins_word-rstrip_cons :
    (c : Char) (r : String) → begins_word (rstrip_cons c r) ≡ not (is_space (code c))
begins_word-rstrip_cons c String.[] = elim (Bool-cases (is_space (code c))) [
  | inl space ↦ rw space
  | inr other ↦ rw (other, other)
]
begins_word-rstrip_cons c (String.◌∷◌ d r) = refl

begins_word-rstrip : (s : String) → begins_word (rstrip s) ≡ begins_word s
unfolding rstrip
begins_word-rstrip String.[] = refl
begins_word-rstrip (String.◌∷◌ c s) = begins_word-rstrip_cons c (rstrip s)

words-rstrip_cons :
    (c : Char) (s r : String)
    → words r ≡ words s
    → begins_word r ≡ begins_word s
    → words (rstrip_cons c r) ≡ words (String.◌∷◌ c s)
unfolding words
words-rstrip_cons c s String.[] h k = elim (Bool-cases (is_space (code c))) [
  | inl space ↦ rw space (ground arith)
  | inr other ↦ rw other (ground arith)
]
words-rstrip_cons c s (String.◌∷◌ d r) h k = ground arith

words-rstrip : (s : String) → words (rstrip s) ≡ words s
unfolding rstrip
words-rstrip String.[] = refl
words-rstrip (String.◌∷◌ c s) =
    words-rstrip_cons c s (rstrip s) (words-rstrip s) (begins_word-rstrip s)

-- `s.strip().split()` is `s.split()`.
pub words-strip : (s : String) → words (strip s) ≡ words s
words-strip s = unfold strip in (words-rstrip (lstrip s) ∙ words-lstrip s)
