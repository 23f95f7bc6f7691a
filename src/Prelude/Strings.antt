-- ===== src/Prelude/Strings.antt =====
-- Python's operations on texts, by recursion on the characters. Case and digits are those of ASCII;
-- white space is Python's whole set.
pub mod Decimal
pub mod Upper
pub mod Words
use Prim.Native.Char.{Char, code}
use Prim.Native.Nat.{ℕ, zero, suc, ◌+◌, ◌-◌, ◌*◌, ◌/◌, ◌%◌}
use Prim.Native.String.{String}
use mathlib.Core.Bool.{Bool, true, false, not, ◌&&◌, ◌||◌}
use mathlib.Core.List.{List, [], ◌∷◌}
use mathlib.Core.Option.{Option, none, some}
use ksec.Prelude.Tests.{◌==◌, leb, ltb, str_eq, if◌then◌else◌}
use ksec.Prelude.Int.{ℤ, pos, negsuc}

-- `str.isspace` of one character.
unfoldable pub is_space : ℕ → Bool
is_space c =
    (leb 9 c && leb c 13)
    || (leb 28 c && leb c 32)
    || c == 0x85
    || c == 0xa0
    || c == 0x1680
    || (leb 0x2000 c && leb c 0x200a)
    || c == 0x2028
    || c == 0x2029
    || c == 0x202f
    || c == 0x205f
    || c == 0x3000

abbrev pub is_digit : ℕ → Bool
is_digit c = leb b'0' c && leb c b'9'

-- `s.lstrip()`
unfoldable pub lstrip : String → String
lstrip String.[] = ""
lstrip (String.◌∷◌ c s) = if is_space (code c) then lstrip s else String.◌∷◌ c s

-- Puts a character before a stripped rest, unless it would be trailing white space.
abbrev pub rstrip_cons : Char → String → String
rstrip_cons c String.[] = if is_space (code c) then "" else String.◌∷◌ c ""
rstrip_cons c (String.◌∷◌ d s) = String.◌∷◌ c (String.◌∷◌ d s)

-- `s.rstrip()`
unfoldable pub rstrip : String → String
rstrip String.[] = ""
rstrip (String.◌∷◌ c s) = rstrip_cons c (rstrip s)

-- `s.strip()`
unfoldable pub strip : String → String
unfolding lstrip rstrip
strip s = rstrip (lstrip s)

-- Puts a character before the first text of a list.
abbrev pub cons_head : Char → List String → List String
cons_head c [] = String.◌∷◌ c "" ∷ []
cons_head c (w ∷ ws) = String.◌∷◌ c w ∷ ws

-- `s.split(sep)`, for a separator of one character.
unfoldable pub split_on : ℕ → String → List String
split_on sep String.[] = "" ∷ []
split_on sep (String.◌∷◌ c s) =
    let rest = split_on sep s in if code c == sep then "" ∷ rest else cons_head c rest

abbrev pub begins_word : String → Bool
begins_word String.[] = false
begins_word (String.◌∷◌ c s) = not (is_space (code c))

-- `s.split()`
unfoldable pub words : String → List String
words String.[] = []
words (String.◌∷◌ c s) =
    let rest = words s in
    if is_space (code c)
    then rest
    else if begins_word s
    then cons_head c rest
    else String.◌∷◌ c "" ∷ rest

-- Every character is a digit.
unfoldable pub all_digits : String → Bool
all_digits String.[] = true
all_digits (String.◌∷◌ c s) = is_digit (code c) && all_digits s

-- `s.isdigit()`
unfoldable pub isdigit : String → Bool
unfolding all_digits
isdigit String.[] = false
isdigit (String.◌∷◌ c s) = is_digit (code c) && all_digits s

unfoldable pub number_from : ℕ → String → ℕ
number_from n String.[] = n
number_from n (String.◌∷◌ c s) = number_from (n * 10 + (code c - b'0')) s

-- `int(s)` of a text of digits.
unfoldable pub to_number : String → ℕ
unfolding number_from
to_number s = number_from 0 s

-- The digits of an `int` literal: single underscores may stand between digits. The flag says
-- whether the character before was a digit.
unfoldable pub digits_from : Bool → ℕ → String → Option ℕ
digits_from after n String.[] = if after then some n else none
digits_from after n (String.◌∷◌ c s) =
    let digit = digits_from true (n * 10 + (code c - b'0')) s in
    let under = digits_from false n s in
    if is_digit (code c) then digit else if (code c == b'_') && after then under else none

abbrev pub negate : ℕ → ℤ
negate zero = pos 0
negate (suc n) = negsuc n

unfoldable pub signed : String → Option ℤ
unfolding digits_from
signed String.[] = none
signed (String.◌∷◌ c s) =
    if code c == b'-'
    then (elim (digits_from false 0 s) [ none ↦ none | some n ↦ some (negate n) ])
    else if code c == b'+'
    then (elim (digits_from false 0 s) [ none ↦ none | some n ↦ some (pos n) ])
    else (elim (digits_from false 0 (String.◌∷◌ c s)) [ none ↦ none | some n ↦ some (pos n) ])

-- `int(s)`, which allows white space around and a sign; `none` is its ValueError.
unfoldable pub int_of : String → Option ℤ
unfolding signed strip
int_of s = signed (strip s)

-- `p in s` for one character, and the text before and after its first place.
unfoldable pub has_char : ℕ → String → Bool
has_char p String.[] = false
has_char p (String.◌∷◌ c s) = code c == p || has_char p s

unfoldable pub before_char : ℕ → String → String
before_char p String.[] = ""
before_char p (String.◌∷◌ c s) = if code c == p then "" else String.◌∷◌ c (before_char p s)

unfoldable pub after_char : ℕ → String → String
after_char p String.[] = ""
after_char p (String.◌∷◌ c s) = if code c == p then s else after_char p s

-- The rest of `s` behind the prefix `p`, if it has it: `s.startswith(p)` and `s[len(p):]`.
unfoldable pub after_prefix : String → String → Option String
after_prefix String.[] s = some s
after_prefix (String.◌∷◌ d p) String.[] = none
after_prefix (String.◌∷◌ d p) (String.◌∷◌ c s) = if code c == code d then after_prefix p s else none

-- `s.endswith(p)`
unfoldable pub ends_with : String → String → Bool
ends_with p String.[] = str_eq p ""
ends_with p (String.◌∷◌ c s) = str_eq p (String.◌∷◌ c s) || ends_with p s

-- Concatenation, as an f-string puts its pieces together.
infixr 65 ◌<>◌
unfoldable pub ◌<>◌ : String → String → String
String.[] <> t = t
(String.◌∷◌ c s) <> t = String.◌∷◌ c (s <> t)

-- `s.count(p)` for one character.
unfoldable pub count_char : ℕ → String → ℕ
count_char p String.[] = 0
count_char p (String.◌∷◌ c s) = (if code c == p then 1 else 0) + count_char p s

abbrev pub lower_table : List (ℕ × Char)
lower_table =
    (b'A', "a")
    ∷ (b'B', "b")
    ∷ (b'C', "c")
    ∷ (b'D', "d")
    ∷ (b'E', "e")
    ∷ (b'F', "f")
    ∷ (b'G', "g")
    ∷ (b'H', "h")
    ∷ (b'I', "i")
    ∷ (b'J', "j")
    ∷ (b'K', "k")
    ∷ (b'L', "l")
    ∷ (b'M', "m")
    ∷ (b'N', "n")
    ∷ (b'O', "o")
    ∷ (b'P', "p")
    ∷ (b'Q', "q")
    ∷ (b'R', "r")
    ∷ (b'S', "s")
    ∷ (b'T', "t")
    ∷ (b'U', "u")
    ∷ (b'V', "v")
    ∷ (b'W', "w")
    ∷ (b'X', "x")
    ∷ (b'Y', "y")
    ∷ (b'Z', "z")
    ∷ []

abbrev pub lower_in : List (ℕ × Char) → Char → Char
lower_in [] c = c
lower_in ((upper, lower) ∷ rest) c = if code c == upper then lower else lower_in rest c

-- `s.lower()`
unfoldable pub lower : String → String
lower String.[] = ""
lower (String.◌∷◌ c s) = String.◌∷◌ (lower_in lower_table c) (lower s)

-- `p in s`
unfoldable pub contains : String → String → Bool
contains p String.[] = str_eq p ""
contains p (String.◌∷◌ c s) =
    (elim (after_prefix p (String.◌∷◌ c s)) [ none ↦ false | some _ ↦ true ]) || contains p s

-- `s.replace("Z", t)`
unfoldable pub replace_char : ℕ → String → String → String
replace_char p t String.[] = ""
replace_char p t (String.◌∷◌ c s) =
    (if code c == p then t else String.◌∷◌ c "") <> replace_char p t s
