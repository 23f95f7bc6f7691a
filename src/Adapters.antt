-- ===== src/Adapters.antt =====
-- adapters/base.py and execution/command_builder.py: what the adapters share. An adapter builds the
-- command of a job from its target and its options, as a list of arguments.
pub mod Network
pub mod Web
pub mod Hosts
pub mod Builtin
pub mod Registry
pub mod Targets
use Prim.Native.Char.{code}
use ksec.Prelude.{
  ℕ, String, Bool, true, false, not, ◌&&◌, ◌||◌, Option, none, some, List, [], ◌∷◌, ◌++◌, ltb, ◌==◌,
  str_eq, any, chars, if◌then◌else◌,
}
use ksec.Prelude.Int.{ℤ, pos, negsuc}
use ksec.Prelude.Json.{Json, Fields, Items, end, field}
use ksec.Prelude.Exec.{
  Exec, Outcome, returned, raised, pure, raise, raise_if, ksec_error, value_error, ◌>>=◌, ◌>>◌,
}
use ksec.Prelude.Strings.{strip, int_of, after_prefix, ◌<>◌}
use ksec.Prelude.Strings.Decimal.{show_ℤ}

pub record CommandRequest : Type 0 where
  pub capability : String
  pub target : String
  pub options : Fields
  pub timeout : ℕ

-- What Python's own conversions do with floats, lists and dictionaries: `str`, `int` with its
-- exceptions, and whether a float is zero; and `urlparse(text).netloc`, `none` for a ValueError.
pub record Python : Type 0 where
  pub repr : Json → String
  pub to_int : Json → Outcome ℤ
  pub is_zero : String → Bool
  pub netloc : String → Option String

-- The methods of an adapter change nothing; they return or raise.
abbrev pub Build : Type 0 → Type 0
Build A = Exec (Unit {0}) A

-- The characters of `_FORBIDDEN`.
abbrev pub forbidden : List ℕ
forbidden =
    0x00 ∷ b';' ∷ b'|' ∷ b'&' ∷ b'$' ∷ 0x60 ∷ b'<' ∷ b'>' ∷ b'(' ∷ b')' ∷ b'{' ∷ b'}' ∷ b'[' ∷ b']'
    ∷ b'!' ∷ 0x5c ∷ []

-- `_FORBIDDEN.search(text)`
unfoldable pub has_forbidden : String → Bool
has_forbidden String.[] = false
has_forbidden (String.◌∷◌ c s) = any (λ f. f == code c) forbidden || has_forbidden s

unfoldable pub validate_target : String → Build String
validate_target target = do
  raise_if (str_eq (strip target) "") (ksec_error ("Empty target" ∷ []))
  raise_if (ltb 1024 (chars (strip target))) (ksec_error ("Target too long" ∷ []))
  raise_if (has_forbidden (strip target))
      (ksec_error ("Target contains forbidden characters: " ∷ strip target ∷ []))
  pure (strip target)

-- `str(value)`
unfoldable pub str_of : Python → Json → String
str_of py Json.null = "None"
str_of py (Json.bool true) = "True"
str_of py (Json.bool false) = "False"
str_of py (Json.int n) = show_ℤ n
str_of py (Json.str text) = text
str_of py value = py.repr value

unfoldable pub validate_arg : Python → Json → String → Build String
validate_arg py value label = do
  raise_if (ltb 4096 (chars (str_of py value))) (ksec_error (label ∷ " too long" ∷ []))
  raise_if (has_forbidden (str_of py value))
      (ksec_error (label ∷ " contains forbidden characters: " ∷ str_of py value ∷ []))
  pure (str_of py value)

-- `SafeCommand`
pub record SafeCommand : Type 0 where
  pub executable : String
  pub args : List String

unfoldable pub validate_args : Python → List Json → Build (List String)
validate_args py [] = pure []
validate_args py (value ∷ values) = do
  text ← validate_arg py value "argument"
  texts ← validate_args py values
  pure (text ∷ texts)

unfoldable pub build_safe_command : Python → String → List Json → Build SafeCommand
build_safe_command py executable args = do
  texts ← validate_args py args
  pure (record { executable = executable; args = texts })

unfoldable pub as_list : SafeCommand → List String
as_list c = c.executable ∷ c.args

-- `int(value)`
unfoldable pub int_value : Python → Json → Build ℤ
int_value py (Json.int n) = pure n
int_value py (Json.bool true) = pure (pos 1)
int_value py (Json.bool false) = pure (pos 0)
int_value py (Json.str text) = elim (int_of text) [
  | none ↦ raise (value_error ("invalid literal for int() with base 10: " ∷ text ∷ []))
  | some n ↦ pure n
]
int_value py value = λ s. (py.to_int value, s)

-- `bool(value)`
unfoldable pub truthy : Python → Json → Bool
truthy py Json.null = false
truthy py (Json.bool b) = b
truthy py (Json.int (pos n)) = not (n == 0)
truthy py (Json.int (negsuc n)) = true
truthy py (Json.real text) = not (py.is_zero text)
truthy py (Json.str text) = not (str_eq text "")
truthy py (Json.arr Items.nil) = false
truthy py (Json.arr (Items.cons x xs)) = true
truthy py (Json.obj end) = false
truthy py (Json.obj (field k v rest)) = true

-- `opts.get(key)` where it is true.
unfoldable pub given : Python → String → Fields → Option Json
given py key end = none
given py key (field k value rest) =
    if str_eq k key then (if truthy py value then some value else none) else given py key rest

abbrev pub is_given : Python → String → Fields → Bool
is_given py key opts = elim (given py key opts) [ none ↦ false | some _ ↦ true ]

-- `if opts.get(key): cmd += args`
abbrev pub switch : Python → String → List String → Fields → List String
switch py key args opts = if is_given py key opts then args else []

-- `if opts.get(key): cmd += [flag, str(opts[key])]`
unfoldable pub text_option : Python → String → String → Fields → List String
text_option py key flag opts = elim (given py key opts) [
  | none ↦ []
  | some value ↦ flag ∷ str_of py value ∷ []
]

-- `if opts.get(key): cmd += [flag, str(int(opts[key]))]`
unfoldable pub int_option : Python → String → String → Fields → Build (List String)
int_option py key flag opts = elim (given py key opts) [
  | none ↦ pure []
  | some value ↦ do n ← int_value py value; pure (flag ∷ show_ℤ n ∷ [])
]

-- `str(opts.get(key) or default)`
unfoldable pub text_or : Python → String → String → Fields → String
text_or py key default opts = elim (given py key opts) [
  | none ↦ default
  | some value ↦ str_of py value
]

-- `int(opts.get(key) or default)`
unfoldable pub int_or : Python → String → ℕ → Fields → Build ℤ
int_or py key default opts = elim (given py key opts) [
  | none ↦ pure (pos default)
  | some value ↦ int_value py value
]

abbrev pub has_scheme : String → Bool
has_scheme url =
    (elim (after_prefix "http://" url) [ none ↦ false | some _ ↦ true ])
    || (elim (after_prefix "https://" url) [ none ↦ false | some _ ↦ true ])

-- `if not url.startswith(("http://", "https://")): url = f"http://{url}"`
unfoldable pub with_scheme : String → String
with_scheme url = if has_scheme url then url else "http://" <> url
