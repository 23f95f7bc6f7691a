-- ===== src/Authorization/Targets.antt =====
-- authorization/service.py: `_normalize_target` and `target_matches`. `urllib.parse`, `ipaddress`
-- and `datetime` are the record `Library`.
use ksec.Prelude.{
  ℕ, String, Bool, true, false, not, ◌&&◌, ◌||◌, Option, none, some, ◌==◌, str_eq, if◌then◌else◌,
}
use ksec.Prelude.Strings.{
  strip, lower, count_char, before_char, after_char, after_prefix, ends_with, isdigit, ◌<>◌,
}

pub record Url : Type 0 where
  pub scheme : String
  pub netloc : String
  pub hostname : Option String

-- What the code takes from Python's library; `none` stands for a ValueError. `in_network` tells
-- whether the address is one of the network's, where both texts parse.
pub record Library : Type 0 where
  pub split_url : String → Option Url
  pub is_address : String → Bool
  pub in_network : String → String → Option Bool
  pub from_iso : String → Option ℕ

abbrev pub nonempty : String → Bool
nonempty s = not (str_eq s "")

-- `t.count(":") == 1` and what follows in `_normalize_target`.
unfoldable pub strip_port : String → String
strip_port t =
    if count_char b':' t == 1 && nonempty (before_char b':' t) && isdigit (after_char b':' t)
    then before_char b':' t
    else t

unfoldable pub normalize_target : Library → String → String
normalize_target lib target =
    let t = lower (strip target) in
    elim (lib.split_url t) [
      | none ↦ strip_port t
      | some url ↦ elim url.hostname [
        | none ↦ strip_port t
        | some hostname ↦
            if nonempty url.scheme && nonempty url.netloc && nonempty hostname
            then hostname
            else strip_port t
      ]
    ]

-- The last tests of `target_matches`, for a pattern that is no network of the target's kind.
unfoldable pub suffix_matches : String → String → Bool
suffix_matches target pattern = elim (after_prefix "." pattern) [
  | some rest ↦ ends_with pattern target && not (str_eq target rest)
  | none ↦ ends_with ("." <> pattern) target
]

-- `if pattern.startswith("*."): pattern = pattern[1:]`
abbrev pub unstar : String → String
unstar pattern = elim (after_prefix "*" pattern) [
  | none ↦ pattern
  | some rest ↦ elim (after_prefix "." rest) [ none ↦ pattern | some _ ↦ rest ]
]

-- `target_matches` for a target that is normalised and a pattern in lower case.
unfoldable pub host_matches : Library → String → String → Bool
host_matches lib target pattern =
    if str_eq target "" || str_eq pattern ""
    then false
    else if str_eq pattern "*"
    then true
    else if str_eq target pattern
    then true
    else elim (lib.in_network target (unstar pattern)) [
      | some inside ↦ inside
      | none ↦ suffix_matches target (unstar pattern)
    ]

unfoldable pub target_matches : Library → String → String → Bool
target_matches lib target pattern =
    host_matches lib (normalize_target lib target) (lower (strip pattern))
