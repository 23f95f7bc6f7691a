-- ===== src/Schedules/Cron.antt =====
-- scheduler/schedules.py: `cron_matches` and its helpers.
pub mod Meaning
use ksec.Prelude.{
  ℕ, zero, suc, ◌%◌, String, Bool, true, false, not, ◌&&◌, ◌||◌, Option, none, some, List, [], ◌∷◌,
  leb, ◌==◌, str_eq, if◌then◌else◌, all,
}
use ksec.Prelude.Int.{ℤ, pos_part, neg_part}
use ksec.Prelude.Strings.{
  strip, split_on, words, isdigit, to_number, int_of, has_char, before_char, after_char,
  after_prefix, is_space, lstrip, rstrip, number_from, digits_from, signed, all_digits,
}
use Prim.Native.Nat.{◌+◌}

-- The parts of a datetime that a cron expression reads; `weekday` is `isoweekday()`, 1 to 7.
pub record When : Type 0 where
  pub minute : ℕ
  pub hour : ℕ
  pub day : ℕ
  pub month : ℕ
  pub weekday : ℕ

-- `step and value % step == 0`; the remainder is zero for a step and its negation alike.
abbrev pub divides : Option ℤ → ℕ → Bool
divides none value = false
divides (some step) value =
    let size = pos_part step + neg_part step in not (size == 0) && value % size == 0

-- The test of one part of a field that has no `*/`.
unfoldable pub plain_matches : String → ℕ → Bool
plain_matches part value =
    if has_char b'-' part
    then (let lo = before_char b'-' part in
        let hi = after_char b'-' part in
        isdigit lo && isdigit hi && leb (to_number lo) value && leb value (to_number hi))
    else isdigit part && to_number part == value

unfoldable pub part_matches : String → ℕ → Bool
part_matches part value =
    if str_eq part "*" || str_eq part "?" then true else elim (after_prefix "*/" part) [
      | some step ↦ divides (int_of step) value
      | none ↦ plain_matches part value
    ]

-- The loop over the parts of a field.
unfoldable pub any_part : List String → ℕ → Bool
any_part [] value = false
any_part (part ∷ parts) value = part_matches (strip part) value || any_part parts value

unfoldable pub field_matches : String → ℕ → Bool
field_matches field value = any_part (split_on b',' field) value

unfoldable pub cron_matches : String → When → Bool
cron_matches cron when = elim (words (strip cron)) [
  | minute ∷ hour ∷ day ∷ month ∷ weekday ∷ [] ↦
      field_matches minute when.minute
      && field_matches hour when.hour
      && field_matches day when.day
      && field_matches month when.month
      && field_matches weekday when.weekday
  | _ ↦ false
]

-- Unfolding this runs the tests of the module.
unfoldable pub cron_program : Unit {0}
unfolding cron_matches field_matches any_part part_matches plain_matches strip split_on words
    isdigit to_number int_of has_char before_char after_char after_prefix is_space lstrip rstrip
    number_from digits_from signed all_digits
cron_program = tt
