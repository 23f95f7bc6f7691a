-- ===== src/Schedules/Cron/Meaning.antt =====
-- What cron fields mean, and the expression of the current minute.
use ksec.Prelude.{
  ℕ, String, ◌≡◌, ◌↔◌, refl, true, false, ◌&&◌, ◌||◌, none, [], ◌∷◌, arith, str_eq, ◌==◌, ap,
  Bool-cases, inl, inr, str_eq→eq,
}
use ksec.Prelude.Strings.{◌<>◌, isdigit, to_number, words, strip, after_prefix}
use ksec.Prelude.Strings.Decimal.{show, to_number-show, isdigit-show}
use ksec.Prelude.Strings.Words.{
  strip-solid, isdigit-solid, isdigit-no_char, split_on-absent, words-strip, words-isdigit,
}
use ksec.Schedules.Cron.{
  When, plain_matches, part_matches, any_part, field_matches, cron_matches, cron_program,
}

-- `current_cron_minute` at a time.
unfoldable pub current_cron_minute : When → String
current_cron_minute now =
    show now.minute <> " " <> show now.hour <> " " <> show now.day <> " " <> show now.month <> " *"

isdigit_ne : (w t : String) → isdigit w ≡ true → isdigit t ≡ false → str_eq w t ≡ false
isdigit_ne w t h k = elim (Bool-cases (str_eq w t)) [
  | inl same ↦ cc (ap isdigit (str_eq→eq w t same))
  | inr other ↦ other
]

not_star : (w : String) → isdigit w ≡ true → (str_eq w "*" || str_eq w "?") ≡ false
unfolding isdigit
not_star w h = rw (isdigit_ne w "*" h refl, isdigit_ne w "?" h refl)

no_step : (w : String) → isdigit w ≡ true → after_prefix "*/" w ≡ none
unfolding isdigit after_prefix
no_step String.[] h = refl
no_step (String.◌∷◌ c s) h = ground arith

plain_matches-isdigit :
    (w : String) (v : ℕ) → isdigit w ≡ true → plain_matches w v ≡ (to_number w == v)
plain_matches-isdigit w v h = unfold plain_matches in rw (isdigit-no_char b'-' w refl h, h)

-- A field that is a number holds at exactly that value.
field_matches-isdigit :
    (w : String) (v : ℕ) → isdigit w ≡ true → field_matches w v ≡ (to_number w == v)
field_matches-isdigit w v h =
    unfold field_matches any_part part_matches in
    rw
      (
        split_on-absent b',' w (isdigit-no_char b',' w refl h),
        strip-solid w (isdigit-solid w h),
        not_star w h,
        no_step w h,
      )
      (ground (arith, strip-solid w (isdigit-solid w h), plain_matches-isdigit w v h))

cron_matches_five :
    (a b c d e cron : String) (when : When)
    → words (strip cron) ≡ a ∷ b ∷ c ∷ d ∷ e ∷ []
    → cron_matches cron when ≡ (
        field_matches a when.minute
        && field_matches b when.hour
        && field_matches c when.day
        && field_matches d when.month
        && field_matches e when.weekday)
unfolding cron_matches
cron_matches_five a b c d e cron when h = rw (h, cron_matches)

star_matches : (v : ℕ) → field_matches "*" v ≡ true
unfolding cron_program
star_matches v = refl

blank_star :
    (w : String) → words (w <> " " <> "*") ≡ w ∷ words "*" → words (w <> " *") ≡ w ∷ "*" ∷ []
unfolding cron_program ◌<>◌
blank_star w h = h

words-last : (w : String) → isdigit w ≡ true → words (w <> " *") ≡ w ∷ "*" ∷ []
words-last w h = blank_star w (words-isdigit w "*" h)

words-current :
    (now : When)
    → words (strip (current_cron_minute now))
      ≡ show now.minute ∷ show now.hour ∷ show now.day ∷ show now.month ∷ "*" ∷ []
words-current now =
    unfold current_cron_minute in
    rw (
      words-strip,
      words-isdigit (show now.minute) _ (isdigit-show now.minute),
      words-isdigit (show now.hour) _ (isdigit-show now.hour),
      words-isdigit (show now.day) _ (isdigit-show now.day),
      words-last (show now.month) (isdigit-show now.month),
    )

-- The expression of the current minute holds at exactly the times with this minute, hour, day and
-- month, on whatever weekday.
pub current_cron_minute_iff :
    (now when : When)
    → (cron_matches (current_cron_minute now) when ≡ true) ↔ (
        (now.minute ≡ when.minute)
        × (now.hour ≡ when.hour)
        × (now.day ≡ when.day)
        × (now.month ≡ when.month))
current_cron_minute_iff now when =
    rw
      (
        cron_matches_five _ _ _ _ _ _ when (words-current now),
        star_matches,
        field_matches-isdigit (show now.minute) when.minute (isdigit-show now.minute),
        field_matches-isdigit (show now.hour) when.hour (isdigit-show now.hour),
        field_matches-isdigit (show now.day) when.day (isdigit-show now.day),
        field_matches-isdigit (show now.month) when.month (isdigit-show now.month),
        to_number-show now.minute,
        to_number-show now.hour,
        to_number-show now.day,
        to_number-show now.month,
      )
      (ground arith)
