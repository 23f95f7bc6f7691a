-- ===== src/Schedules/Store.antt =====
-- scheduler/schedules.py: `Schedule` and `ScheduleStore`, over the table `job_schedules`.
use ksec.Prelude.{
  ℕ, suc, String, Bool, true, false, not, ◌&&◌, ◌||◌, is_missing, Option, none, some, List, [], ◌∷◌,
  ◌++◌, length, ltb, ◌==◌, any, select, find?, update_where,
}
use ksec.Prelude.Json.{Fields}
use ksec.Prelude.Sort.{sort_by}
use ksec.Prelude.Strings.{strip, words}
use ksec.Prelude.Exec.{
  Exec, pure, raise_if, modify, gets, assert_some, value_error, database_error, ◌>>=◌, ◌>>◌,
}
use ksec.Schedules.Cron.{When, cron_matches}

-- Times are in milliseconds.
pub record Schedule : Type 0 where
  pub id : ℕ
  pub capability : String
  pub target : String
  pub options : Fields
  pub cron : String
  pub workspace : String
  pub user_id : Option ℕ
  pub engagement_id : Option ℕ
  pub enabled : Bool
  pub last_run_at : Option ℕ
  pub created_at : ℕ

-- The table, with the next value of its AUTOINCREMENT key.
pub record ScheduleStore : Type 0 where
  pub rows : List Schedule
  pub next_id : ℕ

abbrev pub has_key : ℕ → Schedule → Bool
has_key schedule_id schedule = schedule.id == schedule_id

pub record ScheduleSpec : Type 0 where
  pub capability : String
  pub target : String
  pub cron : String
  pub options : Fields
  pub workspace : String
  pub user_id : Option ℕ
  pub engagement_id : Option ℕ

abbrev pub new_schedule : ℕ → ℕ → ScheduleSpec → Schedule
new_schedule schedule_id now spec = record {
  id = schedule_id;
  capability = strip spec.capability;
  target = strip spec.target;
  options = spec.options;
  cron = strip spec.cron;
  workspace = spec.workspace;
  user_id = spec.user_id;
  engagement_id = spec.engagement_id;
  enabled = true;
  last_run_at = none;
  created_at = now;
}

unfoldable pub get : ℕ → ScheduleStore → Option Schedule
get schedule_id store = find? (has_key schedule_id) store.rows

-- Raised by `create` for an expression that has not five fields.
abbrev pub bad_cron : String → ℕ → Bool
bad_cron cron n = not (length (words (strip cron)) == n)

-- `when` is the clock's minute, and `now` the instant of the row; `users` and `engagements` tell the
-- ids of these tables.
unfoldable pub create :
    (ℕ → Bool) → (ℕ → Bool) → When → ℕ → ScheduleSpec → Exec ScheduleStore Schedule
unfolding get
create users engagements when now spec = do
  raise_if (not (cron_matches spec.cron when) && bad_cron spec.cron 5) (
      value_error (
        "cron must be 5 fields: minute hour day-of-month month day-of-week (e.g. '0 6 * * *' for daily 06:00)"
        ∷ []))
  raise_if (is_missing users spec.user_id || is_missing engagements spec.engagement_id)
      database_error
  schedule_id ← gets (λ s. s.next_id)
  modify (λ s. record s {
    rows = s.rows ++ new_schedule schedule_id now spec ∷ [];
    next_id = suc schedule_id;
  })
  schedule ← gets (get schedule_id)
  assert_some schedule

abbrev by_id : Schedule → Schedule → Bool
by_id a b = ltb a.id b.id

unfoldable pub list : Bool → ScheduleStore → List Schedule
list true store = sort_by by_id (select (λ r. r.enabled) store.rows)
list false store = sort_by by_id store.rows

-- Answers whether a row was deleted.
unfoldable pub remove : ℕ → Exec ScheduleStore Bool
remove schedule_id = do
  hit ← gets (λ s. any (has_key schedule_id) s.rows)
  modify (λ s. record s { rows = select (λ r. not (has_key schedule_id r)) s.rows })
  pure hit

unfoldable pub set_enabled : ℕ → Bool → Exec ScheduleStore (Option Schedule)
unfolding get
set_enabled schedule_id enabled = do
  modify (λ s. record s {
    rows = update_where (has_key schedule_id) (λ r. record r { enabled = enabled }) s.rows;
  })
  gets (get schedule_id)

unfoldable pub mark_run : ℕ → ℕ → Exec ScheduleStore (Unit {0})
mark_run schedule_id now = modify (λ s. record s {
  rows = update_where (has_key schedule_id) (λ r. record r { last_run_at = some now }) s.rows;
})
