-- ===== src/Scheduler/Submit.antt =====
-- scheduler/service.py: `_rate_allowed`, `submit` and `retry`.
pub mod Limits
pub mod Retry
pub mod Effect
use ksec.Prelude.{
  ℕ, ◌+◌, ◌*◌, String, Bool, true, false, not, ◌&&◌, Option, none, some, List, [], ◌∷◌, ◌++◌,
  length, ltb, leb, ◌==◌, str_eq, if◌then◌else◌, select,
}
use ksec.Prelude.Int.{pos}
use ksec.Prelude.Dict.{get?, put, option_eq}
use ksec.Prelude.Exec.{
  Exec, Message, pure, raise, raise_if, modify, gets, or_raise, ksec_error, ◌>>=◌, ◌>>◌,
}
use ksec.Prelude.Json.{Json, Fields, field, end}
use ksec.Prelude.Strings.{◌<>◌}
use ksec.Prelude.Strings.Decimal.{show}
use ksec.Jobs.{Job, Spec, terminal, state_text}
use ksec.Jobs
use ksec.Audit.{AuditEvent, event}
use ksec.Scheduler.{Env, Scheduler, on_jobs, with_lock, audit, text}

-- `_RATE_WINDOW_SECONDS`, in milliseconds.
abbrev pub window : ℕ
window = 60000

-- The submissions of the window that ends now: `t > now - window`.
abbrev pub recent : ℕ → List ℕ → List ℕ
recent now times = select (λ t. ltb now (t + window)) times

abbrev pub times_of : Option ℕ → Scheduler → List ℕ
times_of user_id s = elim (get? user_id s.user_submit_times) [ none ↦ [] | some times ↦ times ]

abbrev pub blocked_until : Option ℕ → Scheduler → ℕ
blocked_until user_id s = elim (get? user_id s.rate_blocked) [ none ↦ 0 | some t ↦ t ]

-- Forgets the submissions that left the window.
unfoldable pub prune : ℕ → Option ℕ → Scheduler → Scheduler
unfolding get? put select
prune now user_id s = record s {
  submit_times = recent now s.submit_times;
  user_submit_times = put user_id (recent now (times_of user_id s)) s.user_submit_times;
}

-- `limit and n >= limit`
abbrev pub reached : ℕ → List ℕ → Bool
reached limit times = not (limit == 0) && leb limit (length times)

abbrev pub block_user : ℕ → Option ℕ → Scheduler → Scheduler
block_user now user_id s = record s { rate_blocked = put user_id (now + window) s.rate_blocked }

-- The tests of `_rate_allowed` after the lists are pruned. `none` is "allowed"; else the reason.
unfoldable pub rate_verdict : Env → ℕ → Option ℕ → Exec Scheduler (Option Message)
unfolding get? put
rate_verdict env now user_id s =
    if ltb now (blocked_until user_id s)
    then pure (some ("rate limited (per-user)" ∷ [])) s
    else if reached env.config.rate_limit_per_minute s.submit_times
    then (pure
        (some
          ("global rate limit reached (" ∷ show env.config.rate_limit_per_minute ∷ "/min)" ∷ []))
        (block_user now user_id s))
    else if reached env.config.rate_limit_per_user (times_of user_id s)
    then (pure
        (some
          ("per-user rate limit reached (" ∷ show env.config.rate_limit_per_user ∷ "/min)" ∷ []))
        (block_user now user_id s))
    else pure none s

unfoldable pub rate_allowed : Env → ℕ → Option ℕ → Exec Scheduler (Option Message)
unfolding with_lock prune rate_verdict
rate_allowed env now user_id =
    with_lock (do modify (prune now user_id); rate_verdict env now user_id)

-- What a submission reads from outside: the monotonic clock, three times, the new job's id and the
-- time of its row.
pub record Readings : Type 0 where
  pub checked : ℕ
  pub appended : ℕ
  pub user_appended : ℕ
  pub job_id : String
  pub created : ℕ

unfoldable pub note_times : Readings → Option ℕ → Exec Scheduler (Unit {0})
unfolding with_lock get? put
note_times r user_id = with_lock (
    modify (λ s. record s {
      submit_times = s.submit_times ++ r.appended ∷ [];
      user_submit_times =
          put user_id (times_of user_id s ++ r.user_appended ∷ []) s.user_submit_times;
    }))

abbrev pub emergency_message : Message
emergency_message =
    "Emergency stop is active — no new jobs may be submitted (use `ksec stop --reset` after resolving the situation)"
    ∷ []

-- `value or None`
abbrev pub or_none : String → Option String
or_none value = if str_eq value "" then none else some value

abbrev pub json_user : Option ℕ → Json
json_user none = Json.null
json_user (some n) = Json.int (pos n)

abbrev pub actor_of : Env → Option ℕ → Option String
actor_of env none = none
actor_of env (some user_id) = env.username user_id

-- Whether the table `users` has a row of the id.
abbrev pub user_exists : Env → ℕ → Bool
user_exists env user_id = elim (env.username user_id) [ none ↦ false | some name ↦ true ]

abbrev pub limited_event : Spec → Message → AuditEvent
limited_event spec reason = record (event "policy.rate_limited") {
  action = some ("job.submit:" <> spec.capability);
  target = or_none spec.target;
  outcome = "denied";
  payload = field "reason" (Json.str (text reason)) (field "user_id" (json_user spec.user_id) end);
}

abbrev pub json_text : Option String → Json
json_text none = Json.null
json_text (some t) = Json.str t

abbrev pub submit_event : Env → Spec → Job → AuditEvent
submit_event env spec job = record (event "job.submit") {
  actor = actor_of env spec.user_id;
  session_id = spec.session_id;
  workspace = or_none spec.workspace;
  action = some ("job.submit:" <> spec.capability);
  target = or_none spec.target;
  payload =
      field "job_id" (Json.str job.id) (field "workflow" (json_text (or_none spec.workflow)) end);
}

-- The rest of `submit` once the rate limits have answered.
unfoldable pub admit : Env → Readings → Spec → Option Message → Exec Scheduler Job
unfolding audit note_times on_jobs
admit env r spec (some reason) = do
  audit env (limited_event spec reason)
  raise (ksec_error ("Submission denied: " ∷ reason))
admit env r spec none = do
  note_times r spec.user_id
  job ← on_jobs (Jobs.create (user_exists env) r.job_id r.created spec)
  audit env (submit_event env spec job)
  modify (λ s. record s { worker_alive = true })
  modify (λ s. record s { wake = true })
  pure job

unfoldable pub submit : Env → Readings → Spec → Exec Scheduler Job
submit env r spec = do
  stopped ← gets (λ s. s.emergency)
  raise_if stopped (ksec_error emergency_message)
  reason ← rate_allowed env r.checked spec.user_id
  admit env r spec reason

abbrev pub retry_spec : String → Job → Spec
retry_spec job_id job = record {
  capability = job.capability;
  target = job.target;
  options = job.options;
  session_id = job.session_id;
  user_id = job.user_id;
  workspace = job.workspace;
  workflow = "retry:" <> job_id;
  priority = job.priority;
}

abbrev pub retry_event : String → Job → Job → AuditEvent
retry_event job_id job new_job = record (event "job.retry") {
  session_id = job.session_id;
  action = some ("job.retry:" <> job.capability);
  target = or_none job.target;
  payload = field "original_job" (Json.str job_id) (field "new_job" (Json.str new_job.id) end);
}

unfoldable pub retry : Env → Readings → String → Exec Scheduler Job
retry env r job_id = do
  entry ← gets (λ s. Jobs.get job_id s.jobs)
  job ← or_raise entry (ksec_error ("Unknown job: " ∷ job_id ∷ []))
  raise_if (not (terminal job.state))
      (ksec_error ("Cannot retry job in state " ∷ state_text job.state ∷ []))
  new_job ← submit env r (retry_spec job_id job)
  audit env (retry_event job_id job new_job)
  pure new_job
