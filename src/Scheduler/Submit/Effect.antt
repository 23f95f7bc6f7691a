-- ===== src/Scheduler/Submit/Effect.antt =====
-- What a submission does to the table of jobs.
use ksec.Prelude.{
  is_missing, ℕ, ◌≡◌, refl, true, false, Option, none, some, [], ◌∷◌, ◌++◌, arith, length, ◌<◌,
  ◌||◌, ◌≢◌, Bool-cases, inl, inr, any, if◌then◌else◌,
}
use ksec.Prelude.Exec.{
  continue, Outcome, Error, returned, raised, blocked, ksec_error, database_error, Message,
}
use ksec.Jobs.{Job, Spec, new_job, has_id, JobState}
use ksec.Jobs.Laws.{create_lem}
use ksec.Prelude.Json.{end}
use ksec.Scheduler.{Env, Scheduler, with_lock}
use ksec.Scheduler.Submit.{
  recent, Readings, rate_allowed, rate_verdict, prune, admit, submit, emergency_message,
  user_exists,
}

-- A scheduler whose lock nobody holds.
abbrev pub IsFree : Scheduler → Type 0
IsFree s = s.lock_held ≡ false

rate_allowed_lem :
    (env : Env) (now : ℕ) (user_id : Option ℕ) (s : Scheduler)
    → IsFree s
    → ((rate_allowed env now user_id s).1.jobs ≡ s.jobs)
      × ((rate_allowed env now user_id s).1.lock_held ≡ false)
      × ((rate_allowed env now user_id s).1.submit_times ≡ recent now s.submit_times)
unfolding rate_allowed prune rate_verdict with_lock
rate_allowed_lem env now user_id s free = ground arith

rate_allowed-ne-raised :
    (env : Env) (now : ℕ) (user_id : Option ℕ) (s : Scheduler) (e : Error)
    → IsFree s
    → (rate_allowed env now user_id s).0 ≢ raised e
unfolding rate_allowed prune rate_verdict with_lock
rate_allowed-ne-raised env now user_id s e free h = ground arith

rate_allowed-ne-blocked :
    (env : Env) (now : ℕ) (user_id : Option ℕ) (s : Scheduler)
    → IsFree s
    → (rate_allowed env now user_id s).0 ≢ blocked
unfolding rate_allowed prune rate_verdict with_lock
rate_allowed-ne-blocked env now user_id s free h = ground arith

-- A submission that passes has fewer submissions in its window than the limit.
rate_allowed-none :
    (env : Env) (now : ℕ) (user_id : Option ℕ) (s : Scheduler)
    → IsFree s
    → (rate_allowed env now user_id s).0 ≡ returned none
    → env.config.rate_limit_per_minute ≢ 0
    → length (recent now s.submit_times) < env.config.rate_limit_per_minute
unfolding rate_allowed prune rate_verdict with_lock
rate_allowed-none env now user_id s free h nonzero = ground arith

-- `admit` of an allowed submission, in terms of the repository's answer.
admit-none :
    (env : Env) (r : Readings) (spec : Spec) (s : Scheduler)
    → IsFree s
    → ((admit env r spec none s).0 ≡ (
        if any (has_id r.job_id) s.jobs || is_missing (user_exists env) spec.user_id
        then raised database_error
        else returned (new_job r.job_id r.created spec)))
      × ((admit env r spec none s).1.jobs ≡ (
          if any (has_id r.job_id) s.jobs || is_missing (user_exists env) spec.user_id
          then s.jobs
          else s.jobs ++ new_job r.job_id r.created spec ∷ []))
      × ((admit env r spec none s).1.submit_times ≡ s.submit_times ++ r.appended ∷ [])
      × ((admit env r spec none s).1.lock_held ≡ false)
unfolding admit
admit-none env r spec s free =
    ground (arith, create_lem (user_exists env) r.job_id r.created spec s.jobs)

admit-some :
    (env : Env) (r : Readings) (spec : Spec) (reason : Message) (s : Scheduler)
    → ((admit env r spec (some reason) s).0 ≡ raised (ksec_error ("Submission denied: " ∷ reason)))
      × ((admit env r spec (some reason) s).1.jobs ≡ s.jobs)
      × ((admit env r spec (some reason) s).1.submit_times ≡ s.submit_times)
      × ((admit env r spec (some reason) s).1.lock_held ≡ s.lock_held)
unfolding admit
admit-some env r spec reason s = (refl, refl, refl, refl)

pub submit_stopped :
    (env : Env) (r : Readings) (spec : Spec) (s : Scheduler)
    → s.emergency ≡ true
    → submit env r spec s ≡ (raised (ksec_error emergency_message), s)
unfolding submit
submit_stopped env r spec s h = rw h

pub submit_open :
    (env : Env) (r : Readings) (spec : Spec) (s : Scheduler)
    → s.emergency ≡ false
    → submit env r spec s
      ≡ continue
          (rate_allowed env r.checked spec.user_id s).0
          (admit env r spec)
          (rate_allowed env r.checked spec.user_id s).1
unfolding submit
submit_open env r spec s h = rw h

pub raised-ne-returned {ℓ} : {A : Type ℓ} {e : Error} {a : A} → raised e ≡ returned a → ⊥
raised-ne-returned h = cc

-- What holds once the limits have answered with a job.
abbrev Admitted : Env → Readings → Spec → Scheduler → Job → Scheduler → Type 0
Admitted env r spec s1 job s' =
    (job ≡ new_job r.job_id r.created spec)
    × (any (has_id r.job_id) s1.jobs ≡ false)
    × (is_missing (user_exists env) spec.user_id ≡ false)
    × (s'.jobs ≡ s1.jobs ++ job ∷ [])
    × (s'.submit_times ≡ s1.submit_times ++ r.appended ∷ [])
    × (s'.lock_held ≡ false)

continue-admit :
    (env : Env) (r : Readings) (spec : Spec) (o : Outcome (Option Message)) (s1 : Scheduler)
    (job : Job)
    → IsFree s1
    → (continue o (admit env r spec) s1).0 ≡ returned job
    → (o ≡ returned none) × (Admitted env r spec s1 job (continue o (admit env r spec) s1).1)
continue-admit env r spec (returned none) s1 job free h =
    ground (arith, admit-none env r spec s1 free)
continue-admit env r spec (returned (some reason)) s1 job free h =
    ground (arith, admit-some env r spec reason s1)
continue-admit env r spec (raised e) s1 job free h = cc
continue-admit env r spec blocked s1 job free h = cc

pub submit_facts :
    (env : Env) (r : Readings) (spec : Spec) (s : Scheduler) (job : Job)
    → IsFree s
    → (submit env r spec s).0 ≡ returned job
    → (s.emergency ≡ false)
      × (job ≡ new_job r.job_id r.created spec)
      × (any (has_id r.job_id) s.jobs ≡ false)
      × (is_missing (user_exists env) spec.user_id ≡ false)
      × ((submit env r spec s).1.jobs ≡ s.jobs ++ job ∷ [])
      × ((submit env r spec s).1.submit_times ≡ recent r.checked s.submit_times ++ r.appended ∷ [])
      × ((submit env r spec s).1.lock_held ≡ false)
      × (env.config.rate_limit_per_minute ≢ 0
          → length (recent r.checked s.submit_times) < env.config.rate_limit_per_minute)
submit_facts env r spec s job free done = elim (Bool-cases s.emergency) [
  | inl stopped ↦ absurd (raised-ne-returned (rw (submit_stopped env r spec s stopped) at done))
  | inr open_now ↦
      let kept = rate_allowed_lem env r.checked spec.user_id s free in
      let passed =
        continue-admit env r spec (rate_allowed env r.checked spec.user_id s).0
          (rate_allowed env r.checked spec.user_id s).1 job kept.1
          (rw (submit_open env r spec s open_now) at done) in
      rw (submit_open env r spec s open_now) (
        ground (
          arith,
          kept,
          passed,
          open_now,
          rate_allowed-none env r.checked spec.user_id s free passed.0,
        ))
]

-- The job that a submission puts in the queue: what the caller gave, under the id and the time
-- that were read, queued, and with nothing of a run.
pub record IsNewJob (r : Readings) (spec : Spec) (job : Job) : Type 0 where
  pub id : job.id ≡ r.job_id
  pub created_at : job.created_at ≡ r.created
  pub state : job.state ≡ JobState.queued
  pub capability : job.capability ≡ spec.capability
  pub target : job.target ≡ spec.target
  pub options : job.options ≡ spec.options
  pub session_id : job.session_id ≡ spec.session_id
  pub user_id : job.user_id ≡ spec.user_id
  pub workspace : job.workspace ≡ spec.workspace
  pub workflow : job.workflow ≡ spec.workflow
  pub priority : job.priority ≡ spec.priority
  pub started_at : job.started_at ≡ none
  pub completed_at : job.completed_at ≡ none
  pub exit_code : job.exit_code ≡ none
  pub error : job.error ≡ ""
  pub result : job.result ≡ end

new_job-IsNewJob : (r : Readings) (spec : Spec) → IsNewJob r spec (new_job r.job_id r.created spec)
new_job-IsNewJob r spec = record {
  id = refl;
  created_at = refl;
  state = refl;
  capability = refl;
  target = refl;
  options = refl;
  session_id = refl;
  user_id = refl;
  workspace = refl;
  workflow = refl;
  priority = refl;
  started_at = refl;
  completed_at = refl;
  exit_code = refl;
  error = refl;
  result = refl;
}

-- A submission answers with a job, the lock being free, only if the emergency stop is off, the id is
-- new and the user, where one is given, exists. The job is queued, with every field the one that was
-- asked for and nothing of a run; the table gets it behind its other rows, and the window gets the
-- instant of the submission.
pub submit_returned :
    (env : Env) (r : Readings) (spec : Spec) (s : Scheduler) (job : Job)
    → IsFree s
    → (submit env r spec s).0 ≡ returned job
    → (s.emergency ≡ false)
      × IsNewJob r spec job
      × (any (has_id r.job_id) s.jobs ≡ false)
      × (is_missing (user_exists env) spec.user_id ≡ false)
      × ((submit env r spec s).1.jobs ≡ s.jobs ++ job ∷ [])
      × ((submit env r spec s).1.submit_times ≡ recent r.checked s.submit_times ++ r.appended ∷ [])
      × ((submit env r spec s).1.lock_held ≡ false)
submit_returned env r spec s job free done =
    let facts = submit_facts env r spec s job free done in
    (facts.0, rw facts.1 (new_job-IsNewJob r spec), facts.2, facts.3, facts.4, facts.5, facts.6)
