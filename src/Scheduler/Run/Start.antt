-- ===== src/Scheduler/Run/Start.antt =====
-- When a run starts a process.
use ksec.Prelude.{
  ℕ, String, ◌≡◌, ◌≢◌, refl, sym, ◌∙◌, true, false, Option, none, some, List, [], ◌∷◌, arith,
  update_where, Bool-cases, Option-cases, inl, inr,
}
use ksec.Prelude.Exec.{Outcome, returned, raised, blocked}
use ksec.Jobs.{Job, Field, running, write, has_id}
use ksec.Scheduler.{Scheduler, Env, Adapter, with_lock}
use ksec.Scheduler.Submit.Effect.{IsFree}
use ksec.Scheduler.Control.Moves.{job_at, set_job_state_lem}
use ksec.Scheduler.Run.{
  Launch, is_cancelled, fail_job, launch, built, prepare, begin_run, option_of, spawn,
}
use ksec.Scheduler.Run.Close.{flagged}

-- The command that the job's adapter builds.
abbrev pub command_of : Adapter → Job → Outcome (List String)
command_of adapter job = (adapter.build_command job.target job.options tt).0

abbrev pub adapter_of : Env → Job → Option Adapter
adapter_of env job = env.adapter job.capability (option_of "tool" job.options)

-- Everything that has to hold for a process to be started for a job.
pub record MayRun (env : Env) (io : Launch) (job : Job) (command : List String) : Type 0 where
  pub adapter : Adapter
  pub provided : adapter_of env job ≡ some adapter
  pub plugin_allows : env.plugin_gate job.capability ≡ none
  pub builds : command_of adapter job ≡ returned command
  pub not_empty : command ≢ []
  pub started : io.os_error ≡ none

launch-some :
    (io : Launch) (i : String) (command : List String) (s : Scheduler) (place : ℕ)
    → (launch io i command s).0 ≡ returned (some place)
    → (command ≢ []) × (io.os_error ≡ none)
unfolding launch fail_job spawn with_lock
launch-some io i [] s place h = ground arith
launch-some io i (executable ∷ args) s place h = ground arith

built-some :
    (io : Launch) (i : String) (o : Outcome (List String)) (s : Scheduler) (place : ℕ)
    → (built io i o s).0 ≡ returned (some place)
    → (command : List String) × (o ≡ returned command) × (command ≢ []) × (io.os_error ≡ none)
unfolding built fail_job
built-some io i (returned command) s place h =
    let parts = launch-some io i command s place h in (command, refl, parts.0, parts.1)
built-some io i (raised e) s place h = absurd (ground arith)
built-some io i blocked s place h = absurd (ground arith)

built_call :
    (env : Env) (io : Launch) (job : Job) (s : Scheduler) (place : ℕ) (adapter : Adapter)
    → adapter_of env job ≡ some adapter
    → env.plugin_gate job.capability ≡ none
    → (prepare env io job s).0 ≡ returned (some place)
    → (built io job.id (command_of adapter job) s).0 ≡ returned (some place)
unfolding prepare
built_call env io job s place adapter provided allowed h = ground arith

none_ne_some :
    (place : ℕ) → ◌≡◌ {A = Outcome (Option ℕ)} (returned none) (returned (some place)) → ⊥
none_ne_some place h = cc

-- The scheduler after the job of an id is marked as running.
abbrev running_state : Launch → String → Scheduler → Scheduler
running_state io i s = record s {
  jobs = update_where (has_id i) (write running (Field.started_at io.started ∷ [])) s.jobs;
  lock_held = false;
}

is_cancelled_lem :
    (i : String) (s : Scheduler)
    → IsFree s
    → is_cancelled i s ≡ (returned (flagged i s), record s { lock_held = false })
unfolding is_cancelled with_lock
is_cancelled_lem i s free = rw free

cancelled_start :
    (env : Env) (io : Launch) (i : String) (s : Scheduler) (job : Job)
    → IsFree s
    → job_at i s ≡ some job
    → flagged i s ≡ true
    → (begin_run env io i s).0 ≡ returned none
unfolding begin_run
cancelled_start env io i s job free e stop =
    rw (e, is_cancelled_lem i s free, stop, set_job_state_lem, e)

going_start :
    (env : Env) (io : Launch) (i : String) (s : Scheduler) (job : Job)
    → IsFree s
    → job_at i s ≡ some job
    → flagged i s ≡ false
    → (begin_run env io i s).0 ≡ (prepare env io job (running_state io i s)).0
unfolding begin_run
going_start env io i s job free e go = rw (e, is_cancelled_lem i s free, go, set_job_state_lem, e)

prepare-some :
    (env : Env) (io : Launch) (job : Job) (s : Scheduler) (place : ℕ)
    → (prepare env io job s).0 ≡ returned (some place)
    → (command : List String) × MayRun env io job command
unfolding prepare fail_job
prepare-some env io job s place h = elim (Option-cases (adapter_of env job)) [
  | inl absent ↦ absurd (ground arith)
  | inr (adapter, provided) ↦ elim (Option-cases (env.plugin_gate job.capability)) [
    | inr (refusal, refused) ↦ absurd (ground arith)
    | inl allowed ↦
        let (command, builds, not_empty, started) =
          built-some io job.id (command_of adapter job) s place
            (built_call env io job s place adapter provided allowed h) in
        (
          command,
          record {
            adapter = adapter;
            provided = provided;
            plugin_allows = allowed;
            builds = builds;
            not_empty = not_empty;
            started = started;
          },
        )
  ]
]

-- A process is started for a job only if the job is in the table, its cancel flag is not set, an
-- adapter provides its capability, the plugin gate lets it pass and the adapter builds a command
-- that is not empty.
pub begin_run-MayRun :
    (env : Env) (io : Launch) (i : String) (s : Scheduler) (place : ℕ)
    → IsFree s
    → (begin_run env io i s).0 ≡ returned (some place)
    → (job : Job) × (job_at i s ≡ some job)
      × (flagged i s ≡ false)
      × (command : List String) × MayRun env io job command
unfolding begin_run
begin_run-MayRun env io i s place free h = elim (Option-cases (job_at i s)) [
  | inl absent ↦ absurd (ground arith)
  | inr (job, e) ↦ elim (Bool-cases (flagged i s)) [
    | inl stop ↦ absurd (none_ne_some place (sym (cancelled_start env io i s job free e stop) ∙ h))
    | inr go ↦
        let (command, may) =
          prepare-some env io job (running_state io i s) place
            (sym (going_start env io i s job free e go) ∙ h) in
        (job, e, go, command, may)
  ]
]
