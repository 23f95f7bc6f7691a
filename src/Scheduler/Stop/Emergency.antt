-- ===== src/Scheduler/Stop/Emergency.antt =====
-- The emergency stop: what it cancels, where it blocks, and that it outlives the process.
use ksec.Prelude.{
  ℕ, String, ◌≡◌, refl, true, false, Option, none, some, List, [], ◌∷◌, ◌++◌, arith, eq_iff,
  update_where, Bool-cases, Option-cases, inl, inr, ◌⊎◌, if◌then◌else◌,
}
use ksec.Prelude.Exec.{Outcome, returned, raised, blocked, ksec_error}
use ksec.Prelude.Sort.{In}
use ksec.Jobs.{
  Job, JobState, Table, Field, terminal, is_running, cancelling, cancelled, write, has_id,
}
use ksec.Jobs
use ksec.Jobs.Laws.{get-update, id-write}
use ksec.Scheduler.{Scheduler, Env, with_lock}
use ksec.Scheduler.Submit.Effect.{IsFree}
use ksec.Scheduler.Control.{cancel, cancel_from, cancel_running, get_job, flag_cancel}
use ksec.Scheduler.Control.Cancel.{running_not_terminal}
use ksec.Scheduler.Control.Moves.{job_at, set_job_state_lem}
use ksec.Scheduler.Stop.{attempt, cancel_step, cancel_each, emergency_stop}

flag_cancel_held :
    (i : String) (s : Scheduler) → s.lock_held ≡ true → flag_cancel i s ≡ (blocked, s)
unfolding flag_cancel with_lock
flag_cancel_held i s held = rw held

-- Under a lock that is held, cancelling a running job waits for ever.
cancel_blocks :
    (i : String) (now : ℕ) (s : Scheduler) (job : Job)
    → s.lock_held ≡ true
    → job_at i s ≡ some job
    → is_running job.state ≡ true
    → (cancel i now s).0 ≡ blocked
unfolding cancel get_job cancel_from cancel_running
cancel_blocks i now s job held e runs =
    rw (e, running_not_terminal job.state runs, runs, flag_cancel_held i s held)

-- Cancelling any other job needs no lock.
cancel_goes_on :
    (i : String) (now : ℕ) (s : Scheduler) (job : Job)
    → job_at i s ≡ some job
    → is_running job.state ≡ false
    → cancel i now s ≡ (
        if terminal job.state then (returned job, s) else (
          returned (write cancelled (Field.completed_at now ∷ []) job),
          record s {
            jobs = update_where (has_id i) (write cancelled (Field.completed_at now ∷ [])) s.jobs;
          },
        ))
unfolding cancel get_job cancel_from
cancel_goes_on i now s job e idle = elim (Bool-cases (terminal job.state)) [
  | inl ended ↦ rw (e, ended)
  | inr live ↦ rw (e, live, idle, set_job_state_lem i cancelled (Field.completed_at now ∷ []) s, e)
]

cancel_unknown :
    (i : String) (now : ℕ) (s : Scheduler)
    → job_at i s ≡ none
    → cancel i now s ≡ (raised (ksec_error ("Unknown job: " ∷ i ∷ [])), s)
unfolding cancel get_job
cancel_unknown i now s e = rw e

abbrev RunningAt : String → Scheduler → Type 0
RunningAt i s = (job : Job) × (job_at i s ≡ some job) × (is_running job.state ≡ true)

-- A step that either waits for ever, or goes on with the lock held and the job still running.
abbrev KeepsStuck : {A : Type 0} → String → Outcome A × Scheduler → Type 0
KeepsStuck {A} i r =
    (r.0 ≡ blocked) ⊎ ((a : A) × (r.0 ≡ returned a) × (r.1.lock_held ≡ true) × RunningAt i r.1)

running_elsewhere :
    (i k : String) (now : ℕ) (s : Scheduler) (job : Job)
    → RunningAt i s
    → job_at k s ≡ some job
    → is_running job.state ≡ false
    → RunningAt i (record s {
      jobs = update_where (has_id k) (write cancelled (Field.completed_at now ∷ [])) s.jobs;
    })
running_elsewhere i k now s job (target, e, runs) ek idle = (
  target,
  ground (
    arith,
    eq_iff k i,
    get-update i k (write cancelled (Field.completed_at now ∷ [])) s.jobs
        (id-write cancelled (Field.completed_at now ∷ [])),
  ),
  runs,
)

attempt-KeepsStuck :
    (now : String → ℕ) (i : String) (job : Job) (done : List String) (s : Scheduler)
    → s.lock_held ≡ true
    → RunningAt i s
    → KeepsStuck i (attempt now job done s)
unfolding attempt
attempt-KeepsStuck now i job done s held target = elim (Option-cases (job_at job.id s)) [
  | inl absent ↦ rw (cancel_unknown job.id (now job.id) s absent) (inr (done, refl, held, target))
  | inr (cur, e) ↦ elim (Bool-cases (is_running cur.state)) [
    | inl runs ↦ inl (rw (cancel_blocks job.id (now job.id) s cur held e runs))
    | inr idle ↦
        rw (cancel_goes_on job.id (now job.id) s cur e idle)
          (elim (Bool-cases (terminal cur.state)) [
            | inl ended ↦ rw ended (inr (done ++ job.id ∷ [], refl, held, target))
            | inr live ↦ rw live (
                inr (
                  done ++ job.id ∷ [],
                  refl,
                  held,
                  running_elsewhere i job.id (now job.id) s cur target e idle,
                ))
          ])
  ]
]

cancel_step-KeepsStuck :
    (now : String → ℕ) (i : String) (job : Job) (done : List String) (s : Scheduler)
    → s.lock_held ≡ true
    → RunningAt i s
    → KeepsStuck i (cancel_step now job done s)
unfolding cancel_step
cancel_step-KeepsStuck now i job done s held target = elim (Bool-cases (terminal job.state)) [
  | inl ended ↦ rw ended (inr (done, refl, held, target))
  | inr live ↦ rw live (attempt-KeepsStuck now i job done s held target)
]

first_blocks :
    (now : String → ℕ) (job first : Job) (done : List String) (s : Scheduler) (cur : Job)
    → s.lock_held ≡ true
    → job_at job.id s ≡ some cur
    → is_running cur.state ≡ true
    → terminal job.state ≡ false
    → job ≡ first
    → (cancel_step now first done s).0 ≡ blocked
unfolding cancel_step attempt
first_blocks now job first done s cur held e runs live same =
    rw (← same, live, cancel_blocks job.id (now job.id) s cur held e runs)

-- The loop comes to the running job, or waits before that.
cancel_each_blocks :
    (now : String → ℕ) (job : Job) (jobs : List Job) (done : List String) (s : Scheduler)
    → s.lock_held ≡ true
    → RunningAt job.id s
    → terminal job.state ≡ false
    → In job jobs
    → (cancel_each now jobs done s).0 ≡ blocked
unfolding cancel_each
cancel_each_blocks now job [] done s held target live here = absurd here
cancel_each_blocks now job (first ∷ rest) done s held (cur, e, runs) live (inl same) =
    rw (first_blocks now job first done s cur held e runs live same)
cancel_each_blocks now job (first ∷ rest) done s held target live (inr later) =
    elim (cancel_step-KeepsStuck now job.id first done s held target) [
      | inl waits ↦ rw waits
      | inr (done', e, held', target') ↦ rw e (
          cancel_each_blocks now job rest done' (cancel_step now first done s).1 held' target' live
            later)
    ]

-- While one of the jobs that `emergency_stop` lists is running, the stop never returns: it holds
-- the lock that its own call of `cancel` waits for.
pub emergency_stop_blocks :
    (env : Env) (now : String → ℕ) (actor : Option String) (s : Scheduler) (job : Job)
    → IsFree s
    → In job (Jobs.list 100 none s.jobs)
    → job_at job.id s ≡ some job
    → is_running job.state ≡ true
    → (emergency_stop env now actor s).0 ≡ blocked
unfolding emergency_stop with_lock
emergency_stop_blocks env now actor s job free listed e runs = rw (
  free,
  cancel_each_blocks now job (Jobs.list 100 none s.jobs) []
      (record s { lock_held = true; emergency = true }) refl (job, e, runs)
      (running_not_terminal job.state runs) listed,
)
