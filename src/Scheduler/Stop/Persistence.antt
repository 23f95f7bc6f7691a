-- ===== src/Scheduler/Stop/Persistence.antt =====
-- The emergency stop across restarts.
use ksec.Prelude.{
  ℕ, String, ◌≡◌, refl, ap, ◌∙◌, Bool, true, false, Option, none, some, List, [], ◌∷◌, ◌++◌, arith,
  Bool-cases, Option-cases, inl, inr, if◌then◌else◌,
}
use ksec.Prelude.Exec.{
  Exec, pure, raise, modify, assert_some, Outcome, returned, raised, blocked, ksec_error, continue,
  on_error, is_ksec_error, ◌>>◌,
}
use ksec.Jobs.{Job, JobState, is_running, Table, Field, terminal, Spec}
use ksec.Jobs
use ksec.Scheduler.{Scheduler, Env, Process, with_lock, on_jobs, audit}
use ksec.Scheduler.Submit.{Readings, submit, emergency_message}
use ksec.Scheduler.Submit.Effect.{IsFree, submit_stopped}
use ksec.Scheduler.Control.{
  cancel, get_job, cancel_from, cancel_running, flag_cancel, set_job_state, signal, process_of,
  kill_process,
}
use ksec.Scheduler.Stop.{
  persist_stop, restore_stop, restart, stop_event, attempt, cancel_step, cancel_each,
  emergency_stop, emergency_stop_clear,
}

-- A call that leaves the flag and its stored value alone.
record KeepsFlag (s t : Scheduler) : Type 0 where
  flag : t.emergency ≡ s.emergency
  stored : t.system_state ≡ s.system_state

same : (s : Scheduler) → KeepsFlag s s
same s = record { flag = refl; stored = refl }

next : (s t u : Scheduler) → KeepsFlag s t → KeepsFlag t u → KeepsFlag s u
next s t u a b = record { flag = b.flag ∙ a.flag; stored = b.stored ∙ a.stored }

signal-KeepsFlag :
    (change : Process → Process) (i : String) (s : Scheduler) → KeepsFlag s (signal change i s).1
unfolding signal process_of
signal-KeepsFlag change i s = record { flag = ground arith; stored = ground arith }

continue-KeepsFlag :
    {A B : Type 0} (s t : Scheduler) (o : Outcome A) (f : A → Exec Scheduler B)
    → KeepsFlag s t
    → ((a : A) → KeepsFlag t (f a t).1)
    → KeepsFlag s (continue o f t).1
continue-KeepsFlag s t (returned a) f h k = next s t (f a t).1 h (k a)
continue-KeepsFlag s t (raised e) f h k = h
continue-KeepsFlag s t blocked f h k = h

flag_cancel-KeepsFlag : (i : String) (s : Scheduler) → KeepsFlag s (flag_cancel i s).1
unfolding flag_cancel with_lock
flag_cancel-KeepsFlag i s = record { flag = ground arith; stored = ground arith }

set_job_state-KeepsFlag :
    (i : String) (st : JobState) (fs : List Field) (s : Scheduler)
    → KeepsFlag s (set_job_state i st fs s).1
unfolding set_job_state on_jobs
set_job_state-KeepsFlag i st fs s = record { flag = refl; stored = refl }

assert_some-KeepsFlag :
    {A : Type 0} (o : Option A) (s : Scheduler) → KeepsFlag s (assert_some o s).1
assert_some-KeepsFlag none s = same s
assert_some-KeepsFlag (some a) s = same s

cancel_running-KeepsFlag : (i : String) (s : Scheduler) → KeepsFlag s (cancel_running i s).1
unfolding cancel_running
cancel_running-KeepsFlag i s =
    let s1 = (flag_cancel i s).1 in
    let s2 = (set_job_state i JobState.cancelling [] s1).1 in
    let s3 = (signal kill_process i s2).1 in
    continue-KeepsFlag s s1 (flag_cancel i s).0 _ (flag_cancel-KeepsFlag i s) (λ _.
      continue-KeepsFlag s1 s2 (set_job_state i JobState.cancelling [] s1).0 _
        (set_job_state-KeepsFlag i JobState.cancelling [] s1)
        (λ _.
          continue-KeepsFlag s2 s3 (signal kill_process i s2).0 _
            (signal-KeepsFlag kill_process i s2)
            (λ _. assert_some-KeepsFlag (Jobs.get i s3.jobs) s3)))

cancel_from-KeepsFlag :
    (i : String) (job : Job) (now : ℕ) (s : Scheduler) → KeepsFlag s (cancel_from i job now s).1
unfolding cancel_from
cancel_from-KeepsFlag i job now s = elim (Bool-cases (terminal job.state)) [
  | inl over ↦ rw over (same s)
  | inr live ↦ rw live (elim (Bool-cases (is_running job.state)) [
    | inl runs ↦ rw runs (cancel_running-KeepsFlag i s)
    | inr waits ↦
        rw waits (set_job_state-KeepsFlag i JobState.cancelled (Field.completed_at now ∷ []) s)
  ])
]

cancel-KeepsFlag : (i : String) (now : ℕ) (s : Scheduler) → KeepsFlag s (cancel i now s).1
unfolding cancel get_job
cancel-KeepsFlag i now s = elim (Option-cases (Jobs.get i s.jobs)) [
  | inl gone ↦ rw gone (same s)
  | inr (job, known) ↦ rw known (cancel_from-KeepsFlag i job now s)
]

on_error-KeepsFlag :
    (o : Outcome (List String)) (done : List String) (s : Scheduler)
    → KeepsFlag s (on_error o (λ e. if is_ksec_error e then pure done else raise e) s).1
on_error-KeepsFlag (returned ids) done s = same s
on_error-KeepsFlag (raised e) done s = elim (Bool-cases (is_ksec_error e)) [
  | inl caught ↦ rw caught (same s)
  | inr other ↦ rw other (same s)
]
on_error-KeepsFlag blocked done s = same s

attempt-KeepsFlag :
    (now : String → ℕ) (job : Job) (done : List String) (s : Scheduler)
    → KeepsFlag s (attempt now job done s).1
unfolding attempt
attempt-KeepsFlag now job done s =
    let c = cancel job.id (now job.id) s in
    let noted = continue c.0 (λ _. pure (done ++ job.id ∷ [])) c.1 in
    next s noted.1 _
      (continue-KeepsFlag s c.1 c.0 _ (cancel-KeepsFlag job.id (now job.id) s) (λ _. same c.1))
      (on_error-KeepsFlag noted.0 done noted.1)

cancel_step-KeepsFlag :
    (now : String → ℕ) (job : Job) (done : List String) (s : Scheduler)
    → KeepsFlag s (cancel_step now job done s).1
unfolding cancel_step
cancel_step-KeepsFlag now job done s = elim (Bool-cases (terminal job.state)) [
  | inl over ↦ rw over (same s)
  | inr live ↦ rw live (attempt-KeepsFlag now job done s)
]

cancel_each-KeepsFlag :
    (now : String → ℕ) (jobs : List Job) (done : List String) (s : Scheduler)
    → KeepsFlag s (cancel_each now jobs done s).1
unfolding cancel_each
cancel_each-KeepsFlag now [] done s = same s
cancel_each-KeepsFlag now (job ∷ jobs) done s =
    continue-KeepsFlag s (cancel_step now job done s).1 (cancel_step now job done s).0 _
      (cancel_step-KeepsFlag now job done s)
      (λ done'. cancel_each-KeepsFlag now jobs done' (cancel_step now job done s).1)

-- A stop that holds, now and in the next process.
abbrev Holds : Scheduler → Type 0
Holds s = (s.emergency ≡ true) × ((restart s).emergency ≡ true)

-- `emergency_stop` behind its lock.
abbrev finish : Env → Option String → List String → Exec Scheduler (List String)
finish env actor cancelled = do
  modify (persist_stop true)
  audit env (stop_event actor cancelled)
  pure cancelled

finish-Holds :
    (env : Env) (actor : Option String) (ids : List String) (t : Scheduler) (stored : Option String)
    → t.emergency ≡ true
    → t.system_state ≡ some stored
    → Holds (finish env actor ids t).1
unfolding audit persist_stop restart restore_stop
finish-Holds env actor ids t stored on there = rw there (on, refl)

continue-Holds :
    (env : Env) (actor : Option String) (o : Outcome (List String)) (t : Scheduler)
    (stored : Option String) (ids : List String)
    → t.emergency ≡ true
    → t.system_state ≡ some stored
    → (continue o (finish env actor) t).0 ≡ returned ids
    → Holds (continue o (finish env actor) t).1
continue-Holds env actor (returned done) t stored ids on there h =
    finish-Holds env actor done t stored on there
continue-Holds env actor (raised e) t stored ids on there h = cc
continue-Holds env actor blocked t stored ids on there h = cc

emergency_stop-Holds :
    (env : Env) (now : String → ℕ) (actor : Option String) (s : Scheduler) (stored : Option String)
    (ids : List String)
    → IsFree s
    → s.system_state ≡ some stored
    → (emergency_stop env now actor s).0 ≡ returned ids
    → Holds (emergency_stop env now actor s).1
unfolding emergency_stop with_lock
emergency_stop-Holds env now actor s stored ids free there h =
    let inside = record s { lock_held = true; emergency = true } in
    let jobs = Jobs.list 100 none s.jobs in
    let kept = cancel_each-KeepsFlag now jobs [] inside in
    rw free (
      continue-Holds env actor (cancel_each now jobs [] inside).0
        (record (cancel_each now jobs [] inside).1 { lock_held = false }) stored ids kept.flag
        (kept.stored ∙ there) (rw free at h))

-- Once `emergency_stop` has returned, the lock having been free and the table `system_state`
-- being there, every submission raises, in this process and after a restart.
pub emergency_stop-submit :
    (env : Env) (now : String → ℕ) (actor : Option String) (s : Scheduler) (stored : Option String)
    (ids : List String) (r : Readings) (spec : Spec)
    → IsFree s
    → s.system_state ≡ some stored
    → (emergency_stop env now actor s).0 ≡ returned ids
    → ((submit env r spec (emergency_stop env now actor s).1).0
        ≡ raised (ksec_error emergency_message))
      × ((submit env r spec (restart (emergency_stop env now actor s).1)).0
          ≡ raised (ksec_error emergency_message))
emergency_stop-submit env now actor s stored ids r spec free there h =
    let held = emergency_stop-Holds env now actor s stored ids free there h in
    (
      ap (λ (o : Outcome Job × Scheduler). o.0)
          (submit_stopped env r spec (emergency_stop env now actor s).1 held.0),
      ap (λ (o : Outcome Job × Scheduler). o.0)
          (submit_stopped env r spec (restart (emergency_stop env now actor s).1) held.1),
    )

persist_stop_lem :
    (active : Bool) (s : Scheduler) (stored : Option String)
    → s.system_state ≡ some stored
    → persist_stop active s ≡ record s { system_state = some (if active then some "1" else none) }
unfolding persist_stop
persist_stop_lem active s stored h = rw h refl

-- `emergency_stop_clear`, the lock being free and the table `system_state` being there, lifts the
-- stop in this process and after a restart, forgets the submissions, those of each user too, and the
-- blocks of the rate limits, and leaves the jobs as they are.
pub emergency_stop_clear-restart :
    (env : Env) (actor : Option String) (s : Scheduler) (stored : Option String)
    → IsFree s
    → s.system_state ≡ some stored
    → ((emergency_stop_clear env actor s).0 ≡ returned tt)
      × ((emergency_stop_clear env actor s).1.emergency ≡ false)
      × ((restart (emergency_stop_clear env actor s).1).emergency ≡ false)
      × ((emergency_stop_clear env actor s).1.submit_times ≡ [])
      × ((emergency_stop_clear env actor s).1.user_submit_times ≡ [])
      × ((emergency_stop_clear env actor s).1.rate_blocked ≡ [])
      × ((emergency_stop_clear env actor s).1.jobs ≡ s.jobs)
unfolding emergency_stop_clear with_lock audit restart restore_stop
emergency_stop_clear-restart env actor s stored free there =
    rw (persist_stop_lem false (record s { emergency = false }) stored there, free)
      (refl, refl, refl, refl, refl, refl, refl)
