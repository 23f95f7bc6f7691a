-- ===== src/Scheduler/Worker/Room.antt =====
-- How many threads the worker keeps.
use ksec.Prelude.{
  ℕ, ◌≤◌, ◌+◌, ◌≡◌, refl, String, true, false, Option, none, some, List, [], ◌∷◌, arith, length,
  if◌then◌else◌, Bool-cases, inl, inr,
}
use ksec.Prelude.Dict.{length-put, length-remove, string_eq}
use ksec.Prelude.Exec.{
  Exec, Outcome, Message, returned, raised, blocked, continue, pure, raise, modify, is_ksec_error,
  ◌>>◌,
}
use ksec.Prelude.Keeps.{Keeps, >>=-Keeps, try_except-Keeps}
use ksec.Jobs.{Spec}
use ksec.Schedules.Store.{Schedule}
use ksec.Schedules.Store
use ksec.Scheduler.{Env, Scheduler, with_lock, on_jobs, audit}
use ksec.Scheduler.Submit.{Readings, submit, admit, rate_allowed, rate_verdict, prune, note_times}
use ksec.Scheduler.Submit.Effect.{submit_stopped, submit_open}
use ksec.Scheduler.Worker.{
  Minute, reap, forget_each, done_ids, run_schedule, run_each, run_due_schedules, mark_schedule,
  choose, start_thread, worker_round, is_due, schedule_spec,
}

module _ (n : ℕ) where
  -- At most so many threads are registered.
  abbrev pub Fits : Scheduler → Type 0
  Fits s = length s.threads ≤ n

  with_lock-Keeps : {A : Type 0} (m : Exec Scheduler A) → Keeps Fits m → Keeps Fits (with_lock m)
  unfolding with_lock
  with_lock-Keeps m kept s h = elim (Bool-cases s.lock_held) [
    | inl held ↦ rw held h
    | inr free ↦ rw free (kept (record s { lock_held = true }) h)
  ]

  rate_allowed-Keeps :
      (env : Env) (now : ℕ) (user_id : Option ℕ) → Keeps Fits (rate_allowed env now user_id)
  unfolding rate_allowed prune rate_verdict with_lock
  rate_allowed-Keeps env now user_id s h = ground arith

  admit-Keeps :
      (env : Env) (r : Readings) (spec : Spec) (o : Option Message)
      → Keeps Fits (admit env r spec o)
  unfolding admit audit on_jobs note_times with_lock
  admit-Keeps env r spec none s h = ground arith
  admit-Keeps env r spec (some reason) s h = h

  submit-Keeps : (env : Env) (r : Readings) (spec : Spec) → Keeps Fits (submit env r spec)
  submit-Keeps env r spec s h = elim (Bool-cases s.emergency) [
    | inl stopped ↦ rw (submit_stopped env r spec s stopped) h
    | inr open_now ↦ rw (submit_open env r spec s open_now) (
        >>=-Keeps Fits (rate_allowed env r.checked spec.user_id) (admit env r spec)
          (rate_allowed-Keeps env r.checked spec.user_id) (admit-Keeps env r spec) s h)
  ]

  forget_each-Fits : (ids : List String) (s : Scheduler) → Fits s → Fits (forget_each ids s)
  unfolding forget_each
  forget_each-Fits [] s h = h
  forget_each-Fits (i ∷ ids) s h = forget_each-Fits ids _ (omega (arith, length-remove i s.threads))

  reap-Keeps : Keeps Fits reap
  unfolding reap
  reap-Keeps =
      with_lock-Keeps (modify (λ s. forget_each (done_ids s) s))
        (λ s h. forget_each-Fits (done_ids s) s h)

  run_schedule-Keeps :
      (env : Env) (minute : Minute) (schedule : Schedule)
      → Keeps Fits (run_schedule env minute schedule)
  unfolding run_schedule mark_schedule
  run_schedule-Keeps env minute schedule s h = elim (Bool-cases (is_due minute schedule)) [
    | inr early ↦ rw early h
    | inl due ↦ rw due (
        try_except-Keeps Fits
          (submit env (minute.readings schedule.id) (schedule_spec schedule)
            >> mark_schedule schedule.id (minute.marked schedule.id))
          (λ e. if is_ksec_error e then pure tt else raise e)
          (>>=-Keeps Fits (submit env (minute.readings schedule.id) (schedule_spec schedule))
            (λ _. mark_schedule schedule.id (minute.marked schedule.id))
            (submit-Keeps env (minute.readings schedule.id) (schedule_spec schedule)) (λ _ t k. k))
          (λ e t k. ground (arith, k)) s h)
  ]

  run_each-Keeps :
      (env : Env) (minute : Minute) (schedules : List Schedule)
      → Keeps Fits (run_each env minute schedules)
  unfolding run_each
  run_each-Keeps env minute [] s h = h
  run_each-Keeps env minute (schedule ∷ schedules) s h =
      >>=-Keeps Fits (run_schedule env minute schedule) (λ _. run_each env minute schedules)
        (run_schedule-Keeps env minute schedule) (λ _. run_each-Keeps env minute schedules) s h

  run_due_schedules-Keeps :
      (env : Env) (minute : Minute) → Keeps Fits (run_due_schedules env minute)
  unfolding run_due_schedules
  run_due_schedules-Keeps env minute s h =
      run_each-Keeps env minute (Store.list true s.schedules) s h

-- The worker starts a job only where there is room for one more thread.
choose-some :
    (env : Env) (s : Scheduler) (i : String)
    → (choose env s).0 ≡ returned (some i)
    → length (choose env s).1.threads + 1 ≤ env.config.max_concurrent_jobs
unfolding choose with_lock
choose-some env s i e = ground arith

choose-Keeps : (n : ℕ) (env : Env) (s : Scheduler) → Fits n s → Fits n (choose env s).1
unfolding choose with_lock
choose-Keeps n env s h = ground arith

start_thread-Fits :
    (n : ℕ) (i : String) (s : Scheduler) → length s.threads + 1 ≤ n → Fits n (start_thread i s).1
unfolding start_thread with_lock
start_thread-Fits n i s h = ground (arith, length-put i (length s.thread_heap) s.threads)

-- The rest of a round once the worker has looked at the queue.
abbrev start_chosen : Option String → Exec Scheduler (Option String)
start_chosen choice = elim choice [
  | none ↦ pure none
  | some job_id ↦ do start_thread job_id; pure (some job_id)
]

started :
    (n : ℕ) (o : Outcome (Option String)) (t : Scheduler)
    → ((i : String) → o ≡ returned (some i) → length t.threads + 1 ≤ n)
    → Fits n t
    → Fits n (continue o start_chosen t).1
started n (returned none) t room h = h
started n (returned (some i)) t room h =
    >>=-Keeps (Fits n) (λ _. start_thread i t) (λ _. pure (some i))
      (λ _ _. start_thread-Fits n i t (room i refl)) (λ _ s k. k) t h
started n (raised e) t room h = h
started n blocked t room h = h

pub worker_round-Fits :
    (env : Env) (minute : Minute) (s : Scheduler)
    → Fits env.config.max_concurrent_jobs s
    → Fits env.config.max_concurrent_jobs (worker_round env minute s).1
unfolding worker_round
worker_round-Fits env minute s h =
    let n = env.config.max_concurrent_jobs in
    >>=-Keeps (Fits n) reap _ (reap-Keeps n)
      (λ _.
        >>=-Keeps (Fits n) (run_due_schedules env minute) _ (run_due_schedules-Keeps n env minute)
          (λ _ t k.
            started n (choose env t).0 (choose env t).1 (choose-some env t)
              (choose-Keeps n env t k)))
      (record s { wake = false }) h
