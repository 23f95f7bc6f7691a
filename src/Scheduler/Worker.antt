-- ===== src/Scheduler/Worker.antt =====
-- scheduler/service.py: the worker's loop, `_reap` and `_run_due_schedules`.
pub mod Pick
pub mod Room
use ksec.Prelude.{
  ℕ, ◌/◌, String, Bool, true, false, not, ◌&&◌, ◌||◌, Option, none, some, List, [], ◌∷◌, ◌++◌,
  length, get_elem?, ltb, leb, ◌==◌, if◌then◌else◌, select, map,
}
use ksec.Prelude.Int.{ℤ, pos, ltb_ℤ}
use ksec.Prelude.Dict.{Dict, get?, put, remove, string_eq}
use ksec.Prelude.Exec.{Exec, pure, raise, modify, gets, try_except, is_ksec_error, ◌>>=◌, ◌>>◌}
use ksec.Prelude.Sort.{first_by}
use ksec.Prelude.Strings.{◌<>◌}
use ksec.Prelude.Strings.Decimal.{show}
use ksec.Jobs.{Job, Spec, Table, is_queued}
use ksec.Schedules.Cron.{When, cron_matches}
use ksec.Schedules.Store.{Schedule}
use ksec.Schedules.Store
use ksec.Scheduler.{Env, Scheduler, Thread, Phase, with_lock}
use ksec.Scheduler.Submit.{Readings, submit}

abbrev pub has_ended : Phase → Bool
has_ended Phase.ended = true
has_ended _ = false

-- `t.is_alive()` of the thread at a place, negated.
abbrev pub thread_ended : Option Thread → Bool
thread_ended none = true
thread_ended (some thread) = has_ended thread.phase

unfoldable pub done_ids : Scheduler → List String
unfolding select
done_ids s =
    map (λ (p : String × ℕ). p.0)
      (select (λ p. thread_ended (get_elem? s.thread_heap p.1)) s.threads)

-- Drops what is kept for one job: its thread, its process and its cancel flag.
abbrev pub forget : String → Scheduler → Scheduler
forget job_id s = record s {
  threads = remove job_id s.threads;
  procs = remove job_id s.procs;
  cancel_flags = remove job_id s.cancel_flags;
}

unfoldable pub forget_each : List String → Scheduler → Scheduler
unfolding remove
forget_each [] s = s
forget_each (job_id ∷ ids) s = forget_each ids (forget job_id s)

unfoldable pub reap : Exec Scheduler (Unit {0})
unfolding with_lock done_ids forget_each
reap = with_lock (modify (λ s. forget_each (done_ids s) s))

-- What a run of the schedules reads: the minute and the instant of the clock, and for each
-- schedule what its submission reads and the time of its mark.
pub record Minute : Type 0 where
  pub when : When
  pub instant : ℕ
  pub readings : ℕ → Readings
  pub marked : ℕ → ℕ

-- `last[:16] == now.strftime("%Y-%m-%dT%H:%M")`: both instants lie in one minute.
abbrev pub fired_this_minute : Option ℕ → ℕ → Bool
fired_this_minute none now = false
fired_this_minute (some last) now = last / 60000 == now / 60000

abbrev pub schedule_spec : Schedule → Spec
schedule_spec schedule = record {
  capability = schedule.capability;
  target = schedule.target;
  options = schedule.options;
  session_id = none;
  user_id = schedule.user_id;
  workspace = schedule.workspace;
  workflow = "schedule:" <> show schedule.id;
  priority = pos 0;
}

unfoldable pub mark_schedule : ℕ → ℕ → Exec Scheduler (Unit {0})
unfolding Store.mark_run
mark_schedule schedule_id now s = (
  (Store.mark_run schedule_id now s.schedules).0,
  record s { schedules = (Store.mark_run schedule_id now s.schedules).1 },
)

abbrev pub is_due : Minute → Schedule → Bool
is_due minute schedule =
    cron_matches schedule.cron minute.when
    && not (fired_this_minute schedule.last_run_at minute.instant)

unfoldable pub run_schedule : Env → Minute → Schedule → Exec Scheduler (Unit {0})
unfolding cron_matches submit mark_schedule
run_schedule env minute schedule =
    if is_due minute schedule
    then try_except
        (do
          submit env (minute.readings schedule.id) (schedule_spec schedule)
          mark_schedule schedule.id (minute.marked schedule.id))
        (λ e. if is_ksec_error e then pure tt else raise e)
    else pure tt

unfoldable pub run_each : Env → Minute → List Schedule → Exec Scheduler (Unit {0})
unfolding run_schedule
run_each env minute [] = pure tt
run_each env minute (schedule ∷ schedules) = do
  run_schedule env minute schedule
  run_each env minute schedules

unfoldable pub run_due_schedules : Env → Minute → Exec Scheduler (Unit {0})
unfolding run_each Store.list
run_due_schedules env minute = do
  due ← gets (λ s. Store.list true s.schedules)
  run_each env minute due

-- `ORDER BY priority DESC, created_at ASC`
abbrev pub ranks_before : Job → Job → Bool
ranks_before a b =
    ltb_ℤ b.priority a.priority
    || (not (ltb_ℤ a.priority b.priority) && ltb a.created_at b.created_at)

unfoldable pub next_job : Table → Option Job
unfolding first_by select
next_job jobs = first_by ranks_before (select (λ (j : Job). is_queued j.state) jobs)

-- The test and the query under the lock: the id of the job to start, if there is room and a job.
unfoldable pub choose : Env → Exec Scheduler (Option String)
unfolding with_lock next_job
choose env = with_lock (
    gets (λ s.
      if leb env.config.max_concurrent_jobs (length s.threads)
      then none
      else elim (next_job s.jobs) [ none ↦ none | some job ↦ some job.id ]))

-- A new thread for a job, registered under the job's id and started.
unfoldable pub start_thread : String → Exec Scheduler (Unit {0})
unfolding with_lock put
start_thread job_id = do
  place ← gets (λ s. length s.thread_heap)
  modify (λ s. record s {
    thread_heap = s.thread_heap ++ record { job_id = job_id; phase = Phase.starting } ∷ [];
  })
  with_lock (modify (λ s. record s { threads = put job_id place s.threads }))

-- One round of the worker's loop. The answer is the id of the job that it started.
unfoldable pub worker_round : Env → Minute → Exec Scheduler (Option String)
unfolding reap run_due_schedules choose start_thread
worker_round env minute = do
  modify (λ s. record s { wake = false })
  reap
  run_due_schedules env minute
  choice ← choose env
  elim choice [ none ↦ pure none | some job_id ↦ do start_thread job_id; pure (some job_id) ]
