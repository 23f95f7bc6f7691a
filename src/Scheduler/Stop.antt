-- ===== src/Scheduler/Stop.antt =====
-- scheduler/service.py: the emergency stop, its persistence, recovery and `health`.
pub mod Emergency
pub mod Persistence
use ksec.Prelude.{
  ℕ, String, Bool, true, false, not, Option, none, some, List, [], ◌∷◌, ◌++◌, str_eq, if◌then◌else◌,
  length, select,
}
use ksec.Prelude.Exec.{
  Exec, Error, pure, raise, modify, gets, try_except, is_ksec_error, ◌>>=◌, ◌>>◌,
}
use ksec.Prelude.Json.{Json, Fields, items, field, end}
use ksec.Jobs.{Job, Table, terminal, is_queued, is_running}
use ksec.Jobs
use ksec.Audit.{AuditEvent, event}
use ksec.Scheduler.{Env, Scheduler, Config, on_jobs, with_lock, audit}
use ksec.Scheduler.Control.{cancel}
use mathlib.Core.List.{map}

-- `_persist_stop`; nothing is written where the table is missing.
unfoldable pub persist_stop : Bool → Scheduler → Scheduler
persist_stop active s = elim s.system_state [
  | none ↦ s
  | some _ ↦ record s { system_state = some (if active then some "1" else none) }
]

abbrev stored : Option (Option String) → Bool
stored (some (some value)) = str_eq value "1"
stored _ = false

-- `_restore_stop`, at start-up.
unfoldable pub restore_stop : Scheduler → Scheduler
restore_stop s = if stored s.system_state then record s { emergency = true } else s

-- `try: self.cancel(…); cancelled.append(…)`, `except KSECError: continue`.
unfoldable pub attempt : (String → ℕ) → Job → List String → Exec Scheduler (List String)
attempt now job done =
    try_except (do cancel job.id (now job.id); pure (done ++ job.id ∷ []))
      (λ e. if is_ksec_error e then pure done else raise e)

-- One round of the loop of `emergency_stop`: the ids cancelled so far come back.
unfoldable pub cancel_step : (String → ℕ) → Job → List String → Exec Scheduler (List String)
cancel_step now job done = if terminal job.state then pure done else attempt now job done

unfoldable pub cancel_each : (String → ℕ) → List Job → List String → Exec Scheduler (List String)
cancel_each now [] done = pure done
cancel_each now (job ∷ jobs) done = do done' ← cancel_step now job done; cancel_each now jobs done'

abbrev pub stop_event : Option String → List String → AuditEvent
stop_event actor cancelled = record (event "emergency_stop") {
  actor =
      some (elim actor [ none ↦ "system" | some name ↦ if str_eq name "" then "system" else name ]);
  action = some "emergency_stop";
  target = some "all";
  payload = field "cancelled_jobs" (Json.arr (items (map Json.str cancelled))) end;
}

-- `jobs.list()` reads its default number of rows. The answer is the list of cancelled ids.
unfoldable pub emergency_stop : Env → (String → ℕ) → Option String → Exec Scheduler (List String)
emergency_stop env now actor = do
  cancelled ← with_lock (do
    modify (λ s. record s { emergency = true })
    jobs ← gets (λ s. Jobs.list 100 none s.jobs)
    cancel_each now jobs [])
  modify (persist_stop true)
  audit env (stop_event actor cancelled)
  pure cancelled

abbrev pub clear_event : Option String → AuditEvent
clear_event actor = record (event "emergency_stop_clear") {
  actor =
      some (elim actor [ none ↦ "system" | some name ↦ if str_eq name "" then "system" else name ]);
  action = some "emergency_stop_clear";
}

unfoldable pub emergency_stop_clear : Env → Option String → Exec Scheduler (Unit {0})
emergency_stop_clear env actor = do
  modify (λ s. record s { emergency = false })
  modify (persist_stop false)
  with_lock
      (modify (λ s. record s { submit_times = []; user_submit_times = []; rate_blocked = [] }))
  audit env (clear_event actor)

-- A new process: the object is built anew over the same tables.
unfoldable pub restart : Scheduler → Scheduler
restart s = restore_stop (record s {
  emergency = false;
  submit_times = [];
  user_submit_times = [];
  rate_blocked = [];
  threads = [];
  procs = [];
  cancel_flags = [];
  thread_heap = [];
  process_heap = [];
  lock_held = false;
  wake = false;
  worker_alive = false;
})

unfoldable pub recover : (String → ℕ) → Exec Scheduler (List String)
recover now = on_jobs (Jobs.mark_interrupted now)

unfoldable pub is_emergency_stopped : Scheduler → Bool
is_emergency_stopped s = s.emergency

pub record Health : Type 0 where
  pub worker_alive : Bool
  pub emergency_stop : Bool
  pub queued_jobs : ℕ
  pub running_jobs : ℕ
  pub active_threads : ℕ
  pub active_processes : ℕ
  pub max_concurrent : ℕ
  pub rate_limit_per_minute : ℕ
  pub rate_limit_per_user : ℕ

unfoldable pub health : Env → Scheduler → Health
health env s = record {
  worker_alive = s.worker_alive;
  emergency_stop = s.emergency;
  queued_jobs = length (select (λ (j : Job). is_queued j.state) s.jobs);
  running_jobs = length (select (λ (j : Job). is_running j.state) s.jobs);
  active_threads = length s.threads;
  active_processes = length s.procs;
  max_concurrent = env.config.max_concurrent_jobs;
  rate_limit_per_minute = env.config.rate_limit_per_minute;
  rate_limit_per_user = env.config.rate_limit_per_user;
}
