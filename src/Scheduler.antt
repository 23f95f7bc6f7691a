-- ===== src/Scheduler.antt =====
-- scheduler/service.py: the state of the scheduler, and what its methods share. The methods are in
-- the child modules: `Submit` (rate limits, submit, retry), `Control` (pause, resume, cancel),
-- `Stop` (emergency stop, recovery), `Run` (one execution thread) and `Worker` (the worker's loop).
pub mod Submit
pub mod Control
pub mod Stop
pub mod Run
pub mod Worker
use ksec.Prelude.{ℕ, String, Bool, true, false, ◌&&◌, Option, none, some, List, [], ◌∷◌, ◌++◌}
use ksec.Prelude.Dict.{Dict}
use ksec.Prelude.Exec.{Exec, Message, Outcome, modify, block}
use ksec.Prelude.Json.{Json, Fields}
use ksec.Prelude.Strings.{◌<>◌}
use ksec.Jobs.{Table}
use ksec.Schedules.Store.{ScheduleStore}
use ksec.Audit.{AuditEvent, record_event}

-- config/loader.py: the settings that the scheduler reads. Instants are in milliseconds.
pub record Config : Type 0 where
  pub max_concurrent_jobs : ℕ
  pub rate_limit_per_minute : ℕ
  pub rate_limit_per_user : ℕ
  pub default_timeout_seconds : ℕ

-- What an adapter does for a job: it builds a command from the target and the options, or raises
-- an error, and it parses the stream that it reads into entities, or raises.
pub record Adapter : Type 0 where
  pub build_command : String → Fields → Exec (Unit {0}) (List String)
  pub reads_stderr : Bool
  pub parse_output : String → Outcome (List Json)

-- The components that the scheduler calls. `plugin_gate` is `assert_capability_allowed`, with the
-- message of its KSECError; `audit_on` says that an audit service is given and switched on.
pub record Env : Type 0 where
  pub config : Config
  pub audit_on : Bool
  pub username : ℕ → Option String
  pub adapter : String → Option Json → Option Adapter
  pub plugin_gate : String → Option Message

-- A child process, as a `subprocess.Popen` handle shows it; `ended` is `poll() is not None`.
pub record Process : Type 0 where
  pub command : List String
  pub ended : Bool
  pub stopped : Bool
  pub killed : Bool

-- Where an execution thread stands in `_execute`: not begun, in its polling loop with the handle
-- of its process, or at its end.
pub data Phase : Type 0 where
  starting : Phase
  polling : ℕ → Phase
  ended : Phase

pub record Thread : Type 0 where
  pub job_id : String
  pub phase : Phase

-- The scheduler object with the tables that it writes. Threads and processes are objects that
-- several places refer to, so `threads` and `procs` hold places of `thread_heap` and
-- `process_heap`. `system_state` is `none` where the table is missing, and else holds the value of
-- the key `emergency_stop`.
pub record Scheduler : Type 0 where
  pub jobs : Table
  pub schedules : ScheduleStore
  pub system_state : Option (Option String)
  pub audit_log : List AuditEvent
  pub emergency : Bool
  pub submit_times : List ℕ
  pub user_submit_times : Dict (Option ℕ) (List ℕ)
  pub rate_blocked : Dict (Option ℕ) ℕ
  pub threads : Dict String ℕ
  pub procs : Dict String ℕ
  pub cancel_flags : Dict String Bool
  pub thread_heap : List Thread
  pub process_heap : List Process
  pub lock_held : Bool
  pub wake : Bool
  pub worker_alive : Bool

-- A call of the job repository, on the scheduler's table.
unfoldable pub on_jobs : {A : Type 0} → Exec Table A → Exec Scheduler A
on_jobs m s = ((m s.jobs).0, record s { jobs = (m s.jobs).1 })

-- `with self._lock`. The lock is a `threading.Lock`, which its holder cannot take again. A method
-- of the model runs by itself, so a lock that is held is held by the method's own caller.
unfoldable pub with_lock : {A : Type 0} → Exec Scheduler A → Exec Scheduler A
with_lock body s = elim s.lock_held [
  | true ↦ block s
  | false ↦
      let done = body (record s { lock_held = true }) in
      (done.0, record done.1 { lock_held = false })
]

-- `self.audit.record(…)` under `if self.audit`.
unfoldable pub audit : Env → AuditEvent → Exec Scheduler (Unit {0})
unfolding record_event
audit env e = modify (λ s. record s { audit_log = record_event env.audit_on e s.audit_log })

-- The text of an f-string.
abbrev pub text : Message → String
text [] = ""
text (piece ∷ pieces) = piece <> text pieces
