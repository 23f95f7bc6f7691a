-- ===== src/Scheduler/Run.antt =====
-- scheduler/service.py: `_execute`, the body of an execution thread, in the pieces between which
-- other threads run: up to the start of the process, one round of the polling loop, and the end.
pub mod Start
pub mod Close
use ksec.Prelude.{
  ℕ, String, Bool, true, false, not, ◌&&◌, Option, none, some, List, [], ◌∷◌, ◌++◌, length,
  get_elem?, set, ◌==◌, str_eq, if◌then◌else◌, cut,
}
use ksec.Prelude.Int.{ℤ, pos, negsuc}
use ksec.Prelude.Dict.{get?, put, remove, string_eq}
use ksec.Prelude.Exec.{
  Exec, Error, Message, Outcome, returned, raised, blocked, message, pure, raise, modify, gets,
  block, is_ksec_error, ◌>>=◌, ◌>>◌,
}
use ksec.Prelude.Json.{Json, Fields, items, field, end}
use ksec.Prelude.Strings.{◌<>◌, strip}
use ksec.Prelude.Strings.Decimal.{show, show_ℤ}
use ksec.Jobs.{Job, JobState, Field, running, cancelled}
use ksec.Jobs
use ksec.Scheduler.{Env, Adapter, Scheduler, Process, on_jobs, with_lock, text}
use ksec.Scheduler.Control.{set_job_state, kill_process}

-- `self._is_cancelled`
unfoldable pub is_cancelled : String → Exec Scheduler Bool
is_cancelled job_id =
    with_lock (gets (λ s. elim (get? job_id s.cancel_flags) [ none ↦ false | some flag ↦ flag ]))

unfoldable pub fail_job : String → String → Option ℤ → ℕ → Exec Scheduler (Unit {0})
fail_job job_id error code now = do on_jobs (Jobs.fail job_id error code now); pure tt

-- `options.get(key)`
unfoldable pub option_of : String → Fields → Option Json
option_of key end = none
option_of key (field k value rest) = if str_eq k key then some value else option_of key rest

-- What starting the job reads from outside: the times of the two rows that it may write, and the
-- error of `Popen`, if it raises an OSError.
pub record Launch : Type 0 where
  pub started : ℕ
  pub completed : ℕ
  pub os_error : Option String

-- `Popen`: the handle of the new process is its place.
unfoldable pub spawn : List String → Exec Scheduler ℕ
spawn command = do
  place ← gets (λ s. length s.process_heap)
  modify (λ s. record s {
    process_heap =
        s.process_heap
        ++ record { command = command; ended = false; stopped = false; killed = false } ∷ [];
  })
  pure place

-- The start of a built command. The answer is the handle, or `none` where the job has ended.
unfoldable pub launch : Launch → String → List String → Exec Scheduler (Option ℕ)
launch io job_id [] = do
  fail_job job_id "Adapter produced an empty command" none io.completed
  pure none
launch io job_id (executable ∷ args) = elim io.os_error [
  | some reason ↦ do
    fail_job job_id (text ("Failed to start " ∷ executable ∷ ": " ∷ reason ∷ [])) none io.completed
    pure none
  | none ↦ do
    place ← spawn (executable ∷ args)
    with_lock (modify (λ s. record s { procs = put job_id place s.procs }))
    pure (some place)
]

-- `except KSECError` around `build_command`.
unfoldable pub built : Launch → String → Outcome (List String) → Exec Scheduler (Option ℕ)
built io job_id (returned command) = launch io job_id command
built io job_id (raised e) =
    if is_ksec_error e
    then (do fail_job job_id (text (message e)) none io.completed; pure none)
    else raise e
built io job_id blocked = λ s. (blocked, s)

-- From the choice of the adapter to the start of the process.
unfoldable pub prepare : Env → Launch → Job → Exec Scheduler (Option ℕ)
prepare env io job = elim (env.adapter job.capability (option_of "tool" job.options)) [
  | none ↦ do
    fail_job job.id (text ("No adapter for capability " ∷ job.capability ∷ [])) none io.completed
    pure none
  | some adapter ↦ elim (env.plugin_gate job.capability) [
    | some refusal ↦ do fail_job job.id (text refusal) none io.completed; pure none
    | none ↦ built io job.id (adapter.build_command job.target job.options tt).0
  ]
]

-- `_execute` up to its polling loop.
unfoldable pub begin_run : Env → Launch → String → Exec Scheduler (Option ℕ)
begin_run env io job_id = do
  entry ← gets (λ s. Jobs.get job_id s.jobs)
  elim entry [
    | none ↦ pure none
    | some job ↦ do
      stop ← is_cancelled job_id
      elim stop [
        | true ↦ do set_job_state job_id cancelled (Field.completed_at io.completed ∷ []); pure none
        | false ↦ do
          set_job_state job_id running (Field.started_at io.started ∷ [])
          prepare env io job
      ]
  ]

-- What a round of the loop reads: whether the deadline has passed, and the answer of
-- `communicate` (the streams and the return code), where it does not time out.
pub record Tick : Type 0 where
  pub expired : Bool
  pub output : Option (String × String × ℤ)

-- How the loop ends.
pub data Polled : Type 0 where
  timed_out : Polled
  cancel_seen : Polled
  exited : String → String → ℤ → Polled

unfoldable pub change_process : (Process → Process) → ℕ → Exec Scheduler (Unit {0})
change_process change place = modify (λ s. elim (get_elem? s.process_heap place) [
  | none ↦ s
  | some process ↦ record s { process_heap = set s.process_heap place (change process) }
])

abbrev pub reap_process : Process → Process
reap_process process = record process { ended = true }

-- `proc.kill()` and `proc.wait()`
unfoldable pub kill_and_wait : ℕ → Exec Scheduler (Unit {0})
kill_and_wait place = change_process (λ p. reap_process (kill_process p)) place

-- One round of the polling loop; `none` is `continue`.
unfoldable pub poll_round : Tick → String → ℕ → Exec Scheduler (Option Polled)
poll_round tick job_id place =
    if tick.expired then (do kill_and_wait place; pure (some timed_out)) else do
      stop ← is_cancelled job_id
      elim stop [
        | true ↦ do kill_and_wait place; pure (some cancel_seen)
        | false ↦ elim tick.output [
          | none ↦ pure none
          | some (out, err, code) ↦ do
            change_process reap_process place
            pure (some (exited out err code))
        ]
      ]

-- The whole loop over the rounds of a run without other threads; the deadline passes behind them.
unfoldable pub poll_loop : List Tick → String → ℕ → Exec Scheduler Polled
poll_loop [] job_id place = do kill_and_wait place; pure timed_out
poll_loop (tick ∷ ticks) job_id place = do
  result ← poll_round tick job_id place
  elim result [ none ↦ poll_loop ticks job_id place | some polled ↦ pure polled ]

abbrev pub succeeded : ℤ → Bool
succeeded (pos n) = n == 0
succeeded (negsuc n) = false

-- What the end of a run reads: the time of its row, and the duration as JSON shows it.
pub record Closing : Type 0 where
  pub completed : ℕ
  pub duration : String

-- `parsed_stream`
abbrev pub parsed_stream : Adapter → String → String → String
parsed_stream adapter out err = if adapter.reads_stderr then cut 10000 err else cut 100000 out

abbrev pub outcome : List Json → Closing → String → String → ℤ → Fields
outcome entities io out err code =
    let stdout = cut 100000 out in
    let stderr = cut 10000 err in
    field "exit_code" (Json.int code) (
      field "stdout" (Json.str stdout) (
        field "stderr" (Json.str stderr) (
          field "duration_seconds" (Json.real io.duration) (
            field "timed_out" (Json.bool false) (
              field "entities" (Json.arr (items entities))
                (field "entity_count" (Json.int (pos (length entities))) end))))))

-- `stderr.strip() or f"exit code {code}"`
abbrev pub failure_text : String → ℤ → String
failure_text err code =
    let shown = strip (cut 10000 err) in
    cut 2000 (if str_eq shown "" then text ("exit code " ∷ show_ℤ code ∷ []) else shown)

-- The end of a run with the exit code zero, by the answer of `parse_output`, whose error nothing
-- catches.
unfoldable pub complete_parsed :
    Closing → String → String → String → ℤ → Outcome (List Json) → Exec Scheduler (Unit {0})
complete_parsed io job_id out err code (returned entities) = do
  on_jobs (Jobs.complete job_id (outcome entities io out err code) (pos 0) io.completed)
  pure tt
complete_parsed io job_id out err code (raised e) = raise e
complete_parsed io job_id out err code blocked = block

-- The state that the end of the loop and the last look at the cancel flag lead to.
unfoldable pub close_run :
    Env → Adapter → Closing → String → Polled → Bool → Exec Scheduler (Unit {0})
close_run env adapter io job_id polled true = do
  set_job_state job_id cancelled (Field.completed_at io.completed ∷ [])
  pure tt
close_run env adapter io job_id cancel_seen false = do
  set_job_state job_id cancelled (Field.completed_at io.completed ∷ [])
  pure tt
close_run env adapter io job_id timed_out false =
    fail_job job_id (text ("Timed out after " ∷ show env.config.default_timeout_seconds ∷ "s" ∷ []))
      none io.completed
close_run env adapter io job_id (exited out err code) false =
    if succeeded code
    then complete_parsed io job_id out err code
        (adapter.parse_output (parsed_stream adapter out err))
    else fail_job job_id (failure_text err code) (some code) io.completed

-- `_execute` behind its polling loop.
unfoldable pub end_run : Env → Adapter → Closing → String → Polled → Exec Scheduler (Unit {0})
end_run env adapter io job_id polled = do
  stop ← is_cancelled job_id
  with_lock (modify (λ s. record s { procs = remove job_id s.procs }))
  close_run env adapter io job_id polled stop
