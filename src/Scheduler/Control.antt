-- ===== src/Scheduler/Control.antt =====
-- scheduler/service.py: `pause`, `resume`, `cancel` and `wait_for`.
pub mod Moves
pub mod Cancel
pub mod Branches
use ksec.Prelude.{
  ℕ, String, Bool, true, false, not, Option, none, some, List, [], ◌∷◌, get_elem?, set,
  if◌then◌else◌,
}
use ksec.Prelude.Dict.{get?, put, string_eq}
use ksec.Prelude.Exec.{
  Exec, Outcome, returned, raised, pure, raise, modify, gets, or_raise, assert_some, ksec_error,
  ◌>>=◌, ◌>>◌,
}
use ksec.Jobs.{
  Job, JobState, Table, Field, queued, validating, ready, running, paused, cancelling, cancelled,
  terminal, is_running, state_text,
}
use ksec.Jobs
use ksec.Scheduler.{Scheduler, Process, on_jobs, with_lock}

-- The process that is registered for a job, with its place.
unfoldable pub process_of : String → Scheduler → Option (ℕ × Process)
process_of job_id s = elim (get? job_id s.procs) [
  | none ↦ none
  | some place ↦ elim (get_elem? s.process_heap place) [
    | none ↦ none
    | some process ↦ some (place, process)
  ]
]

-- `proc = self._procs.get(job_id)`; a signal, if there is one and `proc.poll() is None`.
unfoldable pub signal : (Process → Process) → String → Exec Scheduler (Unit {0})
signal change job_id = modify (λ s. elim (process_of job_id s) [
  | none ↦ s
  | some (place, process) ↦
      if process.ended
      then s
      else record s { process_heap = set s.process_heap place (change process) }
])

abbrev pub stop_process : Process → Process
stop_process process = record process { stopped = true }

abbrev pub continue_process : Process → Process
continue_process process = record process { stopped = false }

abbrev pub kill_process : Process → Process
kill_process process = record process { killed = true }

unfoldable pub get_job : String → Exec Scheduler Job
get_job job_id = do
  entry ← gets (λ s. Jobs.get job_id s.jobs)
  or_raise entry (ksec_error ("Unknown job: " ∷ job_id ∷ []))

unfoldable pub set_job_state : String → JobState → List Field → Exec Scheduler Job
set_job_state job_id state fields = on_jobs (Jobs.set_state job_id state fields)

unfoldable pub pause_from : JobState → String → Exec Scheduler Job
pause_from running job_id = do signal stop_process job_id; set_job_state job_id paused []
pause_from queued job_id = set_job_state job_id paused []
pause_from ready job_id = set_job_state job_id paused []
pause_from validating job_id = set_job_state job_id paused []
pause_from state job_id = raise (ksec_error ("Cannot pause job in state " ∷ state_text state ∷ []))

unfoldable pub pause : String → Exec Scheduler Job
pause job_id = do job ← get_job job_id; pause_from job.state job_id

unfoldable pub resume_from : JobState → String → Exec Scheduler Job
resume_from paused job_id = do
  signal continue_process job_id
  updated ← set_job_state job_id queued []
  modify (λ s. record s { wake = true })
  pure updated
resume_from state job_id =
    raise (ksec_error ("Cannot resume job in state " ∷ state_text state ∷ []))

unfoldable pub resume : String → Exec Scheduler Job
resume job_id = do job ← get_job job_id; resume_from job.state job_id

unfoldable pub flag_cancel : String → Exec Scheduler (Unit {0})
flag_cancel job_id =
    with_lock (modify (λ s. record s { cancel_flags = put job_id true s.cancel_flags }))

-- `cancel` of a job that was read; `now` is the time of the row.
unfoldable pub cancel_running : String → Exec Scheduler Job
cancel_running job_id = do
  flag_cancel job_id
  set_job_state job_id cancelling []
  signal kill_process job_id
  entry ← gets (λ s. Jobs.get job_id s.jobs)
  assert_some entry

unfoldable pub cancel_from : String → Job → ℕ → Exec Scheduler Job
cancel_from job_id job now =
    if terminal job.state
    then pure job
    else if is_running job.state
    then cancel_running job_id
    else set_job_state job_id cancelled (Field.completed_at now ∷ [])

unfoldable pub cancel : String → ℕ → Exec Scheduler Job
cancel job_id now = do job ← get_job job_id; cancel_from job_id job now

-- The tables that the polls of `wait_for` read, until its deadline passes.
unfoldable pub wait_for : String → List Table → Outcome Job
wait_for job_id [] = raised (ksec_error ("Timed out waiting for job " ∷ job_id ∷ []))
wait_for job_id (jobs ∷ later) =
    let rest = wait_for job_id later in
    elim (Jobs.get job_id jobs) [
      | none ↦ raised (ksec_error ("Unknown job: " ∷ job_id ∷ []))
      | some job ↦ if terminal job.state then returned job else rest
    ]
