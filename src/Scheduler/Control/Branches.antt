-- ===== src/Scheduler/Control/Branches.antt =====
-- The control methods of scheduler/service.py, each on all its branches.
use ksec.Prelude.{ℕ, String, ◌≡◌, true, false, some, [], ◌∷◌, update_where, IfElse, if_else}
use ksec.Prelude.Exec.{returned, raised, ksec_error}
use ksec.Prelude.Dict.{put, string_eq}
use ksec.Jobs.{
  Job, Field, queued, paused, cancelling, cancelled, terminal, is_running, state_text, write,
  has_id,
}
use ksec.Scheduler.{Scheduler, Process}
use ksec.Scheduler.Submit.Effect.{IsFree}
use ksec.Scheduler.Control.{process_of, pause, resume, cancel}
use ksec.Scheduler.Control.Moves.{MovesTo, job_at, pausable, is_paused, pause_lem, resume_lem}
use ksec.Scheduler.Control.Cancel.{cancel_lem}

-- `pause` of a known job: one that is running, queued, ready or being validated becomes paused
-- and no other job changes; in every other state the call raises and changes nothing.
pub pause_by_state :
    (i : String) (s : Scheduler) (job : Job)
    → job_at i s ≡ some job
    → IfElse (pausable job.state) (MovesTo i job s.jobs paused [] (pause i s)) (
        pause i s
        ≡ (raised (ksec_error ("Cannot pause job in state " ∷ state_text job.state ∷ [])), s))
pause_by_state i s job e =
    if_else (pausable job.state) (pause_lem i s job e).0 (pause_lem i s job e).1

-- `resume` of a known job: a paused one becomes queued and no other job changes; in every other
-- state the call raises and changes nothing.
pub resume_by_state :
    (i : String) (s : Scheduler) (job : Job)
    → job_at i s ≡ some job
    → IfElse (is_paused job.state) (MovesTo i job s.jobs queued [] (resume i s)) (
        resume i s
        ≡ (raised (ksec_error ("Cannot resume job in state " ∷ state_text job.state ∷ [])), s))
resume_by_state i s job e =
    if_else (is_paused job.state) (λ h. ((resume_lem i s job e).0 h).0) (resume_lem i s job e).1

-- A paused job whose process is alive is in the queue again after `resume`, while that process
-- goes on and stays registered for it.
pub resume-process_of :
    (i : String) (s : Scheduler) (job : Job) (place : ℕ) (process : Process)
    → job_at i s ≡ some job
    → is_paused job.state ≡ true
    → process_of i s ≡ some (place, process)
    → process.ended ≡ false
    → ((resume i s).1.jobs ≡ update_where (has_id i) (write queued []) s.jobs)
      × (process_of i (resume i s).1 ≡ some (place, record process { stopped = false }))
resume-process_of i s job place process e is_p live alive =
    let (moved, goes_on) = (resume_lem i s job e).0 is_p in
    (moved.table, goes_on place process live alive)

-- `cancel` of a known job, with the lock free. A job that has ended is answered as it is, and
-- nothing changes. A running job becomes cancelling and its cancel flag is set. Any other job
-- becomes cancelled with the time of the call, and the cancel flags, the processes and their
-- registry stay as they are.
pub cancel_by_state :
    (i : String) (now : ℕ) (s : Scheduler) (job : Job)
    → IsFree s
    → job_at i s ≡ some job
    → IfElse (terminal job.state) (cancel i now s ≡ (returned job, s)) (
        IfElse
          (is_running job.state)
          (MovesTo i job s.jobs cancelling [] (cancel i now s)
            × ((cancel i now s).1.cancel_flags ≡ put i true s.cancel_flags))
          (cancel i now s ≡ (
            returned (write cancelled (Field.completed_at now ∷ []) job),
            record s {
              jobs = update_where (has_id i) (write cancelled (Field.completed_at now ∷ [])) s.jobs;
            },
          )))
cancel_by_state i now s job free e =
    let (ended, runs, waits) = cancel_lem i now s job free e in
    if_else (terminal job.state) ended (λ live. if_else (is_running job.state) runs (waits live))
