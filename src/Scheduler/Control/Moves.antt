-- ===== src/Scheduler/Control/Moves.antt =====
-- How the control methods move a job between its states.
use ksec.Prelude.{
  ℕ, String, ◌≡◌, refl, ap, ◌∙◌, get_elem?, get_elem?-set-some, set, Bool, true, false, Option,
  some, List, [], ◌∷◌, arith, update_where,
}
use ksec.Prelude.Exec.{Outcome, returned, raised, ksec_error}
use ksec.Jobs.{
  Job, JobState, Table, Field, queued, validating, ready, running, paused, cancelling, cancelled,
  completed, failed, terminal, state_text, write, has_id, recovering, retrying,
}
use ksec.Jobs
use ksec.Prelude.Dict.{get?, string_eq}
use ksec.Jobs.Laws.{updated, found, set_state_lem}
use ksec.Scheduler.{Scheduler, Process, on_jobs}
use ksec.Scheduler.Control.{
  process_of, signal, get_job, set_job_state, pause, pause_from, resume, resume_from, stop_process,
  continue_process,
}

-- Reads of a job by its id.
abbrev pub job_at : String → Scheduler → Option Job
job_at i s = Jobs.get i s.jobs

-- A signal touches nothing but the processes.
pub signal_frame :
    (change : Process → Process) (i : String) (s : Scheduler)
    → ((signal change i s).0 ≡ returned tt)
      × ((signal change i s).1.jobs ≡ s.jobs)
      × ((signal change i s).1.cancel_flags ≡ s.cancel_flags)
      × ((signal change i s).1.lock_held ≡ s.lock_held)
unfolding signal process_of
signal_frame change i s = ground arith

jobs-signal :
    (change : Process → Process) (i : String) (s : Scheduler) → (signal change i s).1.jobs ≡ s.jobs
unfolding signal process_of
jobs-signal change i s = ground arith

pub set_job_state_lem :
    (i : String) (st : JobState) (fs : List Field) (s : Scheduler)
    → set_job_state i st fs s ≡ (
      found (updated (write st fs) true (Jobs.get i s.jobs)),
      record s { jobs = update_where (has_id i) (write st fs) s.jobs },
    )
unfolding set_job_state on_jobs
set_job_state_lem i st fs s = rw set_state_lem

-- The states that a pause accepts.
abbrev pub pausable : JobState → Bool
pausable running = true
pausable queued = true
pausable ready = true
pausable validating = true
pausable _ = false

-- A call that moves the job of an id to a state, and no other job.
pub record MovesTo (i : String) (job : Job) (jobs : Table) (st : JobState) (fs : List Field)
    (r : Outcome Job × Scheduler) : Type 0 where
  pub answer : r.0 ≡ returned (write st fs job)
  pub table : r.1.jobs ≡ update_where (has_id i) (write st fs) jobs

pub set_job_state-MovesTo :
    (i : String) (job : Job) (s s1 : Scheduler) (st : JobState) (fs : List Field)
    → job_at i s ≡ some job
    → s1.jobs ≡ s.jobs
    → MovesTo i job s.jobs st fs (set_job_state i st fs s1)
set_job_state-MovesTo i job s s1 st fs e same =
    rw set_job_state_lem
      (record { answer = rw (same, e); table = ap (update_where (has_id i) (write st fs)) same })

pause_from-MovesTo :
    (st : JobState) (i : String) (s : Scheduler) (job : Job)
    → job_at i s ≡ some job
    → pausable st ≡ true
    → MovesTo i job s.jobs paused [] (pause_from st i s)
unfolding pause_from signal
pause_from-MovesTo running i s job e h =
    set_job_state-MovesTo i job s _ paused [] e (jobs-signal stop_process i s)
pause_from-MovesTo queued i s job e h = set_job_state-MovesTo i job s s paused [] e refl
pause_from-MovesTo ready i s job e h = set_job_state-MovesTo i job s s paused [] e refl
pause_from-MovesTo validating i s job e h = set_job_state-MovesTo i job s s paused [] e refl
pause_from-MovesTo _ i s job e h = cc

pause_from-refuses :
    (st : JobState) (i : String) (s : Scheduler)
    → pausable st ≡ false
    → pause_from st i s
      ≡ (raised (ksec_error ("Cannot pause job in state " ∷ state_text st ∷ [])), s)
unfolding pause_from
pause_from-refuses running i s h = cc
pause_from-refuses queued i s h = cc
pause_from-refuses ready i s h = cc
pause_from-refuses validating i s h = cc
pause_from-refuses _ i s h = refl

-- `pause` of a known job. One that is running, queued, ready or being validated becomes paused and
-- no other job changes; in every other state the call raises and changes nothing.
pub pause_lem :
    (i : String) (s : Scheduler) (job : Job)
    → job_at i s ≡ some job
    → (pausable job.state ≡ true → MovesTo i job s.jobs paused [] (pause i s))
      × (pausable job.state ≡ false
          → pause i s
            ≡ (raised (ksec_error ("Cannot pause job in state " ∷ state_text job.state ∷ [])), s))
unfolding pause get_job
pause_lem i s job e =
    rw e (pause_from-MovesTo job.state i s job e, pause_from-refuses job.state i s)

abbrev pub is_paused : JobState → Bool
is_paused paused = true
is_paused _ = false

resume_from-MovesTo :
    (st : JobState) (i : String) (s : Scheduler) (job : Job)
    → job_at i s ≡ some job
    → is_paused st ≡ true
    → MovesTo i job s.jobs queued [] (resume_from st i s)
unfolding resume_from signal
resume_from-MovesTo paused i s job e h =
    let moved =
      set_job_state-MovesTo i job s (signal continue_process i s).1 queued [] e
        (jobs-signal continue_process i s) in
    rw (moved.answer) (record { answer = refl; table = moved.table })
resume_from-MovesTo _ i s job e h = cc

process_of-parts :
    (i : String) (s : Scheduler) (place : ℕ) (process : Process)
    → process_of i s ≡ some (place, process)
    → (get? i s.procs ≡ some place) × (get_elem? s.process_heap place ≡ some process)
unfolding process_of
process_of-parts i s place process e = ground arith

process_of-frame :
    (i : String) (s t : Scheduler)
    → s.procs ≡ t.procs
    → s.process_heap ≡ t.process_heap
    → process_of i s ≡ process_of i t
unfolding process_of
process_of-frame i s t p q = rw (p, q)

signal_live :
    (change : Process → Process) (i : String) (s : Scheduler) (place : ℕ) (process : Process)
    → process_of i s ≡ some (place, process)
    → process.ended ≡ false
    → signal change i s
      ≡ (returned tt, record s { process_heap = set s.process_heap place (change process) })
unfolding signal
signal_live change i s place process e live = rw (e, live)

process_of_places :
    (i : String) (s : Scheduler) (place : ℕ) (process : Process)
    → get? i s.procs ≡ some place
    → get_elem? s.process_heap place ≡ some process
    → process_of i s ≡ some (place, process)
unfolding process_of
process_of_places i s place process p q = ground arith

-- What is left of a process by a signal: the other processes and the registry are as they were.
pub process_of-signal :
    (change : Process → Process) (i : String) (s : Scheduler) (place : ℕ) (process : Process)
    → process_of i s ≡ some (place, process)
    → process.ended ≡ false
    → process_of i (signal change i s).1 ≡ some (place, change process)
process_of-signal change i s place process e live =
    let parts = process_of-parts i s place process e in
    rw (signal_live change i s place process e live) (
      process_of_places i _ place (change process) parts.0
        (get_elem?-set-some s.process_heap place process (change process) parts.1))

resume_from-process :
    (st : JobState) (i : String) (s : Scheduler) (job : Job) (place : ℕ) (process : Process)
    → job_at i s ≡ some job
    → is_paused st ≡ true
    → process_of i s ≡ some (place, process)
    → process.ended ≡ false
    → process_of i (resume_from st i s).1 ≡ some (place, record process { stopped = false })
unfolding resume_from signal
resume_from-process paused i s job place process e h p live =
    rw
      (
        set_job_state_lem i queued [] (signal continue_process i s).1,
        jobs-signal continue_process i s,
        e,
      )
      (process_of-frame i _ _ refl refl
        ∙ process_of-signal continue_process i s place process p live)
resume_from-process _ i s job place process e h p live = cc

resume_from-refuses :
    (st : JobState) (i : String) (s : Scheduler)
    → is_paused st ≡ false
    → resume_from st i s
      ≡ (raised (ksec_error ("Cannot resume job in state " ∷ state_text st ∷ [])), s)
unfolding resume_from
resume_from-refuses paused i s h = cc
resume_from-refuses _ i s h = refl

-- `resume` of a paused job makes it queued; in every other state the call raises and changes
-- nothing. The process that the job has, if it is alive, goes on: the job waits in the queue to be
-- started while its first process runs.
pub resume_lem :
    (i : String) (s : Scheduler) (job : Job)
    → job_at i s ≡ some job
    → (is_paused job.state ≡ true
        → MovesTo i job s.jobs queued [] (resume i s)
          × ((place : ℕ) (process : Process)
              → process_of i s ≡ some (place, process)
              → process.ended ≡ false
              → process_of i (resume i s).1 ≡ some (place, record process { stopped = false })))
      × (is_paused job.state ≡ false
          → resume i s
            ≡ (raised (ksec_error ("Cannot resume job in state " ∷ state_text job.state ∷ [])), s))
unfolding resume get_job
resume_lem i s job e = rw e (
  (λ h. (
    resume_from-MovesTo job.state i s job e h,
    λ place process p live. resume_from-process job.state i s job place process e h p live,
  )),
  resume_from-refuses job.state i s,
)
