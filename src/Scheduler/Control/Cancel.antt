-- ===== src/Scheduler/Control/Cancel.antt =====
-- `cancel`, and the state machine of the control methods.
use ksec.Prelude.{
  ℕ, String, ◌≡◌, ◌⊎◌, inl, inr, refl, ap, sym, ◌∙◌, true, false, Option, none, some, List, [], ◌∷◌,
  str_eq, eq_refl, update_where, Bool-cases, Option-cases, str_eq→eq,
}
use ksec.Prelude.Dict.{put, string_eq}
use ksec.Prelude.Exec.{Outcome, returned, raised, ksec_error}
use ksec.Jobs.{
  Job, JobState, Table, Field, queued, validating, ready, running, paused, cancelling, cancelled,
  completed, failed, terminal, state_text, write, has_id, recovering, retrying, is_running,
}
use ksec.Jobs
use mathlib.Core.Path.{subst}
use ksec.Jobs.Laws.{get-update, id-write, state-write}
use ksec.Scheduler.{Scheduler, with_lock}
use ksec.Scheduler.Submit.Effect.{IsFree}
use ksec.Scheduler.Control.{
  get_job, pause, resume, cancel, cancel_from, cancel_running, flag_cancel, kill_process,
}
use ksec.Scheduler.Control.Moves.{
  MovesTo, job_at, set_job_state_lem, pausable, is_paused, pause_lem, resume_lem, signal_frame,
}

pub running_not_terminal : (st : JobState) → is_running st ≡ true → terminal st ≡ false
running_not_terminal running h = refl
running_not_terminal _ h = cc

pausable_not_terminal : (st : JobState) → pausable st ≡ true → terminal st ≡ false
pausable_not_terminal completed h = cc
pausable_not_terminal failed h = cc
pausable_not_terminal cancelled h = cc
pausable_not_terminal _ h = refl

paused_not_terminal : (st : JobState) → is_paused st ≡ true → terminal st ≡ false
paused_not_terminal paused h = refl
paused_not_terminal _ h = cc

flag_cancel_lem :
    (i : String) (s : Scheduler)
    → IsFree s
    → flag_cancel i s
      ≡ (returned tt, record s { cancel_flags = put i true s.cancel_flags; lock_held = false })
unfolding flag_cancel with_lock
flag_cancel_lem i s free = rw free

get-moved :
    (i : String) (st : JobState) (fs : List Field) (jobs : Table) (job : Job)
    → Jobs.get i jobs ≡ some job
    → Jobs.get i (update_where (has_id i) (write st fs) jobs) ≡ some (write st fs job)
get-moved i st fs jobs job e =
    get-update i i (write st fs) jobs (id-write st fs) ∙ (rw (e, eq_refl i))

cancel_running-MovesTo :
    (i : String) (s : Scheduler) (job : Job)
    → IsFree s
    → job_at i s ≡ some job
    → MovesTo i job s.jobs cancelling [] (cancel_running i s)
      × ((cancel_running i s).1.cancel_flags ≡ put i true s.cancel_flags)
unfolding cancel_running
cancel_running-MovesTo i s job free e =
    let s1 = record s { cancel_flags = put i true s.cancel_flags; lock_held = false } in
    let s2 = record s1 { jobs = update_where (has_id i) (write cancelling []) s.jobs } in
    let killed = signal_frame kill_process i s2 in
    rw
      (
        flag_cancel_lem i s free,
        set_job_state_lem i cancelling [] s1,
        e,
        killed.0,
        killed.1,
        get-moved i cancelling [] s.jobs job e,
      )
      (record { answer = refl; table = killed.1 }, killed.2)

-- `cancel` of a known job, with the lock free. A job that has ended is answered as it is, and
-- nothing changes. A running job becomes cancelling and its cancel flag is set. Any other job
-- becomes cancelled with the time of the call, and the cancel flags, the processes and their
-- registry stay as they are.
pub cancel_lem :
    (i : String) (now : ℕ) (s : Scheduler) (job : Job)
    → IsFree s
    → job_at i s ≡ some job
    → (terminal job.state ≡ true → cancel i now s ≡ (returned job, s))
      × (is_running job.state ≡ true
          → MovesTo i job s.jobs cancelling [] (cancel i now s)
            × ((cancel i now s).1.cancel_flags ≡ put i true s.cancel_flags))
      × (terminal job.state ≡ false
          → is_running job.state ≡ false
          → cancel i now s ≡ (
            returned (write cancelled (Field.completed_at now ∷ []) job),
            record s {
              jobs = update_where (has_id i) (write cancelled (Field.completed_at now ∷ [])) s.jobs;
            },
          ))
unfolding cancel get_job cancel_from
cancel_lem i now s job free e = rw e (
  (λ ended. rw ended),
  (λ runs. rw (running_not_terminal job.state runs, runs) (cancel_running-MovesTo i s job free e)),
  (λ open_state waits.
      rw (open_state, waits, set_job_state_lem i cancelled (Field.completed_at now ∷ []) s, e)),
)

-- The control methods as requests.
pub data Request : Type 0 where
  pause_it resume_it : Request
  cancel_it : ℕ → Request

unfoldable pub perform : Request → String → Scheduler → Outcome Job × Scheduler
perform pause_it i s = pause i s
perform resume_it i s = resume i s
perform (cancel_it now) i s = cancel i now s

-- The moves between states that the control methods make.
pub data Move : JobState → JobState → Type 0 where
  pauses : {a : JobState} → pausable a ≡ true → Move a paused
  resumes : {a : JobState} → is_paused a ≡ true → Move a queued
  flags : {a : JobState} → is_running a ≡ true → Move a cancelling
  cancels : {a : JobState} → terminal a ≡ false → is_running a ≡ false → Move a cancelled

-- A job that was there is there still, and is the same one or has made a move.
abbrev pub StepsAt : String → Job → Scheduler → Type 0
StepsAt j job s' =
    (job' : Job) × (job_at j s' ≡ some job') × ((job' ≡ job) ⊎ Move job.state job'.state)

stays : (j : String) (job : Job) (s : Scheduler) → job_at j s ≡ some job → StepsAt j job s
stays j job s e = (job, e, inl refl)

abbrev state_of : Option Job → JobState
state_of none = queued
state_of (some job) = job.state

same_state-Move :
    (i j : String) (mover job : Job) (s : Scheduler) (st : JobState)
    → str_eq i j ≡ true
    → job_at i s ≡ some mover
    → job_at j s ≡ some job
    → Move mover.state st
    → Move job.state st
same_state-Move i j mover job s st same ei ej move =
    subst (λ (k : JobState). Move k st)
      (ap (λ (o : Option Job). state_of o)
        (sym ei ∙ (ap (λ (k : String). job_at k s) (str_eq→eq i j same) ∙ ej)))
      move

moves :
    (i j : String) (mover job : Job) (st : JobState) (fs : List Field) (s : Scheduler)
    (r : Outcome Job × Scheduler)
    → job_at i s ≡ some mover
    → job_at j s ≡ some job
    → MovesTo i mover s.jobs st fs r
    → Move mover.state st
    → StepsAt j job r.1
moves i j mover job st fs s r ei ej moved move = elim (Bool-cases (str_eq i j)) [
  | inl same ↦ (
    (write st fs job),
    rw (moved.table, get-update j i (write st fs) s.jobs (id-write st fs), same, ej),
    inr (rw (state-write st fs job) (same_state-Move i j mover job s st same ei ej move)),
  )
  | inr other ↦ (
    job,
    rw (moved.table, get-update j i (write st fs) s.jobs (id-write st fs), other, ej),
    inl refl,
  )
]

unknown :
    (req : Request) (i : String) (s : Scheduler)
    → job_at i s ≡ none
    → perform req i s ≡ (raised (ksec_error ("Unknown job: " ∷ i ∷ [])), s)
unfolding perform pause resume cancel get_job
unknown pause_it i s h = rw h
unknown resume_it i s h = rw h
unknown (cancel_it now) i s h = rw h

known :
    (req : Request) (i j : String) (s : Scheduler) (mover job : Job)
    → IsFree s
    → job_at i s ≡ some mover
    → job_at j s ≡ some job
    → StepsAt j job (perform req i s).1
unfolding perform
known pause_it i j s mover job free ei ej = elim (Bool-cases (pausable mover.state)) [
  | inl good ↦
      moves i j mover job paused [] s (pause i s) ei ej ((pause_lem i s mover ei).0 good)
        (Move.pauses good)
  | inr bad ↦ rw ((pause_lem i s mover ei).1 bad) (stays j job s ej)
]
known resume_it i j s mover job free ei ej = elim (Bool-cases (is_paused mover.state)) [
  | inl good ↦
      moves i j mover job queued [] s (resume i s) ei ej ((resume_lem i s mover ei).0 good).0
        (Move.resumes good)
  | inr bad ↦ rw ((resume_lem i s mover ei).1 bad) (stays j job s ej)
]
known (cancel_it now) i j s mover job free ei ej =
    let (ended, flagged, waiting) = cancel_lem i now s mover free ei in
    elim (Bool-cases (terminal mover.state)) [
      | inl over ↦ rw (ended over) (stays j job s ej)
      | inr live ↦ elim (Bool-cases (is_running mover.state)) [
        | inl runs ↦
            moves i j mover job cancelling [] s (cancel i now s) ei ej (flagged runs).0
              (Move.flags runs)
        | inr idle ↦
            moves i j mover job cancelled (Field.completed_at now ∷ []) s (cancel i now s) ei ej
              (rw (waiting live idle) (record { answer = refl; table = refl }))
              (Move.cancels live idle)
      ]
    ]

-- Whatever request a user makes of whatever job, with the lock free: every job of the table is
-- afterwards the same, or it has made one of the moves of `Move`.
pub perform-StepsAt :
    (req : Request) (i j : String) (s : Scheduler) (job : Job)
    → IsFree s
    → job_at j s ≡ some job
    → StepsAt j job (perform req i s).1
perform-StepsAt req i j s job free ej = elim (Option-cases (job_at i s)) [
  | inl absent ↦ rw (unknown req i s absent) (stays j job s ej)
  | inr (mover, ei) ↦ known req i j s mover job free ei ej
]

-- No move starts from a state in which a job has ended.
pub Move-not_terminal : {a b : JobState} → Move a b → terminal a ≡ false
Move-not_terminal {a} (Move.pauses h) = pausable_not_terminal a h
Move-not_terminal {a} (Move.resumes h) = paused_not_terminal a h
Move-not_terminal {a} (Move.flags h) = running_not_terminal a h
Move-not_terminal (Move.cancels h _) = h
