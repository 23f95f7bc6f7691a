-- ===== src/Scheduler/Run/Close.antt =====
-- How a run ends.
use ksec.Prelude.{
  ℕ, String, ◌≡◌, refl, ◌∙◌, Bool, true, false, Option, none, some, List, [], ◌∷◌, eq_refl,
  update_where, if◌then◌else◌, cut, Bool-cases, inl, inr,
}
use ksec.Prelude.Int.{ℤ, pos}
use ksec.Prelude.Dict.{get?, remove, string_eq}
use ksec.Prelude.Exec.{Outcome, returned, raised, blocked}
use ksec.Prelude.Json.{Json}
use ksec.Jobs.{
  Job, JobState, Table, Field, Spec, completed, failed, cancelled, paused, terminal, is_running,
  write, has_id,
}
use ksec.Jobs
use ksec.Jobs.Laws.{get-update, id-write, set_state_lem}
use ksec.Scheduler.{Scheduler, Env, Adapter, with_lock, on_jobs}
use ksec.Scheduler.Submit.Effect.{IsFree}
use ksec.Scheduler.Control.{cancel}
use ksec.Scheduler.Control.Moves.{job_at, set_job_state_lem, is_paused}
use ksec.Scheduler.Control.Cancel.{cancel_lem}
use ksec.Scheduler.Run.{
  is_cancelled, fail_job, Polled, timed_out, cancel_seen, exited, Closing, close_run, end_run,
  outcome, failure_text, succeeded, parsed_stream, complete_parsed,
}
use ksec.Prelude.Strings.Decimal.{show}
use ksec.Scheduler.{text}

-- Whether the cancel flag of a job is set.
abbrev pub flagged : String → Scheduler → Bool
flagged i s = elim (get? i s.cancel_flags) [ none ↦ false | some flag ↦ flag ]

-- The fields that a failure writes.
abbrev pub failure : String → Option ℤ → ℕ → List Field
failure message code now =
    Field.error (cut 2000 message) ∷ Field.exit_code code ∷ Field.completed_at now ∷ []

-- The row that a completed run writes.
abbrev pub completion : Closing → String → String → ℤ → List Json → JobState × List Field
completion io out err code entities = (
  completed,
  Field.result (outcome entities io out err code)
      ∷ Field.exit_code (some (pos 0))
      ∷ Field.completed_at io.completed
      ∷ [],
)

abbrev pub map_returned : {A B : Type 0} → (A → B) → Outcome A → Outcome B
map_returned f (returned a) = returned (f a)
map_returned f (raised e) = raised e
map_returned f blocked = blocked

-- The final state of a run and the fields that go with it; after the exit code zero, the parser's
-- error where it raises one.
abbrev pub verdict : Env → Adapter → Closing → Polled → Bool → Outcome (JobState × List Field)
verdict env adapter io polled true = returned (cancelled, Field.completed_at io.completed ∷ [])
verdict env adapter io cancel_seen false =
    returned (cancelled, Field.completed_at io.completed ∷ [])
verdict env adapter io timed_out false = returned (
  failed,
  failure (text ("Timed out after " ∷ show env.config.default_timeout_seconds ∷ "s" ∷ [])) none
      io.completed,
)
verdict env adapter io (exited out err code) false =
    if succeeded code
    then map_returned (completion io out err code)
        (adapter.parse_output (parsed_stream adapter out err))
    else returned (failed, failure (failure_text err code) (some code) io.completed)

-- The table behind a verdict: one write of the job's rows, or none where there is an error.
abbrev pub recorded : String → Outcome (JobState × List Field) → Table → Table
recorded i (returned (st, fs)) jobs = update_where (has_id i) (write st fs) jobs
recorded i (raised e) jobs = jobs
recorded i blocked jobs = jobs

complete_parsed_lem :
    (io : Closing) (i out err : String) (code : ℤ) (parsed : Outcome (List Json)) (s : Scheduler)
    (job : Job)
    → job_at i s ≡ some job
    → complete_parsed io i out err code parsed s ≡ (
      map_returned (λ _. tt) (map_returned (completion io out err code) parsed),
      record s { jobs = recorded i (map_returned (completion io out err code) parsed) s.jobs },
    )
unfolding complete_parsed on_jobs Jobs.complete
complete_parsed_lem io i out err code (returned entities) s job e = rw (set_state_lem, e)
complete_parsed_lem io i out err code (raised x) s job e = refl
complete_parsed_lem io i out err code blocked s job e = refl

-- A run ends by one write to its job, or by the parser's error.
close_run_lem :
    (env : Env) (adapter : Adapter) (io : Closing) (i : String) (polled : Polled) (stop : Bool)
    (s : Scheduler) (job : Job)
    → job_at i s ≡ some job
    → close_run env adapter io i polled stop s ≡ (
      map_returned (λ _. tt) (verdict env adapter io polled stop),
      record s { jobs = recorded i (verdict env adapter io polled stop) s.jobs },
    )
unfolding close_run fail_job on_jobs Jobs.fail
close_run_lem env adapter io i polled true s job e = rw (set_job_state_lem, e)
close_run_lem env adapter io i cancel_seen false s job e = rw (set_job_state_lem, e)
close_run_lem env adapter io i timed_out false s job e = rw (set_state_lem, e)
close_run_lem env adapter io i (exited out err code) false s job e =
    elim (Bool-cases (succeeded code)) [
      | inl good ↦ rw good (
          complete_parsed_lem io i out err code
            (adapter.parse_output (parsed_stream adapter out err)) s job e)
      | inr bad ↦ rw (bad, set_state_lem, e)
    ]

-- A run whose loop has ended, with the lock free, forgets its process, writes its job at most once
-- and keeps the rest. The job becomes cancelled if the loop saw the cancel flag or the flag is set
-- now; else failed after the deadline or an exit code other than zero; else the exit code is zero,
-- the adapter parses the output, and the job becomes completed with what it found, whatever state
-- the job was in before. Where the parser raises, its error leaves the run and no job is written.
pub end_run_lem :
    (env : Env) (adapter : Adapter) (io : Closing) (i : String) (polled : Polled) (s : Scheduler)
    (job : Job)
    → IsFree s
    → job_at i s ≡ some job
    → end_run env adapter io i polled s ≡ (
      map_returned (λ _. tt) (verdict env adapter io polled (flagged i s)),
      record s {
        jobs = recorded i (verdict env adapter io polled (flagged i s)) s.jobs;
        procs = remove i s.procs;
        lock_held = false;
      },
    )
unfolding end_run is_cancelled with_lock
end_run_lem env adapter io i polled s job free e = rw (
  free,
  close_run_lem env adapter io i polled (flagged i s)
      (record s { procs = remove i s.procs; lock_held = false }) job e,
)

after_write :
    (i : String) (st : JobState) (fs : List Field) (jobs : Table) (job : Job)
    → Jobs.get i jobs ≡ some job
    → Jobs.get i (update_where (has_id i) (write st fs) jobs) ≡ some (write st fs job)
after_write i st fs jobs job e =
    get-update i i (write st fs) jobs (id-write st fs) ∙ (rw (e, eq_refl i))

paused_open :
    (st : JobState) → is_paused st ≡ true → (terminal st ≡ false) × (is_running st ≡ false)
paused_open paused h = (refl, refl)
paused_open _ h = cc

-- A paused job that was cancelled does not stay so. Its cancel flag is not set and its process is
-- not killed, so at the deadline of the run that was stopped the cancelled job becomes failed.
pub cancelled_becomes_failed :
    (env : Env) (adapter : Adapter) (io : Closing) (i : String) (now : ℕ) (s : Scheduler)
    (job : Job)
    → IsFree s
    → job_at i s ≡ some job
    → is_paused job.state ≡ true
    → flagged i s ≡ false
    → (job' job'' : Job) × (job_at i (cancel i now s).1 ≡ some job')
      × (job'.state ≡ cancelled)
      × (job_at i (end_run env adapter io i timed_out (cancel i now s).1).1 ≡ some job'')
      × (job''.state ≡ failed)
cancelled_becomes_failed env adapter io i now s job free e is_p unset =
    let cancelled_job = write cancelled (Field.completed_at now ∷ []) job in
    let s1 = record s {
      jobs = update_where (has_id i) (write cancelled (Field.completed_at now ∷ [])) s.jobs;
    } in
    let open_state = paused_open job.state is_p in
    let done = (cancel_lem i now s job free e).2 open_state.0 open_state.1 in
    let there = after_write i cancelled (Field.completed_at now ∷ []) s.jobs job e in
    let ends = end_run_lem env adapter io i timed_out s1 cancelled_job free there in
    let over =
      failure (text ("Timed out after " ∷ show env.config.default_timeout_seconds ∷ "s" ∷ [])) none
        io.completed in
    (
      cancelled_job,
      write failed over cancelled_job,
      rw done there,
      refl,
      rw (done, ends, unset) (after_write i failed over s1.jobs cancelled_job there),
      refl,
    )
