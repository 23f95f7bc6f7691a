-- ===== src/Scheduler/Submit/Retry.antt =====
-- What a retry leaves in the table.
use ksec.Prelude.{
  String, ◌≡◌, refl, ◌∙◌, true, false, none, any, some, [], ◌∷◌, ◌++◌, Bool-cases, Option-cases,
  inl, inr,
}
use ksec.Prelude.Exec.{Exec, Outcome, returned, raised, blocked, continue, pure, ◌>>◌}
use ksec.Prelude.Json.{end}
use ksec.Prelude.Strings.{◌<>◌}
use ksec.Jobs.{Job, JobState, has_id, terminal}
use ksec.Jobs
use ksec.Scheduler.{Scheduler, Env, audit}
use ksec.Scheduler.Submit.{Readings, submit, retry, retry_spec, retry_event}
use ksec.Scheduler.Submit.Effect.{IsFree, IsNewJob, submit_returned, raised-ne-returned}

-- `retry` behind its submission.
abbrev noted : Env → String → Job → Job → Exec Scheduler Job
noted env i old job = do audit env (retry_event i old job); pure job

continue-noted :
    (env : Env) (i : String) (old : Job) (o : Outcome Job) (t : Scheduler) (job : Job)
    → (continue o (noted env i old) t).0 ≡ returned job
    → (o ≡ returned job) × ((continue o (noted env i old) t).1.jobs ≡ t.jobs)
unfolding audit
continue-noted env i old (returned new) t job h = (h, refl)
continue-noted env i old (raised e) t job h = cc
continue-noted env i old blocked t job h = cc

-- What a retry asks for: the old job's work, for the same caller, marked as a retry of it.
pub record IsRetryOf (i : String) (old job : Job) : Type 0 where
  pub state : job.state ≡ JobState.queued
  pub capability : job.capability ≡ old.capability
  pub target : job.target ≡ old.target
  pub options : job.options ≡ old.options
  pub session_id : job.session_id ≡ old.session_id
  pub user_id : job.user_id ≡ old.user_id
  pub workspace : job.workspace ≡ old.workspace
  pub priority : job.priority ≡ old.priority
  pub workflow : job.workflow ≡ "retry:" <> i
  pub started_at : job.started_at ≡ none
  pub completed_at : job.completed_at ≡ none
  pub exit_code : job.exit_code ≡ none
  pub error : job.error ≡ ""
  pub result : job.result ≡ end

IsNewJob-IsRetryOf :
    (r : Readings) (i : String) (old job : Job)
    → IsNewJob r (retry_spec i old) job
    → IsRetryOf i old job
IsNewJob-IsRetryOf r i old job new = record {
  state = new.state;
  capability = new.capability;
  target = new.target;
  options = new.options;
  session_id = new.session_id;
  user_id = new.user_id;
  workspace = new.workspace;
  priority = new.priority;
  workflow = new.workflow;
  started_at = new.started_at;
  completed_at = new.completed_at;
  exit_code = new.exit_code;
  error = new.error;
  result = new.result;
}

-- A retry that answers with a job, the lock having been free, found the old job in an end state. It
-- puts a new job behind the rows of the table, which stay: its id is the one that was read and that
-- no row had, it is queued, it has the old job's capability, target, options, session, user,
-- workspace and priority, its workflow names the old job, and it has nothing of the old run.
pub retry_returned :
    (env : Env) (r : Readings) (i : String) (s : Scheduler) (job : Job)
    → IsFree s
    → (retry env r i s).0 ≡ returned job
    → (old : Job) × (Jobs.get i s.jobs ≡ some old)
      × (terminal old.state ≡ true)
      × IsRetryOf i old job
      × (job.id ≡ r.job_id)
      × (any (has_id r.job_id) s.jobs ≡ false)
      × ((retry env r i s).1.jobs ≡ s.jobs ++ job ∷ [])
unfolding retry
retry_returned env r i s job free h = elim (Option-cases (Jobs.get i s.jobs)) [
  | inl gone ↦ absurd (raised-ne-returned (rw gone at h))
  | inr (old, known) ↦ elim (Bool-cases (terminal old.state)) [
    | inr live ↦ absurd (raised-ne-returned (rw (known, live) at h))
    | inl over ↦
        let done =
          continue-noted env i old (submit env r (retry_spec i old) s).0
            (submit env r (retry_spec i old) s).1 job (rw (known, over) at h) in
        let facts = submit_returned env r (retry_spec i old) s job free done.0 in
        (
          old,
          known,
          over,
          IsNewJob-IsRetryOf r i old job facts.1,
          facts.1.id,
          facts.2,
          rw (known, over) (done.1 ∙ facts.4),
        )
  ]
]
