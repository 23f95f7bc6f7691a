-- ===== src/Workflows/Engine.antt =====
-- workflows/engine.py: a run of a workflow, with the policy check before each step and the retries.
-- The scheduler and the correlation, which change a world of their own, are an interface.
use ksec.Prelude.{
  ℕ, zero, suc, String, Bool, true, false, Option, none, some, List, [], ◌∷◌, ◌++◌, length, str_eq,
  select, update_where, get_elem?, if◌then◌else◌,
}
use ksec.Prelude.Int.{pos}
use ksec.Prelude.Json.{Json, Fields, end, field}
use ksec.Prelude.Exec.{Exec, Message, message, pure, modify, gets, try_except, ◌>>=◌, ◌>>◌}
use ksec.Jobs.{Job, JobState, Spec}
use ksec.Sessions.{User, Session}
use ksec.Policies.{Decision, PolicyResult, Query, evaluate}
use ksec.Policies as Policies
use ksec.Capabilities.{capability_permission}
use ksec.Workflows.{WorkflowStep, WorkflowDefinition, topological_order}

-- What a run asks of the rest: the tables that the policy engine reads, `scheduler.submit`,
-- `scheduler.wait_for`, and `correlation.ingest_entities` for the entities of a job, which does
-- nothing where there is no correlation.
pub record Services (W : Type 0) : Type 0 where
  pub policy : W → Policies.Engine
  pub submit : Spec → Exec W Job
  pub wait_for : String → Exec W Job
  pub ingest : Job → Option ℕ → Exec W (Unit {0})

-- The state of a step: "planned", "blocked", or that of its job.
pub data StepState : Type 0 where
  planned blocked_by_policy : StepState
  of_job : JobState → StepState

pub record StepOutcome : Type 0 where
  pub capability : String
  pub policy_decision : Decision
  pub policy_reason : Message
  pub job_id : Option String
  pub state : StepState
  pub error : Message
  pub entities : Json

pub record WorkflowRun : Type 0 where
  pub run_id : String
  pub workflow : String
  pub target : String
  pub status : String
  pub steps : List StepOutcome
  pub error : Message

-- A row of the table `workflow_runs`, without its times, its error and the snapshot of the definition.
pub record RunRow : Type 0 where
  pub id : String
  pub workflow : String
  pub target : String
  pub engagement_id : Option ℕ
  pub session_id : Option String
  pub user_id : ℕ
  pub status : String
  pub steps_total : ℕ
  pub steps_completed : ℕ
  pub definition_version : ℕ

-- The arguments of `run` by name.
pub record Request : Type 0 where
  pub user : User
  pub session : Option Session
  pub target : String
  pub engagement_id : Option ℕ

-- The world, the table of runs and the list `outcomes` of the run.
pub record WorkflowEngine (W : Type 0) : Type 0 where
  pub world : W
  pub runs : List RunRow
  pub outcomes : List StepOutcome

abbrev pub is_allow : Decision → Bool
is_allow Decision.allow = true
is_allow _ = false

abbrev pub is_completed : JobState → Bool
is_completed JobState.completed = true
is_completed _ = false

-- `fields.get(key, default)`
unfoldable pub field_or : String → Json → Fields → Json
field_or key default end = default
field_or key default (field k value rest) =
    if str_eq k key then value else field_or key default rest

abbrev pub query_of : Request → WorkflowStep → Query
query_of r step = record {
  user = r.user;
  action = capability_permission step.capability;
  session = r.session;
  target = some r.target;
  engagement_id = r.engagement_id;
}

abbrev pub session_id_of : Option Session → Option String
session_id_of none = none
session_id_of (some session) = some session.id

abbrev pub workspace_of : Option Session → String
workspace_of none = ""
workspace_of (some session) = session.workspace

abbrev pub spec_of : WorkflowDefinition → Request → WorkflowStep → Spec
spec_of definition r step = record {
  capability = step.capability;
  target = r.target;
  options = step.options;
  session_id = session_id_of r.session;
  user_id = some r.user.id;
  workspace = workspace_of r.session;
  workflow = definition.name;
  priority = pos 0;
}

abbrev pub planned_step : Policies.Engine → Request → WorkflowStep → StepOutcome
planned_step engine r step =
    let result = evaluate engine (query_of r step) in
    record {
      capability = step.capability;
      policy_decision = result.decision;
      policy_reason = result.reason;
      job_id = none;
      state = planned;
      error = [];
      entities = Json.int (pos 0);
    }

unfoldable pub plan_steps : Policies.Engine → Request → List WorkflowStep → List StepOutcome
plan_steps engine r [] = []
plan_steps engine r (step ∷ steps) = planned_step engine r step ∷ plan_steps engine r steps

unfoldable pub plan : Policies.Engine → Request → WorkflowDefinition → List StepOutcome
plan engine r definition = plan_steps engine r definition.steps

-- The steps at given places.
unfoldable pub steps_at : List ℕ → List WorkflowStep → List WorkflowStep
steps_at [] steps = []
steps_at (i ∷ is) steps = elim (get_elem? steps i) [
  | none ↦ steps_at is steps
  | some step ↦ step ∷ steps_at is steps
]

-- What the calls of `_topological_order` answer, as the steps themselves.
unfoldable pub ordered : WorkflowDefinition → List WorkflowStep
ordered definition = steps_at (topological_order definition.steps) definition.steps

module _ {W : Type 0} (svc : Services W) (definition : WorkflowDefinition) (r : Request) where
  -- The loop of `_submit_with_retry`, with so many retries left; its sleep is left out.
  unfoldable pub submit_with_retry : ℕ → WorkflowStep → Exec W (Job × Job)
  submit_with_retry zero step = do
    job ← svc.submit (spec_of definition r step)
    done ← svc.wait_for job.id
    pure (job, done)
  submit_with_retry (suc retries) step = do
    job ← svc.submit (spec_of definition r step)
    done ← svc.wait_for job.id
    elim (is_completed done.state) [
      | true ↦ pure (job, done)
      | false ↦ submit_with_retry retries step
    ]

  abbrev pub on_world : {A : Type 0} → Exec W A → Exec (WorkflowEngine W) A
  on_world m s = let (o, w) = m s.world in (o, record s { world = w })

  abbrev pub note_outcome : StepOutcome → Exec (WorkflowEngine W) (Unit {0})
  note_outcome o = modify (λ s. record s { outcomes = s.outcomes ++ o ∷ [] })

  abbrev pub blocked_step : WorkflowStep → PolicyResult → StepOutcome
  blocked_step step result = record {
    capability = step.capability;
    policy_decision = result.decision;
    policy_reason = result.reason;
    job_id = none;
    state = blocked_by_policy;
    error = result.reason;
    entities = Json.int (pos 0);
  }

  abbrev pub performed_step : WorkflowStep → PolicyResult → Job → Job → StepOutcome
  performed_step step result job done = record {
    capability = step.capability;
    policy_decision = Decision.allow;
    policy_reason = result.reason;
    job_id = some job.id;
    state = of_job done.state;
    error = done.error ∷ [];
    entities = field_or "entity_count" (Json.int (pos 0)) done.result;
  }

  -- The rest of a round once the job of the step has ended: `none` where the loop goes on, else the
  -- error of the run.
  unfoldable pub settle :
      WorkflowStep → PolicyResult → Job × Job → Exec (WorkflowEngine W) (Option Message)
  settle step result (job, done) = do
    on_world (if is_completed done.state then svc.ingest done r.engagement_id else pure tt)
    note_outcome (performed_step step result job done)
    pure (if is_completed done.state then none else some (done.error ∷ []))

  -- One round of the loop over the steps.
  unfoldable pub run_step : WorkflowStep → Exec (WorkflowEngine W) (Option Message)
  run_step step s =
      let result = evaluate (svc.policy s.world) (query_of r step) in
      if is_allow result.decision
      then (on_world (submit_with_retry step.retry step) >>= settle step result) s
      else (note_outcome (blocked_step step result) >> pure (some result.reason)) s

  unfoldable pub run_steps : List WorkflowStep → Exec (WorkflowEngine W) (String × Message)
  run_steps [] = pure ("completed", [])
  run_steps (step ∷ steps) = do
    stopped ← run_step step
    elim stopped [ some reason ↦ pure ("failed", reason) | none ↦ run_steps steps ]

  abbrev pub is_run : String → RunRow → Bool
  is_run run_id row = str_eq row.id run_id

  abbrev pub step_completed : StepOutcome → Bool
  step_completed o = elim o.state [ of_job state ↦ is_completed state | _ ↦ false ]

  abbrev pub finished : String → List StepOutcome → RunRow → RunRow
  finished status outcomes row = record row {
    status = status;
    steps_completed = length (select step_completed outcomes);
  }

  -- `_finish`
  unfoldable pub finish : String → String × Message → Exec (WorkflowEngine W) WorkflowRun
  finish run_id (status, error) = do
    modify
        (λ s. record s { runs = update_where (is_run run_id) (finished status s.outcomes) s.runs })
    outcomes ← gets (λ s. s.outcomes)
    pure (record {
      run_id = run_id;
      workflow = definition.name;
      target = r.target;
      status = status;
      steps = outcomes;
      error = error;
    })

  abbrev pub new_run : String → RunRow
  new_run run_id = record {
    id = run_id;
    workflow = definition.name;
    target = r.target;
    engagement_id = r.engagement_id;
    session_id = session_id_of r.session;
    user_id = r.user.id;
    status = "running";
    steps_total = length definition.steps;
    steps_completed = 0;
    definition_version = definition.version;
  }

  unfoldable pub run : String → Exec (WorkflowEngine W) WorkflowRun
  run run_id = do
    modify (λ s. record s { runs = s.runs ++ new_run run_id ∷ []; outcomes = [] })
    ended ← try_except (run_steps (ordered definition)) (λ e. pure ("failed", message e))
    finish run_id ended
