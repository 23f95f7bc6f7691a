-- ===== src/Examples/Plans.antt =====
-- Workflows on small data.
use ksec.Prelude.{
  ℕ, zero, suc, ◌<◌, ◌≡◌, refl, false, none, some, List, [], ◌∷◌, length, ltb, find?, any, select,
  arith, All, update_where,
}
use ksec.Prelude.Dict.{get?, string_eq}
use ksec.Prelude.Int.{pos}
use ksec.Prelude.Json.{end}
use ksec.Prelude.Exec.{Exec, returned, raised, ksec_error}
use ksec.Capabilities.{capability_permission}
use ksec.Jobs.{Job, JobState, Spec, new_job}
use ksec.Rbac.{user_has_permission, role_has_permission}
use ksec.Policies.{
  Engine, evaluate, check_account, session_answer, check_permission, scope_answer, lab_answer,
  check_safety,
}
use ksec.Workflows.{
  WorkflowStep, WorkflowDefinition, Edge, step_name, by_name, edges_into, edges_from, edges,
  indegree, successors, range_from, release, drain, topological_order,
}
use ksec.Workflows.Rounds.{count, one_if, Before}
use ksec.Workflows.Order.{final, final-ready, count-topological_order, topological_order-Before}
use ksec.Workflows.Engine.{
  Services, Request, WorkflowEngine, WorkflowRun, ordered, steps_at, submit_with_retry, settle,
  run_step, run_steps, finish, field_or, run,
}
use ksec.Workflows.Runs.{AllDone, begun, run-completed}
use ksec.Workflows.Failures.{FailedWith, run-raised}

abbrev report : WorkflowStep
report = record {
  capability = "test_scan";
  options = end;
  name = some "report";
  depends_on = "scan" ∷ [];
  retry = 0;
}

abbrev scan : WorkflowStep
scan = record {
  capability = "port_scan";
  options = end;
  name = some "scan";
  depends_on = [];
  retry = 1;
}

abbrev steps : List WorkflowStep
steps = report ∷ scan ∷ []

order : topological_order steps ≡ 1 ∷ 0 ∷ []
unfolding topological_order edges_from edges_into by_name step_name indegree successors range_from
    release drain select any
order = refl

final-ready_example : (final steps).ready ≡ []
final-ready_example = final-ready steps

count-topological_order_example : count 1 (topological_order steps) ≡ one_if (ltb 1 (length steps))
count-topological_order_example = count-topological_order steps 1

-- The report comes after the scan.
abbrev rank : ℕ → ℕ
rank zero = 1
rank (suc n) = 0

ranked : All (λ (e : Edge). rank e.0 < rank e.1) (edges steps)
unfolding edges_from edges_into by_name step_name
ranked = (omega arith, tt)

topological_order-Before_example : Before (edges steps) [] (topological_order steps)
topological_order-Before_example = topological_order-Before steps rank ranked

abbrev definition : WorkflowDefinition
definition = record { name = "recon"; description = ""; steps = steps; version = 1 }

abbrev request : Request
request = record {
  user = record { id = 1; username = "ada"; status = "active" };
  session = none;
  target = "web.lab.test";
  engagement_id = none;
}

abbrev policy : Engine
policy = record {
  settings = record {
    require_authorization = false;
    lab_mode = false;
    read_only = false;
    safe_mode = false;
  };
  library = record {
    split_url = λ t. none;
    is_address = λ t. false;
    in_network = λ target pattern. none;
    from_iso = λ t. none;
  };
  tables = record {
    users = 1 ∷ [];
    workspaces = [];
    roles = record { id = 3; name = "analyst" } ∷ [];
    permissions = record { id = 5; name = "assess.run" } ∷ [];
    role_permissions = record { role_id = 3; permission_id = 5 } ∷ [];
    user_roles = record { user_id = 1; role_id = 3 } ∷ [];
  };
  authorizations = record {
    engagements = [];
    rules = [];
    next_engagement = 1;
    next_rule = 1;
    audit_log = [];
  };
  now = 0;
}

abbrev done_job : Spec → Job
done_job spec = record (new_job "j" 1 spec) { state = JobState.completed }

-- Services whose jobs complete at once; the world is the last job.
abbrev services : Services Job
services = record {
  policy = λ w. policy;
  submit = λ spec w. (returned (done_job spec), done_job spec);
  wait_for = λ job_id w. (returned w, w);
  ingest = λ job engagement_id w. (returned tt, w);
}

abbrev idle : Job
idle = done_job (record {
  capability = "";
  target = "";
  options = end;
  session_id = none;
  user_id = none;
  workspace = "";
  workflow = "";
  priority = pos 0;
})

abbrev before : WorkflowEngine Job
before = record { world = idle; runs = []; outcomes = [] }

abbrev result_of : Exec (WorkflowEngine Job) WorkflowRun → WorkflowEngine Job → WorkflowRun
result_of m s = elim (m s).0 [
  | returned result ↦ result
  | _ ↦ record { run_id = ""; workflow = ""; target = ""; status = ""; steps = []; error = [] }
]

abbrev completed_run : WorkflowRun
completed_run = result_of (run services definition request "r") before

-- All that the runs of these examples compute.
unfoldable runs : Unit {0}
unfolding run finish ordered steps_at submit_with_retry settle run_step run_steps field_or evaluate
    check_account session_answer check_permission scope_answer lab_answer check_safety
    user_has_permission role_has_permission capability_permission get? update_where
    topological_order edges_from edges_into by_name step_name indegree successors range_from release
    drain select any find?
runs = tt

run_returned :
    ((run services definition request "r" before).0 ≡ returned completed_run)
    × (completed_run.status ≡ "completed")
unfolding runs
run_returned = (refl, refl)

run-completed_example :
    AllDone services definition request
      (ordered definition)
      (begun services definition request "r" before)
      completed_run.steps
run-completed_example =
    run-completed services definition request "r" before completed_run run_returned.0 run_returned.1

-- Services whose scheduler is stopped.
abbrev stopped : Services Job
stopped = record services { submit = λ spec w. (raised (ksec_error ("stopped" ∷ [])), w) }

loop_raised :
    (run_steps stopped definition request
      (ordered definition)
      (begun stopped definition request "r" before)).0
    ≡ raised (ksec_error ("stopped" ∷ []))
unfolding runs
loop_raised = refl

run-raised_example :
    FailedWith stopped definition request
      (ksec_error ("stopped" ∷ []))
      "r"
      (run_steps stopped definition request
        (ordered definition)
        (begun stopped definition request "r" before)).1
      (run stopped definition request "r" before)
run-raised_example =
    run-raised stopped definition request "r" before (ksec_error ("stopped" ∷ [])) loop_raised
