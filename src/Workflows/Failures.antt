-- ===== src/Workflows/Failures.antt =====
-- What a run of a workflow makes of an error.
use ksec.Prelude.{String, ◌≡◌, refl, str_eq, length, select, update_where}
use ksec.Prelude.Exec.{Outcome, Message, Error, returned, raised, continue, on_error, message, pure}
use ksec.Workflows.{WorkflowDefinition}
use ksec.Workflows.Engine.{
  Services, WorkflowRun, Request, WorkflowEngine, ordered, run_steps, finish, run, step_completed,
}
use ksec.Workflows.Runs.{begun}

module _ {W : Type 0} (svc : Services W) (definition : WorkflowDefinition) (r : Request) where
  -- The failed run of an error, as the caller gets it and as its row shows it; `t` is the state in
  -- which the error left the loop.
  abbrev pub FailedWith :
      Error → String → WorkflowEngine W → Outcome WorkflowRun × WorkflowEngine W → Type 0
  FailedWith x run_id t (o, after) =
      (result : WorkflowRun) × (o ≡ returned result)
      × (result.run_id ≡ run_id)
      × (result.status ≡ "failed")
      × (result.error ≡ message x)
      × (result.steps ≡ t.outcomes)
      × (after.world ≡ t.world)
      × (after.runs
          ≡ update_where (λ row. str_eq row.id run_id)
              (λ row. record row {
                status = "failed";
                steps_completed = length (select (step_completed svc definition r) t.outcomes);
              })
              t.runs)

  closed-raised :
      (run_id : String) (o : Outcome (String × Message)) (t : WorkflowEngine W) (x : Error)
      → o ≡ raised x
      → FailedWith x run_id t (
          continue
            (on_error o (λ y. pure ("failed", message y)) t).0
            (finish svc definition r run_id)
            (on_error o (λ y. pure ("failed", message y)) t).1)
  unfolding finish
  closed-raised run_id o t x e = rw e (_, refl, refl, refl, refl, refl, refl, refl)

  -- An error that the policy, the scheduler or the correlation raises in the loop over the steps
  -- does not leave the run. The run comes back as failed, with the error's message and the outcomes
  -- that the loop had noted, and its row becomes failed with the number of its completed steps.
  pub run-raised :
      (run_id : String) (s : WorkflowEngine W) (x : Error)
      → (run_steps svc definition r (ordered definition) (begun svc definition r run_id s)).0
        ≡ raised x
      → FailedWith x run_id
          (run_steps svc definition r (ordered definition) (begun svc definition r run_id s)).1
          (run svc definition r run_id s)
  unfolding run
  run-raised run_id s x e =
      closed-raised run_id
        (run_steps svc definition r (ordered definition) (begun svc definition r run_id s)).0
        (run_steps svc definition r (ordered definition) (begun svc definition r run_id s)).1 x e
