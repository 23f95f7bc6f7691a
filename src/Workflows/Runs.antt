-- ===== src/Workflows/Runs.antt =====
-- What a run of a workflow has done when it ends.
use ksec.Prelude.{
  String, ◌≡◌, refl, ap, sym, ◌∙◌, Bool, true, false, Option, none, some, List, [], ◌∷◌, ◌++◌,
  str_eq, eq_iff, arith, Bool-cases, inl, inr, if◌then◌else◌,
}
use ksec.Prelude.Exec.{
  Exec, Outcome, Message, returned, raised, blocked, continue, on_error, message, pure, ◌>>=◌, ◌>>◌,
}
use mathlib.Core.Path.{subst}
use ksec.Jobs.{Job, JobState}
use ksec.Policies.{Decision, PolicyResult, evaluate}
use ksec.Workflows.{WorkflowStep, WorkflowDefinition}
use ksec.Workflows.Engine.{
  Services, of_job, StepOutcome, WorkflowRun, Request, WorkflowEngine, is_allow, is_completed,
  query_of, ordered, submit_with_retry, blocked_step, performed_step, settle, on_world,
  note_outcome, run_step, run_steps, new_run, finish, run,
}

module _ {S A B : Type 0} where
  -- What comes back after a bind came back from its first part.
  continue_returned :
      (o : Outcome A) (k : A → Exec S B) (s : S) (b : B)
      → (continue o k s).0 ≡ returned b
      → (a : A) × (o ≡ returned a) × ((k a s).0 ≡ returned b)
  continue_returned (returned a) k s b e = (a, refl, e)
  continue_returned (raised x) k s b e = ground (arith, e)
  continue_returned blocked k s b e = ground (arith, e)

allowed_decision : (decision : Decision) → is_allow decision ≡ true → decision ≡ Decision.allow
allowed_decision decision e = ground (arith, e)

completed_state : (state : JobState) → is_completed state ≡ true → state ≡ JobState.completed
completed_state state e = ground (arith, e)

append_one :
    (xs : List StepOutcome) (o : StepOutcome) (os : List StepOutcome)
    → (xs ++ o ∷ []) ++ os ≡ xs ++ o ∷ os
append_one [] o os = refl
append_one (x ∷ xs) o os = ap (λ l. x ∷ l) (append_one xs o os)

append-nil_sym : (xs : List StepOutcome) → xs ≡ xs ++ []
append-nil_sym [] = refl
append-nil_sym (x ∷ xs) = ap (λ l. x ∷ l) (append-nil_sym xs)

different : ◌≡◌ {A = String} "failed" "completed" → ⊥
different e =
    let same : str_eq "failed" "completed" ≡ true = (eq_iff "failed" "completed").1 e in
    absurd (ground (arith, same))

status_of : Outcome (String × Message) → String
status_of (returned (status, error)) = status
status_of _ = ""

not_completed :
    (a b : Message)
    → ◌≡◌ {A = Outcome (String × Message)} (returned ("failed", a)) (returned ("completed", b))
    → ⊥
unfolding status_of
not_completed a b e = different (ap status_of e)

module _ {W : Type 0} (svc : Services W) (definition : WorkflowDefinition) (r : Request) where
  -- A step of the workflow that was taken in a world, and its outcome in the run: the policy engine
  -- allows the step at that world, and the job of the step completed.
  pub record IsDone (step : WorkflowStep) (w : W) (o : StepOutcome) : Type 0 where
    pub capability : o.capability ≡ step.capability
    pub allowed : (evaluate (svc.policy w) (query_of r step)).decision ≡ Decision.allow
    pub reason : o.policy_reason ≡ (evaluate (svc.policy w) (query_of r step)).reason
    pub completed : o.state ≡ of_job JobState.completed

  -- The steps and the outcomes correspond, in order; each step is taken in the world that the rounds
  -- before it left.
  abbrev pub AllDone : List WorkflowStep → WorkflowEngine W → List StepOutcome → Type 0
  AllDone [] s [] = Unit
  AllDone (step ∷ steps) s (o ∷ os) =
      IsDone step s.world o × AllDone steps (run_step svc definition r step s).1 os
  AllDone _ _ _ = ⊥

  -- The state in which the loop of a run begins.
  abbrev pub begun : String → WorkflowEngine W → WorkflowEngine W
  begun run_id s = record s { runs = s.runs ++ new_run svc definition r run_id ∷ []; outcomes = [] }

  -- What a round adds to the outcomes where the loop goes on.
  abbrev Added : WorkflowStep → W → WorkflowEngine W → WorkflowEngine W → Type 0
  Added step w s t = (o : StepOutcome) × (t.outcomes ≡ s.outcomes ++ o ∷ []) × IsDone step w o

  -- The answer of the policy engine for a step in a world.
  abbrev answer : WorkflowStep → W → PolicyResult
  answer step w = evaluate (svc.policy w) (query_of r step)

  -- The last two statements of a round.
  abbrev closing :
      WorkflowStep → PolicyResult → Job → Job → Exec (WorkflowEngine W) (Option Message)
  closing step result job done =
      note_outcome svc definition r (performed_step svc definition r step result job done)
      >> pure (if is_completed done.state then none else some (done.error ∷ []))

  closing-none :
      (step : WorkflowStep) (w : W) (job done : Job) (o : Outcome (Unit {0})) (t : WorkflowEngine W)
      → is_allow (answer step w).decision ≡ true
      → (continue o (λ _. closing step (answer step w) job done) t).0 ≡ returned none
      → Added step w t (continue o (λ _. closing step (answer step w) job done) t).1
  closing-none step w job done (returned u) t agreed e =
      elim (Bool-cases (is_completed done.state)) [
        | inl good ↦ (
          performed_step svc definition r step (answer step w) job done,
          refl,
          record {
            capability = refl;
            allowed = allowed_decision (answer step w).decision agreed;
            reason = refl;
            completed = ap of_job (completed_state done.state good);
          },
        )
        | inr bad ↦ absurd (ground (arith, bad, e))
      ]
  closing-none step w job done (raised x) t agreed e = absurd (ground (arith, e))
  closing-none step w job done blocked t agreed e = absurd (ground (arith, e))

  settle-none :
      (step : WorkflowStep) (w : W) (jobs : Job × Job) (s : WorkflowEngine W)
      → is_allow (answer step w).decision ≡ true
      → (settle svc definition r step (answer step w) jobs s).0 ≡ returned none
      → Added step w s (settle svc definition r step (answer step w) jobs s).1
  unfolding settle
  settle-none step w (job, done) s agreed e =
      closing-none step w job done
        ((if is_completed done.state then svc.ingest done r.engagement_id else pure tt) s.world).0
        (record s {
          world =
              ((if is_completed done.state then svc.ingest done r.engagement_id else pure tt)
                s.world).1;
        })
        agreed e

  settled-none :
      (step : WorkflowStep) (w : W) (o : Outcome (Job × Job)) (t : WorkflowEngine W)
      → is_allow (answer step w).decision ≡ true
      → (continue o (settle svc definition r step (answer step w)) t).0 ≡ returned none
      → Added step w t (continue o (settle svc definition r step (answer step w)) t).1
  settled-none step w (returned jobs) t agreed e = settle-none step w jobs t agreed e
  settled-none step w (raised x) t agreed e = absurd (ground (arith, e))
  settled-none step w blocked t agreed e = absurd (ground (arith, e))

  -- A round once the policy has answered, by its verdict.
  abbrev decided : Bool → WorkflowStep → PolicyResult → Exec (WorkflowEngine W) (Option Message)
  decided verdict step result =
      if verdict
      then on_world svc definition r (submit_with_retry svc definition r step.retry step)
        >>= settle svc definition r step result
      else note_outcome svc definition r (blocked_step svc definition r step result)
        >> pure (some result.reason)

  decided-none :
      (verdict : Bool) (step : WorkflowStep) (s : WorkflowEngine W)
      → is_allow (answer step s.world).decision ≡ verdict
      → (decided verdict step (answer step s.world) s).0 ≡ returned none
      → Added step s.world s (decided verdict step (answer step s.world) s).1
  decided-none true step s agreed e =
      settled-none step s.world (submit_with_retry svc definition r step.retry step s.world).0
        (record s { world = (submit_with_retry svc definition r step.retry step s.world).1 }) agreed
        e
  decided-none false step s agreed e = absurd (ground (arith, e))

  run_step-decided :
      (step : WorkflowStep) (s : WorkflowEngine W)
      → run_step svc definition r step s
        ≡ decided
            (is_allow (evaluate (svc.policy s.world) (query_of r step)).decision)
            step
            (evaluate (svc.policy s.world) (query_of r step))
            s
  unfolding run_step
  run_step-decided step s =
      elim (Bool-cases (is_allow (evaluate (svc.policy s.world) (query_of r step)).decision)) [
        | inl agreed ↦ rw (run_step, agreed) refl
        | inr refused ↦ rw (run_step, refused) refl
      ]

  run_step-none :
      (step : WorkflowStep) (s : WorkflowEngine W)
      → (run_step svc definition r step s).0 ≡ returned none
      → Added step s.world s (run_step svc definition r step s).1
  run_step-none step s e =
      subst (λ x. Added step s.world s x.1) (sym (run_step-decided step s))
        (decided-none (is_allow (answer step s.world).decision) step s refl
          (subst (λ x. x.0 ≡ returned none) (run_step-decided step s) e))

  -- What the loop adds where it comes to its end.
  abbrev AddedAll : List WorkflowStep → WorkflowEngine W → WorkflowEngine W → Type 0
  AddedAll steps s t =
      (os : List StepOutcome) × (t.outcomes ≡ s.outcomes ++ os) × AllDone steps s os

  abbrev ended :
      WorkflowEngine W
      → List WorkflowStep
      → Option Message
      → Exec (WorkflowEngine W) (String × Message)
  ended s steps stopped = elim stopped [
    | some reason ↦ pure ("failed", reason)
    | none ↦ run_steps svc definition r steps
  ]

  ended-completed :
      (step : WorkflowStep) (steps : List WorkflowStep) (s : WorkflowEngine W)
      (o : Outcome (Option Message)) (error : Message)
      → (o ≡ returned none → Added step s.world s (run_step svc definition r step s).1)
      → ((run_steps svc definition r steps (run_step svc definition r step s).1).0
            ≡ returned ("completed", error)
          → AddedAll steps
              (run_step svc definition r step s).1
              (run_steps svc definition r steps (run_step svc definition r step s).1).1)
      → (continue o (ended s steps) (run_step svc definition r step s).1).0
        ≡ returned ("completed", error)
      → AddedAll
          (step ∷ steps)
          s
          (continue o (ended s steps) (run_step svc definition r step s).1).1
  ended-completed step steps s (returned none) error added rest e =
      let (o, one, good) = added refl in
      let (os, more, all) = rest e in
      (o ∷ os, more ∙ (rw one (append_one s.outcomes o os)), (good, all))
  ended-completed step steps s (returned (some reason)) error added rest e =
      absurd (not_completed reason error e)
  ended-completed step steps s (raised x) error added rest e = absurd (ground (arith, e))
  ended-completed step steps s blocked error added rest e = absurd (ground (arith, e))

  run_steps-completed :
      (steps : List WorkflowStep) (s : WorkflowEngine W) (error : Message)
      → (run_steps svc definition r steps s).0 ≡ returned ("completed", error)
      → AddedAll steps s (run_steps svc definition r steps s).1
  unfolding run_steps
  run_steps-completed [] s error e = ([], append-nil_sym s.outcomes, tt)
  run_steps-completed (step ∷ steps) s error e =
      ended-completed step steps s (run_step svc definition r step s).0 error (run_step-none step s)
        (run_steps-completed steps (run_step svc definition r step s).1 error) e

  finish_returned :
      (run_id status : String) (error : Message) (t : WorkflowEngine W) (result : WorkflowRun)
      → (finish svc definition r run_id (status, error) t).0 ≡ returned result
      → (result.status ≡ status) × (result.steps ≡ t.outcomes)
  unfolding finish
  finish_returned run_id status error t result e = ground (arith, e)

  -- The end of a run, by how its loop came out.
  closed-completed :
      (run_id : String) (steps : List WorkflowStep) (o : Outcome (String × Message))
      (s t : WorkflowEngine W) (result : WorkflowRun)
      → s.outcomes ≡ []
      → ((error : Message) → o ≡ returned ("completed", error) → AddedAll steps s t)
      → (continue
          (on_error o (λ x. pure ("failed", message x)) t).0
          (finish svc definition r run_id)
          (on_error o (λ x. pure ("failed", message x)) t).1).0
        ≡ returned result
      → result.status ≡ "completed"
      → AllDone steps s result.steps
  closed-completed run_id steps (returned (status, error)) s t result fresh all e good =
      let (same, kept) = finish_returned run_id status error t result e in
      let (os, added, done) = all error (ap (λ x. returned (x, error)) (sym same ∙ good)) in
      subst (AllDone steps s) (sym (kept ∙ added ∙ rw fresh refl)) done
  closed-completed run_id steps (raised x) s t result fresh all e good =
      absurd (different (sym (finish_returned run_id "failed" (message x) t result e).0 ∙ good))
  closed-completed run_id steps blocked s t result fresh all e good = absurd (ground (arith, e))

  pub run-completed :
      (run_id : String) (s : WorkflowEngine W) (result : WorkflowRun)
      → (run svc definition r run_id s).0 ≡ returned result
      → result.status ≡ "completed"
      → AllDone (ordered definition) (begun run_id s) result.steps
  unfolding run
  run-completed run_id s result e good =
      closed-completed run_id (ordered definition)
        (run_steps svc definition r (ordered definition) (begun run_id s)).0 (begun run_id s)
        (run_steps svc definition r (ordered definition) (begun run_id s)).1 result refl
        (λ error. run_steps-completed (ordered definition) (begun run_id s) error) e good
