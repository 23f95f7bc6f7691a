-- ===== src/Workflows.antt =====
-- workflows/definitions.py and workflows/engine.py: a workflow's steps, and the order in which a
-- run takes them. A step is known by its place in the definition.
pub mod Rounds
pub mod Order
pub mod Engine
pub mod Runs
pub mod Failures
use ksec.Prelude.{
  ℕ, zero, suc, ◌+◌, ◌-◌, String, Bool, true, false, not, ◌&&◌, ◌||◌, Option, none, some, List, [],
  ◌∷◌, ◌++◌, length, ◌==◌, str_eq, any, select, if◌then◌else◌,
}
use ksec.Prelude.Json.{Fields}
use ksec.Prelude.Strings.{◌<>◌}
use ksec.Prelude.Strings.Decimal.{show}

-- The defaults of the fields are written by whoever builds a step; `retry` is not negative, as
-- `validate_steps` asks.
pub record WorkflowStep : Type 0 where
  pub capability : String
  pub options : Fields
  pub name : Option String
  pub depends_on : List String
  pub retry : ℕ

pub record WorkflowDefinition : Type 0 where
  pub name : String
  pub description : String
  pub steps : List WorkflowStep
  pub version : ℕ

-- `step.name or f"step{index + 1}"`
unfoldable pub step_name : ℕ → WorkflowStep → String
step_name index step = elim step.name [
  | none ↦ "step" <> show (suc index)
  | some name ↦ if str_eq name "" then "step" <> show (suc index) else name
]

-- `by_name`, for the steps from a place on: of two steps with one name the later stays.
unfoldable pub by_name : ℕ → List WorkflowStep → String → Option ℕ
by_name i [] name = none
by_name i (step ∷ steps) name = elim (by_name (suc i) steps name) [
  | some j ↦ some j
  | none ↦ if str_eq (step_name i step) name then some i else none
]

-- An edge: a step that another waits for, and the step that waits.
abbrev pub Edge : Type 0
Edge = ℕ × ℕ

-- The edges that the names in `depends_on` of a step make; an unknown name makes none.
unfoldable pub edges_into : (String → Option ℕ) → ℕ → List String → List Edge
edges_into place i [] = []
edges_into place i (dep ∷ deps) = elim (place dep) [
  | none ↦ edges_into place i deps
  | some j ↦ (j, i) ∷ edges_into place i deps
]

unfoldable pub edges_from : (String → Option ℕ) → ℕ → List WorkflowStep → List Edge
edges_from place i [] = []
edges_from place i (step ∷ steps) =
    edges_into place i step.depends_on ++ edges_from place (suc i) steps

-- What the first loop collects in `edges` and `indegree`, in its order.
abbrev pub edges : List WorkflowStep → List Edge
edges steps = edges_from (by_name 0 steps) 0 steps

-- `indegree[k]` after the first loop.
unfoldable pub indegree : List Edge → ℕ → ℕ
indegree [] k = 0
indegree ((j, i) ∷ es) k = (if i == k then 1 else 0) + indegree es k

-- `edges[k]`
unfoldable pub successors : List Edge → ℕ → List ℕ
successors [] k = []
successors ((j, i) ∷ es) k = if j == k then i ∷ successors es k else successors es k

-- `range(i, i + n)`
unfoldable pub range_from : ℕ → ℕ → List ℕ
range_from i zero = []
range_from i (suc n) = i ∷ range_from (suc i) n

-- The variables of the `while ready` loop.
pub record Queue : Type 0 where
  pub degree : ℕ → ℕ
  pub ready : List ℕ
  pub ordered : List ℕ

-- One more edge is done. Below zero the source counts on; the number is only tested for becoming
-- zero, which it does not from there, nor from the zero that it keeps here.
abbrev pub lower_at : ℕ → (ℕ → ℕ) → ℕ → ℕ
lower_at next degree k = if k == next then degree k - 1 else degree k

-- One round of the inner loop.
abbrev pub release_one : ℕ → Queue → Queue
release_one next q = record q {
  degree = lower_at next q.degree;
  ready = if q.degree next == 1 then q.ready ++ next ∷ [] else q.ready;
}

unfoldable pub release : List ℕ → Queue → Queue
release [] q = q
release (next ∷ rest) q = release rest (release_one next q)

-- One round of the `while ready` loop, which takes the first of the waiting steps.
abbrev pub take_step : List Edge → ℕ → List ℕ → Queue → Queue
take_step es i waiting q =
    release (successors es i) (record q { ready = waiting; ordered = q.ordered ++ i ∷ [] })

-- The loop, for at most so many rounds.
unfoldable pub drain : ℕ → List Edge → Queue → Queue
drain zero es q = q
drain (suc rounds) es q = elim q.ready [
  | [] ↦ q
  | i ∷ waiting ↦ drain rounds es (take_step es i waiting q)
]

abbrev pub member : ℕ → List ℕ → Bool
member k xs = any (λ x. x == k) xs

-- The loop's start: the steps that wait for none are ready.
abbrev pub start : List Edge → ℕ → Queue
start es n = record {
  degree = indegree es;
  ready = select (λ i. indegree es i == 0) (range_from 0 n);
  ordered = [];
}

-- The steps that the loop does not reach.
abbrev pub skipped : ℕ → List ℕ → List ℕ
skipped n executed = select (λ i. not (member i executed)) (range_from 0 n)

-- `_topological_order`, as the places of the steps; each step is taken at most once, so the loop
-- has no more rounds than there are steps.
unfoldable pub topological_order : List WorkflowStep → List ℕ
topological_order steps =
    let n = length steps in
    let executed = (drain n (edges steps) (start (edges steps) n)).ordered in
    executed ++ skipped n executed
