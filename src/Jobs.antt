-- ===== src/Jobs.antt =====
-- jobs/models.py: the job record and its repository over the table `jobs`.
-- The states that the program names are the constructors of `JobState`, so the guard of
-- `set_state` on unknown states and fields is the type of its arguments.
pub mod Laws
pub mod Recovery
use ksec.Prelude.{
  ℕ, String, Bool, true, false, ◌||◌, is_missing, Option, none, some, List, [], ◌∷◌, ◌++◌, map, ltb,
  str_eq, if◌then◌else◌, select, find?, any, update_where, take, cut,
}
use ksec.Prelude.Int.{ℤ}
use ksec.Prelude.Json.{Fields}
use ksec.Prelude.Sort.{sort_by}
use ksec.Prelude.Exec.{Exec, pure, raise, modify, gets, assert_some, ◌>>=◌, ◌>>◌, database_error}

pub data JobState : Type 0 where
  queued validating ready running paused cancelling : JobState
  cancelled completed failed recovering retrying : JobState

pub record Job : Type 0 where
  pub id : String
  pub session_id : Option String
  pub user_id : Option ℕ
  pub workspace : String
  pub workflow : String
  pub capability : String
  pub target : String
  pub options : Fields
  pub state : JobState
  pub priority : ℤ
  pub created_at : ℕ
  pub started_at : Option ℕ
  pub completed_at : Option ℕ
  pub exit_code : Option ℤ
  pub error : String
  pub result : Fields

abbrev pub terminal : JobState → Bool
terminal completed = true
terminal failed = true
terminal cancelled = true
terminal _ = false

abbrev pub is_terminal : Job → Bool
is_terminal job = terminal job.state

abbrev pub is_running : JobState → Bool
is_running running = true
is_running _ = false

abbrev pub is_queued : JobState → Bool
is_queued queued = true
is_queued _ = false

abbrev pub state_text : JobState → String
state_text queued = "QUEUED"
state_text validating = "VALIDATING"
state_text ready = "READY"
state_text running = "RUNNING"
state_text paused = "PAUSED"
state_text cancelling = "CANCELLING"
state_text cancelled = "CANCELLED"
state_text completed = "COMPLETED"
state_text failed = "FAILED"
state_text recovering = "RECOVERING"
state_text retrying = "RETRYING"

-- The table, in the order in which the rows were inserted.
abbrev pub Table : Type 0
Table = List Job

abbrev pub has_id : String → Job → Bool
has_id job_id job = str_eq job.id job_id

-- What a caller of `create` gives.
pub record Spec : Type 0 where
  pub capability : String
  pub target : String
  pub options : Fields
  pub session_id : Option String
  pub user_id : Option ℕ
  pub workspace : String
  pub workflow : String
  pub priority : ℤ

abbrev pub new_job : String → ℕ → Spec → Job
new_job job_id now spec = record {
  id = job_id;
  session_id = spec.session_id;
  user_id = spec.user_id;
  workspace = spec.workspace;
  workflow = spec.workflow;
  capability = spec.capability;
  target = spec.target;
  options = spec.options;
  state = queued;
  priority = spec.priority;
  created_at = now;
  started_at = none;
  completed_at = none;
  exit_code = none;
  error = "";
  result = Fields.end;
}

unfoldable pub get : String → Table → Option Job
unfolding find?
get job_id = find? (has_id job_id)

-- `job_id` is the value of `uuid4().hex`; the primary key refuses one that is taken. The
-- foreign key of `user_id` refuses a user that does not exist; `exists` tells the ids of the table
-- `users`.
unfoldable pub create : (ℕ → Bool) → String → ℕ → Spec → Exec Table Job
unfolding get any
create exists job_id now spec jobs =
    if any (has_id job_id) jobs || is_missing exists spec.user_id
    then raise database_error jobs
    else (do
      modify (λ t. t ++ new_job job_id now spec ∷ [])
      job ← gets (get job_id)
      assert_some job)
        jobs

abbrev pub newer : Job → Job → Bool
newer a b = ltb b.created_at a.created_at

abbrev pub same_state : JobState → JobState → Bool
same_state a b = str_eq (state_text a) (state_text b)

abbrev pub in_state : Option JobState → Table → Table
in_state none jobs = jobs
in_state (some state) jobs = select (λ job. same_state job.state state) jobs

unfoldable pub list : ℕ → Option JobState → Table → Table
unfolding sort_by
list limit state jobs = take limit (sort_by newer (in_state state jobs))

-- The fields that `set_state` accepts.
pub data Field : Type 0 where
  started_at : ℕ → Field
  completed_at : ℕ → Field
  exit_code : Option ℤ → Field
  error : String → Field
  result : Fields → Field

abbrev pub assign : Field → Job → Job
assign (started_at t) job = record job { started_at = some t }
assign (completed_at t) job = record job { completed_at = some t }
assign (exit_code c) job = record job { exit_code = c }
assign (error text) job = record job { error = text }
assign (result r) job = record job { result = r }

abbrev pub assign_all : List Field → Job → Job
assign_all [] job = job
assign_all (f ∷ fs) job = assign_all fs (assign f job)

abbrev pub write : JobState → List Field → Job → Job
write state fields job = assign_all fields (record job { state = state })

unfoldable pub set_state : String → JobState → List Field → Exec Table Job
unfolding get update_where
set_state job_id state fields = do
  modify (update_where (has_id job_id) (write state fields))
  job ← gets (get job_id)
  assert_some job

unfoldable pub fail : String → String → Option ℤ → ℕ → Exec Table Job
unfolding set_state
fail job_id text code now =
    set_state job_id failed (error (cut 2000 text) ∷ exit_code code ∷ completed_at now ∷ [])

unfoldable pub complete : String → Fields → ℤ → ℕ → Exec Table Job
unfolding set_state
complete job_id r code now =
    set_state job_id completed (result r ∷ exit_code (some code) ∷ completed_at now ∷ [])

-- The loop of `mark_interrupted`; `now` is the clock at each row.
unfoldable pub fail_each : (String → ℕ) → List String → Exec Table (Unit {0})
unfolding fail
fail_each now [] = pure tt
fail_each now (job_id ∷ ids) = do
  fail job_id "Interrupted: process terminated before completion" none (now job_id)
  fail_each now ids

unfoldable pub mark_interrupted : (String → ℕ) → Exec Table (List String)
unfolding fail_each
mark_interrupted now jobs =
    let ids = map (λ (j : Job). j.id) (select (λ j. is_running j.state) jobs) in
    (do fail_each now ids; pure ids) jobs
