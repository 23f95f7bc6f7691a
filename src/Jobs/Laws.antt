-- ===== src/Jobs/Laws.antt =====
-- What the operations of the job repository do to the table, seen by job id.
use ksec.Prelude.{
  is_missing, String, ℕ, ◌≡◌, refl, Bool, true, false, Option, none, some, List, [], ◌∷◌, ◌++◌,
  arith, str_eq, eq_iff, if◌then◌else◌, any, find?, update_where, ◌||◌, Bool-cases, eq_refl, inl,
  inr,
}
use ksec.Prelude.Exec.{Outcome, returned, raised, assertion_error, database_error}
use ksec.Jobs.{
  Job, JobState, Table, Field, Spec, has_id, assign_all, write, get, set_state, create, new_job,
  is_missing,
}

-- The row that an update leaves at an id.
abbrev pub updated : (Job → Job) → Bool → Option Job → Option Job
updated f hit none = none
updated f hit (some job) = some (if hit then f job else job)

-- The answer of a query that must find its row.
abbrev pub found : Option Job → Outcome Job
found none = raised assertion_error
found (some job) = returned job

id-assign_all : (fs : List Field) (job : Job) → (assign_all fs job).id ≡ job.id
id-assign_all [] job = refl
id-assign_all (Field.started_at t ∷ fs) job = id-assign_all fs _
id-assign_all (Field.completed_at t ∷ fs) job = id-assign_all fs _
id-assign_all (Field.exit_code c ∷ fs) job = id-assign_all fs _
id-assign_all (Field.error e ∷ fs) job = id-assign_all fs _
id-assign_all (Field.result r ∷ fs) job = id-assign_all fs _

pub id-write : (st : JobState) (fs : List Field) (job : Job) → (write st fs job).id ≡ job.id
id-write st fs job = id-assign_all fs _

state-assign_all : (fs : List Field) (job : Job) → (assign_all fs job).state ≡ job.state
state-assign_all [] job = refl
state-assign_all (Field.started_at t ∷ fs) job = state-assign_all fs _
state-assign_all (Field.completed_at t ∷ fs) job = state-assign_all fs _
state-assign_all (Field.exit_code c ∷ fs) job = state-assign_all fs _
state-assign_all (Field.error e ∷ fs) job = state-assign_all fs _
state-assign_all (Field.result r ∷ fs) job = state-assign_all fs _

pub state-write : (st : JobState) (fs : List Field) (job : Job) → (write st fs job).state ≡ st
state-write st fs job = state-assign_all fs _

pub get-update :
    (j i : String) (f : Job → Job) (jobs : Table)
    → ((job : Job) → (f job).id ≡ job.id)
    → get j (update_where (has_id i) f jobs) ≡ updated f (str_eq i j) (get j jobs)
unfolding get find? update_where
get-update j i f [] h = refl
get-update j i f (job ∷ jobs) h =
    ground (arith, h job, get-update j i f jobs h, eq_iff i j, eq_iff job.id i, eq_iff job.id j)

-- A change of state rewrites the rows of the id and answers the new row, or fails its assertion
-- where there is none.
pub set_state_lem :
    (i : String) (st : JobState) (fs : List Field) (jobs : Table)
    → set_state i st fs jobs ≡ (
      found (updated (write st fs) true (get i jobs)),
      update_where (has_id i) (write st fs) jobs,
    )
unfolding set_state
set_state_lem i st fs jobs =
    rw (get-update i i (write st fs) jobs (id-write st fs), eq_refl i) (ground arith)

pub get-set_state :
    (j i : String) (st : JobState) (fs : List Field) (jobs : Table)
    → get j (set_state i st fs jobs).1 ≡ updated (write st fs) (str_eq i j) (get j jobs)
get-set_state j i st fs jobs = rw set_state_lem (get-update j i (write st fs) jobs (id-write st fs))

any-has_id : (i : String) (jobs : Table) → any (has_id i) jobs ≡ false → get i jobs ≡ none
unfolding any get
any-has_id i [] h = refl
any-has_id i (job ∷ jobs) h = ground (arith, any-has_id i jobs)

get-append :
    (j : String) (xs ys : Table)
    → get j (xs ++ ys) ≡ (elim (get j xs) [ none ↦ get j ys | some job ↦ some job ])
unfolding get
get-append j [] ys = refl
get-append j (x ∷ xs) ys = ground (arith, get-append j xs ys)

get-single :
    (i j : String) (now : ℕ) (spec : Spec)
    → get j (new_job i now spec ∷ []) ≡ (if str_eq i j then some (new_job i now spec) else none)
unfolding get
get-single i j now spec = refl

created_row :
    (i : String) (now : ℕ) (spec : Spec) (jobs : Table)
    → any (has_id i) jobs ≡ false
    → get i (jobs ++ new_job i now spec ∷ []) ≡ some (new_job i now spec)
created_row i now spec jobs free = rw (
  get-append i jobs (new_job i now spec ∷ []),
  any-has_id i jobs free,
  get-single i i now spec,
  eq_refl i,
)

-- A new job is put in the table under an id that was free, for a user that exists if one is given,
-- and no other row changes.
pub create_lem :
    (exists : ℕ → Bool) (i : String) (now : ℕ) (spec : Spec) (jobs : Table)
    → create exists i now spec jobs ≡ (
        if any (has_id i) jobs || is_missing exists spec.user_id
        then (raised database_error, jobs)
        else (returned (new_job i now spec), jobs ++ new_job i now spec ∷ []))
unfolding create
create_lem exists i now spec jobs = elim (Bool-cases (any (has_id i) jobs)) [
  | inl taken ↦ rw taken
  | inr free ↦ rw free (elim (Bool-cases (is_missing exists spec.user_id)) [
    | inl missing ↦ rw missing
    | inr here ↦ rw (here, created_row i now spec jobs free)
  ])
]
