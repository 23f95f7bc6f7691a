-- ===== src/Jobs/Recovery.antt =====
-- Recovery after a crash (`mark_interrupted`): what it leaves in the table.
use ksec.Prelude.{
  String, ℕ, ◌≡◌, refl, Bool, false, ◌||◌, Option, none, some, List, [], ◌∷◌, map, arith, str_eq,
  eq_iff, if◌then◌else◌, select, update_where, cut, Bool-cases, eq_refl, inl, inr, All,
}
use ksec.Prelude.Exec.{returned}
use ksec.Jobs.{
  Job, JobState, Table, Field, has_id, write, get, fail, fail_each, mark_interrupted, is_running,
}
use ksec.Jobs.Laws.{updated, get-update, set_state_lem}

-- The primary key: no two rows have one id.
abbrev pub HasUniqueIds : Table → Type 0
HasUniqueIds [] = Unit
HasUniqueIds (job ∷ jobs) = (get job.id jobs ≡ none) × HasUniqueIds jobs

abbrev pub interrupted : ℕ → Job → Job
interrupted t job =
    write JobState.failed
      (Field.error (cut 2000 "Interrupted: process terminated before completion")
        ∷ Field.exit_code none
        ∷ Field.completed_at t
        ∷ [])
      job

abbrev member : String → List String → Bool
member i [] = false
member i (j ∷ js) = str_eq j i || member i js

-- Every id is that of a row.
abbrev Present : List String → Table → Type 0
Present ids jobs = All (λ i. (job : Job) × (get i jobs ≡ some job)) ids

fail_lem :
    (t : ℕ) (i : String) (jobs : Table) (job : Job)
    → get i jobs ≡ some job
    → fail i "Interrupted: process terminated before completion" none t jobs
      ≡ (returned (interrupted t job), update_where (has_id i) (interrupted t) jobs)
unfolding fail
fail_lem t i jobs job h = rw (set_state_lem i JobState.failed _ jobs, h)

Present-update :
    (ids : List String) (t : ℕ) (i : String) (jobs : Table)
    → Present ids jobs
    → Present ids (update_where (has_id i) (interrupted t) jobs)
Present-update [] t i jobs h = tt
Present-update (j ∷ js) t i jobs ((job, e), h) = (
  (
    (if str_eq i j then interrupted t job else job),
    rw (get-update j i (interrupted t) jobs (λ _. refl), e),
  ),
  Present-update js t i jobs h,
)

fail_each-result :
    (now : String → ℕ) (ids : List String) (jobs : Table)
    → Present ids jobs
    → (fail_each now ids jobs).0 ≡ returned tt
unfolding fail_each
fail_each-result now [] jobs h = refl
fail_each-result now (i ∷ ids) jobs ((job, e), h) =
    rw (fail_lem (now i) i jobs job e)
      (fail_each-result now ids _ (Present-update ids (now i) i jobs h))

get-fail_each :
    (now : String → ℕ) (ids : List String) (jobs : Table) (j : String)
    → Present ids jobs
    → get j (fail_each now ids jobs).1 ≡ updated (interrupted (now j)) (member j ids) (get j jobs)
unfolding fail_each
get-fail_each now [] jobs j h = ground arith
get-fail_each now (i ∷ ids) jobs j ((job, e), h) =
    let t = now i in
    let next = update_where (has_id i) (interrupted t) jobs in
    rw (fail_lem t i jobs job e) (
      ground (
        arith,
        get-fail_each now ids next j (Present-update ids t i jobs h),
        get-update j i (interrupted t) jobs (λ _. refl),
        eq_iff i j,
      ))

running_ids : Table → List String
running_ids jobs = map (λ (j : Job). j.id) (select (λ j. is_running j.state) jobs)

Present-cons :
    (ids : List String) (job : Job) (jobs : Table) → Present ids jobs → Present ids (job ∷ jobs)
unfolding get
Present-cons [] job jobs h = tt
Present-cons (i ∷ ids) job jobs ((found_job, e), h) =
    (((if str_eq job.id i then job else found_job), ground arith), Present-cons ids job jobs h)

Present-running_ids : (jobs : Table) → Present (running_ids jobs) jobs
unfolding running_ids select get
Present-running_ids [] = tt
Present-running_ids (job ∷ jobs) = elim (Bool-cases (is_running job.state)) [
  | inl yes_running ↦
      rw yes_running
        ((job, rw (eq_refl job.id)), Present-cons _ job jobs (Present-running_ids jobs))
  | inr not_running ↦ rw not_running (Present-cons _ job jobs (Present-running_ids jobs))
]

-- Whether the row found at an id is running.
abbrev runs : Option Job → Bool
runs none = false
runs (some job) = is_running job.state

absent-running_ids :
    (jobs : Table) (i : String) → get i jobs ≡ none → member i (running_ids jobs) ≡ false
unfolding running_ids select get
absent-running_ids [] i h = refl
absent-running_ids (job ∷ jobs) i h = ground (arith, absent-running_ids jobs i)

member-running_ids :
    (jobs : Table) (i : String)
    → HasUniqueIds jobs
    → member i (running_ids jobs) ≡ runs (get i jobs)
unfolding running_ids select get
member-running_ids [] i h = refl
member-running_ids (job ∷ jobs) i (fresh, h) =
    ground (arith, member-running_ids jobs i h, absent-running_ids jobs i, eq_iff job.id i)

-- Recovery returns the ids of the jobs that were running, and then each of these jobs is failed
-- with the time of its row, and every other job is as it was.
pub mark_interrupted_lem :
    (now : String → ℕ) (jobs : Table) (i : String)
    → HasUniqueIds jobs
    → ((mark_interrupted now jobs).0
        ≡ returned (map (λ (j : Job). j.id) (select (λ j. is_running j.state) jobs)))
      × (get i (mark_interrupted now jobs).1 ≡ (elim (get i jobs) [
        | none ↦ none
        | some job ↦ some (if is_running job.state then interrupted (now i) job else job)
      ]))
unfolding mark_interrupted running_ids
mark_interrupted_lem now jobs i unique = (
  rw (fail_each-result now (running_ids jobs) jobs (Present-running_ids jobs)),
  rw
      (
        fail_each-result now (running_ids jobs) jobs (Present-running_ids jobs),
        get-fail_each now (running_ids jobs) jobs i (Present-running_ids jobs),
        member-running_ids jobs i unique,
      )
      (ground arith),
)
