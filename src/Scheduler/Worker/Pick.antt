-- ===== src/Scheduler/Worker/Pick.antt =====
-- Which job the worker starts.
use ksec.Prelude.{
  ◌≡◌, refl, Bool, true, false, Option, none, some, List, [], ◌∷◌, arith, select, Bool-cases, inl,
  inr, ◌⊎◌,
}
use ksec.Prelude.Sort.{In, earlier, first_by, first_by-In, first_by-none}
use ksec.Jobs.{Job, Table, is_queued}
use ksec.Scheduler.Worker.{ranks_before, next_job}

In-select :
    {A : Type 0} (p : A → Bool) (xs : List A) (x : A) → In x (select p xs) → In x xs × (p x ≡ true)
unfolding select
In-select p [] x h = absurd h
In-select p (y ∷ ys) x h = elim (Bool-cases (p y)) [
  | inl good ↦ elim (rw good at h) [
    | inl same ↦ (inl same, rw same good)
    | inr later ↦ let (there, holds) = In-select p ys x later in (inr there, holds)
  ]
  | inr bad ↦ let (there, holds) = In-select p ys x (rw bad at h) in (inr there, holds)
]

select-In :
    {A : Type 0} (p : A → Bool) (xs : List A) (x : A) → In x xs → p x ≡ true → In x (select p xs)
unfolding select
select-In p [] x h holds = elim h [ ]
select-In p (y ∷ ys) x (inl same) holds = rw (← same, holds) (inl refl)
select-In p (y ∷ ys) x (inr later) holds = elim (Bool-cases (p y)) [
  | inl good ↦ rw good (inr (select-In p ys x later holds))
  | inr bad ↦ rw bad (select-In p ys x later holds)
]

-- The order of the queue: a strict order whose ties are transitive.
ranks_irrefl : (a : Job) → ranks_before a a ≡ false
ranks_irrefl a = ground arith

ranks_asym : (a b : Job) → ranks_before a b ≡ true → ranks_before b a ≡ false
ranks_asym a b h = ground arith

ranks_trans :
    (a b c : Job) → ranks_before a b ≡ false → ranks_before b c ≡ false → ranks_before a c ≡ false
ranks_trans a b c h k = ground arith

-- The best of a row and the best of the rest.
earlier_least :
    (x : Job) (best : Option Job) (rest : List Job)
    → ((r : Job) → best ≡ some r → (z : Job) → In z rest → ranks_before z r ≡ false)
    → (best ≡ none → (z : Job) → ¬ (In z rest))
    → (z : Job) → (z ≡ x) ⊎ In z rest
    → ranks_before z (earlier ranks_before x best) ≡ false
earlier_least x none rest least empty z (inl same) = rw same (ranks_irrefl x)
earlier_least x none rest least empty z (inr later) = absurd (empty refl z later)
earlier_least x (some y) rest least empty z place = elim (Bool-cases (ranks_before y x)) [
  | inl first ↦
      rw first (elim place [
        | inl same ↦ rw same (ranks_asym y x first)
        | inr later ↦ least y refl z later
      ])
  | inr not_first ↦ rw not_first (elim place [
    | inl same ↦ rw same (ranks_irrefl x)
    | inr later ↦ ranks_trans z y x (least y refl z later) not_first
  ])
]

some_eq : {a b : Job} → some a ≡ some b → a ≡ b
some_eq h = cc

not_true : {b : Bool} → ¬ (b ≡ true) → b ≡ false
not_true {b} h = elim (Bool-cases b) [ inl e ↦ absurd (h e) | inr e ↦ e ]

abbrev queued_row : Job → Bool
queued_row job = is_queued job.state

nothing-In : (xs : List Job) → first_by ranks_before xs ≡ none → (z : Job) → ¬ (In z xs)
nothing-In xs h z here = rw (first_by-none ranks_before xs h) at here

first_by-least :
    (xs : List Job) (r : Job)
    → first_by ranks_before xs ≡ some r
    → (z : Job) → In z xs
    → ranks_before z r ≡ false
unfolding first_by
first_by-least [] r e z here = absurd here
first_by-least (x ∷ xs) r e z here = rw (← some_eq e) (
    earlier_least x (first_by ranks_before xs) xs (λ r' e' z' h'. first_by-least xs r' e' z' h')
      (nothing-In xs) z here)

-- The job that the worker picks is a queued job of the table, and no queued job has a higher
-- priority, or the same priority and an earlier time of creation.
pub next_job-some :
    (jobs : Table) (job other : Job)
    → next_job jobs ≡ some job
    → In other jobs
    → is_queued other.state ≡ true
    → In job jobs × (is_queued job.state ≡ true) × (ranks_before other job ≡ false)
unfolding next_job
next_job-some jobs job other e here q =
    let (there, waits) =
      In-select queued_row jobs job (first_by-In ranks_before (select queued_row jobs) job e) in
    (
      there,
      waits,
      first_by-least (select queued_row jobs) job e other (select-In queued_row jobs other here q),
    )
