-- ===== src/Workflows/Order.antt =====
-- The order of a workflow's steps: every step once, and each behind those that it waits for.
use ksec.Prelude.{
  ℕ, zero, suc, ◌+◌, ◌≤◌, ◌<◌, ◌≡◌, refl, ap, sym, String, true, false, not, Option, some, List, [],
  ◌∷◌, ◌++◌, length, length-select, ltb, ◌==◌, ==_iff, select, All, arith, Bool-cases, ◌⊎◌, inl,
  inr, Option-cases,
}
use ksec.Workflows.{
  WorkflowStep, Edge, Queue, edges_into, edges_from, edges, by_name, indegree, range_from,
  take_step, drain, member, start, topological_order,
}
use ksec.Workflows.Rounds.{
  count, one_if, count-append, count-select, count-range_from, member-count, member-snoc, pending,
  pending-start, Before, InRange, Inv, first_ready, take_step-Inv, ordered-release, append-nil,
}

-- How many of the steps of a list are not done.
abbrev left : List ℕ → List ℕ → ℕ
left done xs = length (select (λ k. not (member k done)) xs)

left-le : (done xs : List ℕ) (i : ℕ) → left (done ++ i ∷ []) xs ≤ left done xs
unfolding select
left-le done [] i = omega arith
left-le done (x ∷ xs) i = ground (arith, left-le done xs i, member-snoc x i done)

left-lt :
    (done xs : List ℕ) (i : ℕ)
    → member i done ≡ false
    → (count i xs == 0) ≡ false
    → left (done ++ i ∷ []) xs < left done xs
unfolding select count
left-lt done [] i free here = cc
left-lt done (x ∷ xs) i free here = elim (Bool-cases (x == i)) [
  | inl own ↦
      let same : member x done ≡ member i done = ap (λ k. member k done) ((==_iff x i).0 own) in
      ground
        (arith, left-le done xs i, member-snoc x i done, same, free, ==_iff i x, ==_iff x i, own)
  | inr other ↦ ground (
    arith,
    left-lt done xs i free (ground (arith, here, other)),
    member-snoc x i done,
    other,
    ==_iff i x,
    ==_iff x i,
  )
]

length-range_from : (i n : ℕ) → length (range_from i n) ≡ n
unfolding range_from
length-range_from i zero = refl
length-range_from i (suc n) = ap suc (length-range_from (suc i) n)

list_cases {ℓ} : {A : Type ℓ} (xs : List A) → (xs ≡ []) ⊎ ((x : A) × (ys : List A) × (xs ≡ x ∷ ys))
list_cases [] = inl refl
list_cases (x ∷ xs) = inr (x, xs, refl)

in_range : (n i : ℕ) → ltb i n ≡ true → (count i (range_from 0 n) == 0) ≡ false
in_range n i h = rw count-range_from (ground (arith, h))

left-take_step :
    (es : List Edge) (n i : ℕ) (waiting : List ℕ) (q : Queue)
    → Inv es n q
    → q.ready ≡ i ∷ waiting
    → left (take_step es i waiting q).ordered (range_from 0 n) < left q.ordered (range_from 0 n)
left-take_step es n i waiting q inv e =
    let (free, inside, _) = first_ready es n i waiting q inv e in
    rw ordered-release (left-lt q.ordered (range_from 0 n) i free (in_range n i inside))

-- The loop ends with no step ready, within as many rounds as there are steps not done.
drain-Inv :
    (es : List Edge) (n rounds : ℕ) (q : Queue)
    → InRange n es
    → Inv es n q
    → left q.ordered (range_from 0 n) ≤ rounds
    → Inv es n (drain rounds es q) × ((drain rounds es q).ready ≡ [])
unfolding drain
drain-Inv es n zero q range inv enough = elim (list_cases q.ready) [
  | inl over ↦ (inv, over)
  | inr (i, waiting, e) ↦
      let less = left-take_step es n i waiting q inv e in absurd (omega (arith, less, enough))
]
drain-Inv es n (suc rounds) q range inv enough =
    go_on (λ q'. drain-Inv es n rounds q' range) q.ready refl
  where
    go_on :
        ((q' : Queue)
          → Inv es n q'
          → left q'.ordered (range_from 0 n) ≤ rounds
          → Inv es n (drain rounds es q') × ((drain rounds es q').ready ≡ []))
        → (w : List ℕ) → q.ready ≡ w
        → Inv es n (elim w as (λ _. Queue) [
          | [] ↦ q
          | i ∷ waiting ↦ drain rounds es (take_step es i waiting q)
        ])
          × ((elim w as (λ _. Queue) [
            | [] ↦ q
            | i ∷ waiting ↦ drain rounds es (take_step es i waiting q)
          ]).ready
              ≡ [])
    go_on rest [] e = (inv, e)
    go_on rest (i ∷ waiting) e =
        let less = left-take_step es n i waiting q inv e in
        rest (take_step es i waiting q) (take_step-Inv es n i waiting q range inv e)
          (omega (arith, less, enough))

start-Inv : (es : List Edge) (n : ℕ) → Inv es n (start es n)
unfolding count
start-Inv es n = record {
  degrees = λ k. sym (pending-start es k);
  once = λ k.
      rw (count-select (λ i. indegree es i == 0) k (range_from 0 n), count-range_from k 0 n)
        (ground arith);
  before = tt;
}

-- The state at the end of the loop.
abbrev pub final : List WorkflowStep → Queue
final steps = drain (length steps) (edges steps) (start (edges steps) (length steps))

by_name-lt :
    (i : ℕ) (steps : List WorkflowStep) (name : String) (j : ℕ)
    → by_name i steps name ≡ some j
    → j < i + length steps
unfolding by_name
by_name-lt i [] name j e = cc
by_name-lt i (step ∷ steps) name j e = elim (Option-cases (by_name (suc i) steps name)) [
  | inl last ↦ let e' = (rw (by_name, last) at e) in ground (arith, e')
  | inr (k, later) ↦
      let e' = (rw (by_name, later) at e) in
      let b = by_name-lt (suc i) steps name k later in ground (arith, e', b)
]

edges_into-InRange :
    (n : ℕ) (place : String → Option ℕ) (i : ℕ) (deps : List String)
    → ((name : String) (j : ℕ) → place name ≡ some j → j < n)
    → i < n
    → InRange n (edges_into place i deps)
unfolding edges_into
edges_into-InRange n place i [] h b = tt
edges_into-InRange n place i (dep ∷ deps) h b = elim (Option-cases (place dep)) [
  | inl unknown ↦ rw (edges_into, unknown) (edges_into-InRange n place i deps h b)
  | inr (j, known) ↦
      rw (edges_into, known) ((h dep j known, b), edges_into-InRange n place i deps h b)
]

InRange-append : (n : ℕ) (es fs : List Edge) → InRange n es → InRange n fs → InRange n (es ++ fs)
InRange-append n [] fs h k = k
InRange-append n (e ∷ es) fs h k = (h.0, InRange-append n es fs h.1 k)

edges_from-InRange :
    (n : ℕ) (place : String → Option ℕ) (i : ℕ) (steps : List WorkflowStep)
    → ((name : String) (j : ℕ) → place name ≡ some j → j < n)
    → i + length steps ≤ n
    → InRange n (edges_from place i steps)
unfolding edges_from
edges_from-InRange n place i [] h b = tt
edges_from-InRange n place i (step ∷ steps) h b =
    InRange-append n (edges_into place i step.depends_on) (edges_from place (suc i) steps)
      (edges_into-InRange n place i step.depends_on h (omega arith))
      (edges_from-InRange n place (suc i) steps h (omega arith))

edges-InRange : (steps : List WorkflowStep) → InRange (length steps) (edges steps)
edges-InRange steps =
    edges_from-InRange (length steps) (by_name 0 steps) 0 steps
      (λ name j e. let b = by_name-lt 0 steps name j e in omega (arith, b)) (omega arith)

final-Inv :
    (steps : List WorkflowStep)
    → Inv (edges steps) (length steps) (final steps) × ((final steps).ready ≡ [])
final-Inv steps =
    drain-Inv (edges steps) (length steps) (length steps) (start (edges steps) (length steps))
      (edges-InRange steps) (start-Inv (edges steps) (length steps))
      (let b = length-select (λ k. not (member k [])) (range_from 0 (length steps)) in
        omega (arith, b, length-range_from 0 (length steps)))

-- The loop over the ready steps ends by its own test: no step is ready any more.
pub final-ready : (steps : List WorkflowStep) → (final steps).ready ≡ []
final-ready steps = (final-Inv steps).1

-- The order has every place of the workflow's steps exactly once, and no other number.
pub count-topological_order :
    (steps : List WorkflowStep) (k : ℕ)
    → count k (topological_order steps) ≡ one_if (ltb k (length steps))
unfolding topological_order
count-topological_order steps k =
    let (inv, over) = final-Inv steps in
    let none_ready : count k (final steps).ready ≡ 0 = rw over (unfold count in refl) in
    rw
      (
        count-append,
        count-select (λ i. not (member i (final steps).ordered)) k (range_from 0 (length steps)),
        count-range_from k 0 (length steps),
        member-count k (final steps).ordered,
      )
      (ground (arith, inv.once k, none_ready))

-- No edge into a step is left where all that come before it by a rank are done.
pending-none :
    (rank : ℕ → ℕ) (n : ℕ) (es : List Edge) (done : List ℕ) (k : ℕ)
    → InRange n es
    → All (λ (e : Edge). rank e.0 < rank e.1) es
    → ((j : ℕ) → rank j < rank k → j < n → member j done ≡ true)
    → pending es done k ≡ 0
unfolding pending
pending-none rank n [] done k range up h = refl
pending-none rank n ((j, i) ∷ es) done k range up h = elim (Bool-cases (i == k)) [
  | inr other ↦
      let rest = pending-none rank n es done k range.1 up.1 h in ground (arith, other, rest)
  | inl own ↦
      let same : rank i ≡ rank k = ap rank ((==_iff i k).0 own) in
      let less : rank j < rank k = omega (arith, same, up.0) in
      let done_j = h j less range.0.0 in
      let rest = pending-none rank n es done k range.1 up.1 h in ground (arith, own, done_j, rest)
]

-- Where the steps can be ranked, the loop reaches all of them.
reached :
    (rank : ℕ → ℕ) (steps : List WorkflowStep)
    → All (λ (e : Edge). rank e.0 < rank e.1) (edges steps)
    → (r k : ℕ) → rank k < r
    → k < length steps
    → member k (final steps).ordered ≡ true
unfolding count
reached rank steps up zero k h b = absurd (omega (arith, h))
reached rank steps up (suc r) k h b =
    let (inv, over) = final-Inv steps in
    let settled =
      pending-none rank (length steps) (edges steps) (final steps).ordered k (edges-InRange steps)
        up (λ j less inside. reached rank steps up r j (omega (arith, less, h)) inside) in
    let none_ready : count k (final steps).ready ≡ 0 = rw over refl in
    ground (
      arith,
      inv.once k,
      none_ready,
      inv.degrees k,
      settled,
      member-count k (final steps).ordered,
      b,
    )

skipped_none :
    (done : List ℕ) (i n : ℕ)
    → ((k : ℕ) → k < i + n → member k done ≡ true)
    → select (λ k. not (member k done)) (range_from i n) ≡ []
unfolding select range_from
skipped_none done i zero h = refl
skipped_none done i (suc n) h =
    rw (h i (omega arith)) (skipped_none done (suc i) n (λ k b. h k (omega (arith, b))))

-- Where the dependencies have no cycle (the steps can be ranked so that each dependency goes up),
-- every step stands behind all the steps that it depends on.
pub topological_order-Before :
    (steps : List WorkflowStep) (rank : ℕ → ℕ)
    → All (λ (e : Edge). rank e.0 < rank e.1) (edges steps)
    → Before (edges steps) [] (topological_order steps)
unfolding topological_order
topological_order-Before steps rank up =
    rw
      (
        skipped_none (final steps).ordered 0 (length steps)
            (λ k b. reached rank steps up (suc (rank k)) k (omega arith) (omega (arith, b))),
        append-nil (final steps).ordered,
      )
      (final-Inv steps).0.before
