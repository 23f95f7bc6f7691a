-- ===== src/Workflows/Rounds.antt =====
-- The rounds of the loop that orders the steps of a workflow, and what holds before each of them.
use ksec.Prelude.{
  ℕ, zero, suc, ◌+◌, ◌-◌, ◌≤◌, ◌<◌, ◌≡◌, refl, ap, sym, ◌∙◌, Bool, true, false, not, ◌&&◌, ◌||◌,
  List, [], ◌∷◌, ◌++◌, ltb, ◌==◌, ==_iff, any, select, All, arith, Bool-cases, inl, inr,
  if◌then◌else◌,
}
use ksec.Workflows.{
  Edge, Queue, indegree, successors, range_from, release_one, release, take_step, member,
}

-- How often a place stands in a list.
unfoldable pub count : ℕ → List ℕ → ℕ
count k [] = 0
count k (x ∷ xs) = (if x == k then 1 else 0) + count k xs

abbrev pub one_if : Bool → ℕ
one_if true = 1
one_if false = 0

pub count-append : (k : ℕ) (xs ys : List ℕ) → count k (xs ++ ys) ≡ count k xs + count k ys
unfolding count
count-append k [] ys = omega arith
count-append k (x ∷ xs) ys = omega (arith, count-append k xs ys)

pub member-count : (k : ℕ) (xs : List ℕ) → member k xs ≡ not (count k xs == 0)
unfolding count any
member-count k [] = refl
member-count k (x ∷ xs) = ground (arith, member-count k xs)

member-append : (k : ℕ) (xs ys : List ℕ) → member k (xs ++ ys) ≡ (member k xs || member k ys)
unfolding any
member-append k [] ys = refl
member-append k (x ∷ xs) ys = ground (arith, member-append k xs ys)

pub member-snoc : (k x : ℕ) (xs : List ℕ) → member k (xs ++ x ∷ []) ≡ (member k xs || (x == k))
unfolding any
member-snoc k x [] = ground arith
member-snoc k x (y ∷ xs) = ground (arith, member-snoc k x xs)

pub count-select :
    (p : ℕ → Bool) (k : ℕ) (xs : List ℕ) → count k (select p xs) ≡ (if p k then count k xs else 0)
unfolding count select
count-select p k [] = ground arith
count-select p k (x ∷ xs) = ground (arith, count-select p k xs, ==_iff x k)

pub count-range_from :
    (k i n : ℕ) → count k (range_from i n) ≡ one_if (not (ltb k i) && ltb k (i + n))
unfolding count range_from
count-range_from k i zero = ground arith
count-range_from k i (suc n) = ground (arith, count-range_from k (suc i) n)

-- The edges into a step from steps that are not done.
unfoldable pub pending : List Edge → List ℕ → ℕ → ℕ
pending [] done k = 0
pending ((j, i) ∷ es) done k =
    (if (i == k) && not (member j done) then 1 else 0) + pending es done k

pub pending-start : (es : List Edge) (k : ℕ) → pending es [] k ≡ indegree es k
unfolding pending indegree any
pending-start [] k = refl
pending-start ((j, i) ∷ es) k = ground (arith, pending-start es k)

same_member : (j s : ℕ) (done : List ℕ) → (j == s) ≡ true → member j done ≡ member s done
same_member j s done e = ap (λ k. member k done) ((==_iff j s).0 e)

-- A step that is done settles its own edges.
pending-append :
    (es : List Edge) (done : List ℕ) (s k : ℕ)
    → member s done ≡ false
    → pending es done k ≡ count k (successors es s) + pending es (done ++ s ∷ []) k
unfolding pending successors count
pending-append [] done s k h = refl
pending-append ((j, i) ∷ es) done s k h = elim (Bool-cases (j == s)) [
  | inl own ↦ rw own (
      ground (
        arith,
        pending-append es done s k h,
        member-snoc j s done,
        same_member j s done own ∙ h,
        ==_iff s j,
        ==_iff j s,
        own,
      ))
  | inr other ↦ rw other (
      ground
        (arith, pending-append es done s k h, member-snoc j s done, ==_iff s j, ==_iff j s, other))
]

degree-release_one :
    (t : ℕ) (q : Queue) (k : ℕ) → (release_one t q).degree k ≡ q.degree k - one_if (t == k)
degree-release_one t q k = ground arith

ready-release_one :
    (t : ℕ) (q : Queue) (k : ℕ)
    → count k (release_one t q).ready ≡ count k q.ready + one_if ((t == k) && (q.degree k == 1))
unfolding count
ready-release_one t q k = elim (Bool-cases (t == k)) [
  | inl own ↦
      let same : q.degree t ≡ q.degree k = ap q.degree ((==_iff t k).0 own) in
      rw own (elim (Bool-cases (q.degree t == 1)) [
        | inl last ↦ rw last (ground (arith, count-append k q.ready (t ∷ []), own, same, last))
        | inr more ↦ rw more (ground (arith, same, more))
      ])
  | inr other ↦ rw other (elim (Bool-cases (q.degree t == 1)) [
    | inl last ↦ rw last (ground (arith, count-append k q.ready (t ∷ []), other))
    | inr more ↦ rw more (ground arith)
  ])
]

-- What the inner loop does to one step: each of its occurrences takes one from its degree, and the
-- step is ready once when that brings the degree to zero.
release_lem :
    (ts : List ℕ) (q : Queue) (k : ℕ)
    → count k ts ≤ q.degree k
    → ((release ts q).degree k ≡ q.degree k - count k ts)
      × (count k (release ts q).ready
          ≡ count k q.ready + one_if (not (q.degree k == 0) && (q.degree k == count k ts)))
      × ((release ts q).ordered ≡ q.ordered)
unfolding release count
release_lem [] q k h = ground arith
release_lem (t ∷ ts) q k h = ground (
  arith,
  h,
  degree-release_one t q k,
  ready-release_one t q k,
  release_lem ts (release_one t q) k,
)

-- Every step of a list stands behind all that it waits for: no edge leads to it from a step that is
-- neither in `done` nor before it.
abbrev pub Before : List Edge → List ℕ → List ℕ → Type 0
Before es done [] = Unit
Before es done (i ∷ xs) = (pending es done i ≡ 0) × Before es (done ++ i ∷ []) xs

append_assoc {ℓ} : {A : Type ℓ} (xs ys zs : List A) → (xs ++ ys) ++ zs ≡ xs ++ (ys ++ zs)
append_assoc [] ys zs = refl
append_assoc (x ∷ xs) ys zs = ap (λ l. x ∷ l) (append_assoc xs ys zs)

pub append-nil {ℓ} : {A : Type ℓ} (xs : List A) → xs ++ [] ≡ xs
append-nil [] = refl
append-nil (x ∷ xs) = ap (λ l. x ∷ l) (append-nil xs)

Before-append :
    (es : List Edge) (done xs : List ℕ) (i : ℕ)
    → Before es done xs
    → pending es (done ++ xs) i ≡ 0
    → Before es done (xs ++ i ∷ [])
Before-append es done [] i h p = (rw (append-nil done) at p, tt)
Before-append es done (x ∷ xs) i h p =
    (h.0, Before-append es (done ++ x ∷ []) xs i h.1 (rw (← append_assoc done (x ∷ []) xs) at p))

-- Both ends of every edge are steps.
abbrev pub InRange : ℕ → List Edge → Type 0
InRange n es = All (λ (e : Edge). (e.0 < n) × (e.1 < n)) es

successors-lt :
    (n : ℕ) (es : List Edge) (i k : ℕ)
    → InRange n es
    → (count k (successors es i) == 0) ≡ false
    → ltb k n ≡ true
unfolding successors count
successors-lt n [] i k h c = cc
successors-lt n ((j, t) ∷ es) i k h c = elim (Bool-cases (j == i)) [
  | inr other ↦ successors-lt n es i k h.1 (rw other at c)
  | inl own ↦ elim (Bool-cases (t == k)) [
    | inl here ↦ ground (arith, here, h.0)
    | inr there ↦ successors-lt n es i k h.1 (let d = (rw own at c) in ground (arith, d, there))
  ]
]

-- What holds before each round of the loop.
pub record Inv (es : List Edge) (n : ℕ) (q : Queue) : Type 0 where
  pub degrees : (k : ℕ) → q.degree k ≡ pending es q.ordered k
  pub once : (k : ℕ) → count k q.ordered + count k q.ready ≡ one_if (ltb k n && (q.degree k == 0))
  pub before : Before es [] q.ordered

-- The step that is taken has not been taken before, is a step, and waits for none.
pub first_ready :
    (es : List Edge) (n i : ℕ) (waiting : List ℕ) (q : Queue)
    → Inv es n q
    → q.ready ≡ i ∷ waiting
    → (member i q.ordered ≡ false) × (ltb i n ≡ true) × (q.degree i ≡ 0)
unfolding count
first_ready es n i waiting q inv e =
    let o = inv.once i in
    let c : count i q.ready ≡ suc (count i waiting) = rw e (ground arith) in
    ground (arith, o, c, member-count i q.ordered)

-- The numbers before and after a round, for one step.
record Round (es : List Edge) (n i : ℕ) (waiting : List ℕ) (q : Queue) (k : ℕ) : Type 0 where
  bound : count k (successors es i) ≤ q.degree k
  settled : q.degree k ≡ count k (successors es i) + pending es (q.ordered ++ i ∷ []) k
  degree : (take_step es i waiting q).degree k ≡ q.degree k - count k (successors es i)
  ready :
      count k (take_step es i waiting q).ready
      ≡ count k waiting
        + one_if (not (q.degree k == 0) && (q.degree k == count k (successors es i)))
  ordered : (take_step es i waiting q).ordered ≡ q.ordered ++ i ∷ []

round :
    (es : List Edge) (n i : ℕ) (waiting : List ℕ) (q : Queue) (k : ℕ)
    → Inv es n q
    → q.ready ≡ i ∷ waiting
    → Round es n i waiting q k
round es n i waiting q k inv e =
    let settled =
      inv.degrees k ∙ pending-append es q.ordered i k (first_ready es n i waiting q inv e).0 in
    let bound : count k (successors es i) ≤ q.degree k = omega (arith, settled) in
    let q1 = record q { ready = waiting; ordered = q.ordered ++ i ∷ [] } in
    let (d, r, o) = release_lem (successors es i) q1 k bound in
    record { bound = bound; settled = settled; degree = d; ready = r; ordered = o }

pub take_step-Inv :
    (es : List Edge) (n i : ℕ) (waiting : List ℕ) (q : Queue)
    → InRange n es
    → Inv es n q
    → q.ready ≡ i ∷ waiting
    → Inv es n (take_step es i waiting q)
unfolding count
take_step-Inv es n i waiting q range inv e = record {
  degrees = λ k.
      let r = round es n i waiting q k inv e in
      r.degree ∙ (omega (arith, r.settled) ∙ ap (λ o. pending es o k) (sym r.ordered));
  once = λ k.
      let r = round es n i waiting q k inv e in
      let was : count k q.ready ≡ (if i == k then 1 else 0) + count k waiting = rw e refl in
      let now : count k (take_step es i waiting q).ordered
          ≡ count k q.ordered + (if i == k then 1 else 0) =
        ap (count k) r.ordered ∙ (count-append k q.ordered (i ∷ []) ∙ ground arith) in
      ground
        (arith, inv.once k, was, now, r.bound, r.degree, r.ready, successors-lt n es i k range);
  before =
      let r = round es n i waiting q i inv e in
      rw r.ordered (
        Before-append es [] q.ordered i inv.before
          (sym (inv.degrees i) ∙ (first_ready es n i waiting q inv e).2));
}

pub ordered-release : (ts : List ℕ) (q : Queue) → (release ts q).ordered ≡ q.ordered
unfolding release
ordered-release [] q = refl
ordered-release (t ∷ ts) q = ordered-release ts (release_one t q)
