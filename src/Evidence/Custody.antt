-- ===== src/Evidence/Custody.antt =====
-- What evidence and its chain of custody keep: a fresh row verifies, and each check leaves an entry.
use ksec.Prelude.{
  ℕ, suc, String, ◌≡◌, refl, Bool, true, false, some, List, [], ◌∷◌, ◌++◌, ◌==◌, ==_iff, ◌<◌,
  str_eq, eq_refl, arith, any, find?, select, select-append, All, Bool-cases, inl, inr, ap, ◌∙◌,
  if◌then◌else◌,
}
use ksec.Prelude.Exec.{returned}
use ksec.Evidence.{
  Evidence, CustodyEvent, EvidenceTables, Entry, Collected, has_id, get, custody_event,
  record_custody, new_evidence, known_engagement, captured, verified, integrity_failure, add,
  verify_row, verify, custody_log,
}

find?-any {ℓ} :
    {A : Type ℓ} (p : A → Bool) (xs : List A) (x : A) → find? p xs ≡ some x → any p xs ≡ true
unfolding find? any
find?-any p [] x e = ground arith
find?-any p (y ∷ ys) x e = ground (arith, find?-any p ys x)

-- The tables after an entry.
abbrev pub with_entry : ℕ → Entry → ℕ → EvidenceTables → EvidenceTables
with_entry i entry now t = record t {
  custody = t.custody ++ custody_event t.next_event i entry now ∷ [];
  next_event = suc t.next_event;
}

record_custody_lem :
    (i : ℕ) (entry : Entry) (now : ℕ) (t : EvidenceTables)
    → any (has_id i) t.rows ≡ true
    → record_custody i entry now t
      ≡ (returned (custody_event t.next_event i entry now), with_entry i entry now t)
unfolding record_custody
record_custody_lem i entry now t h = rw h refl

-- What `verify` answers and writes when the hash agrees or not.
abbrev pub verdict : Bool → Bool × String
verdict true = (true, "integrity verified")
verdict false = (false, "content hash mismatch — evidence was altered")

abbrev pub entry_of : Bool → Entry
entry_of true = verified
entry_of false = integrity_failure

log-with_entry :
    (i j : ℕ) (entry : Entry) (now : ℕ) (t : EvidenceTables)
    → custody_log j (with_entry i entry now t)
      ≡ custody_log j t ++ (if i == j then custody_event t.next_event i entry now ∷ [] else [])
unfolding custody_log select
log-with_entry i j entry now t =
    select-append (λ (e : CustodyEvent). e.evidence_id == j) t.custody
      (custody_event t.next_event i entry now ∷ [])
    ∙ ap (λ l. custody_log j t ++ l) (ground arith)

verify_state :
    (hash : String → String) (i now : ℕ) (t : EvidenceTables) (e : Evidence)
    → get i t ≡ some e
    → verify hash i now t ≡ (
      returned (verdict (str_eq (hash e.content) e.sha256)),
      with_entry i (entry_of (str_eq (hash e.content) e.sha256)) now t,
    )
unfolding verify verify_row get
verify_state hash i now t e h =
    rw (verify, h)
      (elim (Bool-cases (str_eq (hash e.content) e.sha256)) [
        | inl same ↦
            rw same
              (rw (record_custody_lem i verified now t (find?-any (has_id i) t.rows e h)) refl)
        | inr other ↦ rw other (
            rw (record_custody_lem i integrity_failure now t (find?-any (has_id i) t.rows e h))
              refl)
      ])

-- `verify` of evidence that is there says whether the hash of its content is the recorded one,
-- changes no row of evidence, and appends one entry that says so to the chain of custody of this
-- evidence and to no other.
pub verify_lem :
    (hash : String → String) (i now : ℕ) (t : EvidenceTables) (e : Evidence) (j : ℕ)
    → get i t ≡ some e
    → ((verify hash i now t).0 ≡ returned (verdict (str_eq (hash e.content) e.sha256)))
      × ((verify hash i now t).1.rows ≡ t.rows)
      × (custody_log j (verify hash i now t).1
          ≡ custody_log j t
            ++ (if i == j
                then custody_event t.next_event i (entry_of (str_eq (hash e.content) e.sha256)) now
                  ∷ []
                else []))
verify_lem hash i now t e j h =
    rw (verify_state hash i now t e h)
      (refl, refl, log-with_entry i j (entry_of (str_eq (hash e.content) e.sha256)) now t)

-- No row and no entry has a key that is still to be given.
pub record IsFresh (t : EvidenceTables) : Type 0 where
  pub rows : All (λ (e : Evidence). e.id < t.next_evidence) t.rows
  pub custody : All (λ (e : CustodyEvent). e.evidence_id < t.next_evidence) t.custody

find?-append :
    (k : ℕ) (rows : List Evidence) (e : Evidence)
    → All (λ (r : Evidence). r.id < k) rows
    → e.id ≡ k
    → find? (has_id k) (rows ++ e ∷ []) ≡ some e
unfolding find?
find?-append k [] e h q = ground arith
find?-append k (r ∷ rows) e h q = ground (arith, find?-append k rows e h.1 q, h.0)

empty_log :
    (k : ℕ) (custody : List CustodyEvent)
    → All (λ (e : CustodyEvent). e.evidence_id < k) custody
    → select (λ (e : CustodyEvent). e.evidence_id == k) custody ≡ []
unfolding select
empty_log k [] h = refl
empty_log k (e ∷ custody) h = ground (arith, empty_log k custody h.1, h.0)

-- The tables after `add` has written its row.
abbrev pub with_row : (String → String) → Collected → ℕ → EvidenceTables → EvidenceTables
with_row hash c now t = record t {
  rows = t.rows ++ new_evidence hash t.next_evidence c now ∷ [];
  next_evidence = suc t.next_evidence;
}

get-with_row :
    (hash : String → String) (c : Collected) (now : ℕ) (t : EvidenceTables)
    → IsFresh t
    → get t.next_evidence (with_row hash c now t) ≡ some (new_evidence hash t.next_evidence c now)
unfolding get
get-with_row hash c now t f =
    find?-append t.next_evidence t.rows (new_evidence hash t.next_evidence c now) f.rows refl

present :
    (hash : String → String) (c : Collected) (now : ℕ) (t : EvidenceTables)
    → get t.next_evidence (with_row hash c now t) ≡ some (new_evidence hash t.next_evidence c now)
    → any (has_id t.next_evidence) (with_row hash c now t).rows ≡ true
unfolding get
present hash c now t k =
    find?-any (has_id t.next_evidence) (with_row hash c now t).rows
      (new_evidence hash t.next_evidence c now) k

add_state :
    (hash : String → String) (c : Collected) (now later : ℕ) (t : EvidenceTables)
    → IsFresh t
    → known_engagement c.engagement_id t.engagements ≡ true
    → add hash c now later t ≡ (
      returned (new_evidence hash t.next_evidence c now),
      with_entry t.next_evidence (captured c) later (with_row hash c now t),
    )
unfolding add
add_state hash c now later t f h =
    let k = get-with_row hash c now t f in
    rw (add, h)
      (rw k (
        rw
          (record_custody_lem t.next_evidence (captured c) later (with_row hash c now t)
            (present hash c now t k))
          refl))

==_refl : (k : ℕ) → (k == k) ≡ true
==_refl k = (==_iff k k).1 refl

-- The tables after `add`.
abbrev added : (String → String) → Collected → ℕ → ℕ → EvidenceTables → EvidenceTables
added hash c now later t = with_entry t.next_evidence (captured c) later (with_row hash c now t)

get-added :
    (hash : String → String) (c : Collected) (now later : ℕ) (t : EvidenceTables)
    → IsFresh t
    → get t.next_evidence (added hash c now later t)
      ≡ some (new_evidence hash t.next_evidence c now)
unfolding get
get-added hash c now later t f =
    find?-append t.next_evidence t.rows (new_evidence hash t.next_evidence c now) f.rows refl

log-added :
    (hash : String → String) (c : Collected) (now later : ℕ) (t : EvidenceTables)
    → IsFresh t
    → custody_log t.next_evidence (added hash c now later t)
      ≡ custody_event t.next_event t.next_evidence (captured c) later ∷ []
unfolding custody_log
log-added hash c now later t f =
    log-with_entry t.next_evidence t.next_evidence (captured c) later (with_row hash c now t)
    ∙ rw (empty_log t.next_evidence t.custody f.custody, ==_refl t.next_evidence) refl

verify-added :
    (hash : String → String) (c : Collected) (now later again : ℕ) (t : EvidenceTables)
    → IsFresh t
    → ((verify hash t.next_evidence again (added hash c now later t)).0
        ≡ returned (true, "integrity verified"))
      × (custody_log t.next_evidence
            (verify hash t.next_evidence again (added hash c now later t)).1
          ≡ custody_event t.next_event t.next_evidence (captured c) later
            ∷ custody_event (suc t.next_event) t.next_evidence verified again
            ∷ [])
verify-added hash c now later again t f =
    let k = t.next_evidence in
    rw
      (
        verify_state hash k again (added hash c now later t) (new_evidence hash k c now)
            (get-added hash c now later t f),
        eq_refl (hash c.content),
      )
      (
        refl,
        log-with_entry k k verified again (added hash c now later t)
            ∙ rw (log-added hash c now later t f, ==_refl k) refl,
      )

-- Where the keys are fresh and the engagement, if one is named, is known: what `add` collects
-- verifies at any later time, and its chain of custody is then the entry of the capture and that
-- of the verification, in this order.
pub add-verify :
    (hash : String → String) (c : Collected) (now later again : ℕ) (t : EvidenceTables)
    → IsFresh t
    → known_engagement c.engagement_id t.engagements ≡ true
    → ((verify hash t.next_evidence again (add hash c now later t).1).0
        ≡ returned (true, "integrity verified"))
      × (custody_log t.next_evidence
            (verify hash t.next_evidence again (add hash c now later t).1).1
          ≡ custody_event t.next_event t.next_evidence (captured c) later
            ∷ custody_event (suc t.next_event) t.next_evidence verified again
            ∷ [])
add-verify hash c now later again t f h =
    rw (add_state hash c now later t f h) (verify-added hash c now later again t f)
