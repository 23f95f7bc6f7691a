-- ===== src/Cases/Records.antt =====
-- What the operations on cases keep.
use ksec.Prelude.{
  ℕ, suc, String, ◌≡◌, refl, ap, ◌∙◌, Bool, true, false, not, Option, none, some, List, [], ◌∷◌,
  ◌++◌, ◌==◌, arith, any, update_where, All, Bool-cases, Option-cases, inl, inr,
}
use ksec.Cases.{
  Case, Cases, NewCase, valid_status, valid_severity, is_blank, known_engagement, has_id, get,
  set_row, new_case, note_event, audit, create, add_finding, set_status, reopen, get_note, add_note,
}
use ksec.Prelude.Exec.{assert_some}

-- The requests to the service, with their arguments.
pub data Request : Type 0 where
  create_case : NewCase → ℕ → ℕ → Request
  link_finding : ℕ → ℕ → Option String → ℕ → Request
  change_status : ℕ → String → Option String → ℕ → ℕ → Request
  reopen_case : ℕ → String → Option String → ℕ → ℕ → Request
  write_note : ℕ → String → String → ℕ → ℕ → Request

-- The tables after a request, whether it returns or raises.
unfoldable pub after : Bool → Request → Cases → Cases
after audit_on (create_case c now later) s = (create audit_on c now later s).1
after audit_on (link_finding i f actor later) s = (add_finding audit_on i f actor later s).1
after audit_on (change_status i status actor now later) s =
    (set_status audit_on i status actor now later s).1
after audit_on (reopen_case i reason actor now later) s =
    (reopen audit_on i reason actor now later s).1
after audit_on (write_note i content author now later) s =
    (add_note audit_on i content author now later s).1

-- The old rows stand first among the new ones, unchanged.
abbrev pub Extends {ℓ} : {A : Type ℓ} → List A → List A → Type ℓ
Extends {A = A} xs ys = (more : List A) × (ys ≡ xs ++ more)

-- What every row of the table satisfies.
pub record IsSound (c : Case) : Type 0 where
  pub status : valid_status c.status ≡ true
  pub severity : valid_severity c.severity ≡ true

-- What a request keeps.
pub record Keeps (s t : Cases) : Type 0 where
  pub notes : Extends s.note_rows t.note_rows
  pub events : Extends s.event_rows t.event_rows
  pub sound : All IsSound s.rows → All IsSound t.rows

none_more {ℓ} : {A : Type ℓ} (xs : List A) → xs ≡ xs ++ []
none_more [] = refl
none_more (x ∷ xs) = ap (λ ys. x ∷ ys) (none_more xs)

append_assoc {ℓ} : {A : Type ℓ} (xs ys zs : List A) → (xs ++ ys) ++ zs ≡ xs ++ (ys ++ zs)
append_assoc [] ys zs = refl
append_assoc (x ∷ xs) ys zs = ap (λ l. x ∷ l) (append_assoc xs ys zs)

both_more {ℓ} : {A : Type ℓ} (xs ys zs : List A) → Extends xs ys → Extends ys zs → Extends xs zs
both_more xs ys zs (a, p) (b, q) = (a ++ b, q ∙ rw p (append_assoc xs a b))

unchanged : (s : Cases) → Keeps s s
unchanged s = record {
  notes = ([], none_more s.note_rows);
  events = ([], none_more s.event_rows);
  sound = λ h. h;
}

append-IsSound :
    (xs : List Case) (x : Case) → All IsSound xs → IsSound x → All IsSound (xs ++ x ∷ [])
append-IsSound [] x h p = (p, tt)
append-IsSound (y ∷ ys) x h p = (h.0, append-IsSound ys x h.1 p)

open_is_valid : valid_status "open" ≡ true
unfolding any
open_is_valid = refl

update-IsSound :
    (i : ℕ) (status : String) (now : ℕ) (xs : List Case)
    → valid_status status ≡ true
    → All IsSound xs
    → All IsSound (update_where (has_id i) (set_row status now) xs)
unfolding update_where
update-IsSound i status now [] v h = tt
update-IsSound i status now (x ∷ xs) v h = elim (Bool-cases (has_id i x)) [
  | inl hit ↦
      rw hit (record { status = v; severity = h.0.severity }, update-IsSound i status now xs v h.1)
  | inr miss ↦ rw miss (h.0, update-IsSound i status now xs v h.1)
]

not-false : (b : Bool) → not b ≡ false → b ≡ true
not-false b h = ground arith

create-Keeps :
    (audit_on : Bool) (c : NewCase) (now later : ℕ) (s : Cases)
    → Keeps s (create audit_on c now later s).1
unfolding create note_event audit
create-Keeps audit_on c now later s = elim (Bool-cases (is_blank c.title)) [
  | inl bad ↦ rw bad (unchanged s)
  | inr named ↦ rw named (elim (Bool-cases (valid_severity c.severity)) [
    | inr bad ↦ rw bad (unchanged s)
    | inl v ↦ rw v (elim (Bool-cases (known_engagement c.engagement_id s.engagements)) [
      | inr bad ↦ rw bad (unchanged s)
      | inl known ↦ rw known (elim (Option-cases (get s.next_case more)) [
        | inl gone ↦ rw gone (record {
          notes = ([], none_more s.note_rows);
          events = ([], none_more s.event_rows);
          sound = sound v;
        })
        | inr (row, found) ↦
            rw found
              (record { notes = ([], none_more s.note_rows); events = (_, refl); sound = sound v })
      ])
    ])
  ])
]
  where
    more : Cases
    more = record s {
      rows = s.rows ++ new_case s.next_case c now ∷ [];
      next_case = suc s.next_case;
    }

    sound : valid_severity c.severity ≡ true → All IsSound s.rows → All IsSound more.rows
    sound v h =
        append-IsSound s.rows (new_case s.next_case c now) h
          (record { status = open_is_valid; severity = v })

add_finding-Keeps :
    (audit_on : Bool) (i f : ℕ) (actor : Option String) (later : ℕ) (s : Cases)
    → Keeps s (add_finding audit_on i f actor later s).1
unfolding add_finding note_event audit
add_finding-Keeps audit_on i f actor later s = elim (Option-cases (get i s)) [
  | inl gone ↦ rw gone (unchanged s)
  | inr (row, found) ↦ rw found (elim (Bool-cases (any (λ key. key == f) s.finding_ids)) [
    | inr bad ↦ rw bad (unchanged s)
    | inl known ↦
        rw known
          (record { notes = ([], none_more s.note_rows); events = (_, refl); sound = λ h. h })
  ])
]

set_status-Keeps :
    (audit_on : Bool) (i : ℕ) (status : String) (actor : Option String) (now later : ℕ) (s : Cases)
    → Keeps s (set_status audit_on i status actor now later s).1
unfolding set_status note_event audit
set_status-Keeps audit_on i status actor now later s = elim (Bool-cases (valid_status status)) [
  | inr bad ↦ rw bad (unchanged s)
  | inl v ↦
      rw v
        (elim (Option-cases
          (get i (record s { rows = update_where (has_id i) (set_row status now) s.rows }))) [
            | inl gone ↦ rw gone (record {
              notes = ([], none_more s.note_rows);
              events = ([], none_more s.event_rows);
              sound = update-IsSound i status now s.rows v;
            })
            | inr (row, found) ↦ rw found (record {
              notes = ([], none_more s.note_rows);
              events = (_, refl);
              sound = update-IsSound i status now s.rows v;
            })
          ])
]

state-assert_some : {A : Type 0} (o : Option A) (s : Cases) → (assert_some o s).1 ≡ s
state-assert_some none s = refl
state-assert_some (some a) s = refl

reopen-Keeps :
    (audit_on : Bool) (i : ℕ) (reason : String) (actor : Option String) (now later : ℕ) (s : Cases)
    → Keeps s (reopen audit_on i reason actor now later s).1
unfolding reopen note_event audit
reopen-Keeps audit_on i reason actor now later s = elim (Option-cases (get i s)) [
  | inl gone ↦ rw gone (unchanged s)
  | inr (row, found) ↦ rw found (
      rw (state-assert_some _ _) (record {
        notes = ([], none_more s.note_rows);
        events = (_, refl);
        sound = update-IsSound i "open" now s.rows open_is_valid;
      }))
]

add_note-Keeps :
    (audit_on : Bool) (i : ℕ) (content author : String) (now later : ℕ) (s : Cases)
    → Keeps s (add_note audit_on i content author now later s).1
unfolding add_note note_event audit get_note
add_note-Keeps audit_on i content author now later s = elim (Option-cases (get i s)) [
  | inl gone ↦ rw gone (unchanged s)
  | inr (row, found) ↦ rw found (elim (Bool-cases (is_blank content)) [
    | inl bad ↦ rw bad (unchanged s)
    | inr fine ↦ rw fine (
        rw (state-assert_some _ _)
          (record { notes = (_, refl); events = (_, refl); sound = λ h. h }))
  ])
]

-- No request, whether it returns or raises, changes or drops a note or an entry of a timeline:
-- what was written stays in front. If every case has one of the known states and severities, then
-- every case has afterwards.
pub after-Keeps :
    (audit_on : Bool) (request : Request) (s : Cases) → Keeps s (after audit_on request s)
unfolding after
after-Keeps audit_on (create_case c now later) s = create-Keeps audit_on c now later s
after-Keeps audit_on (link_finding i f actor later) s = add_finding-Keeps audit_on i f actor later s
after-Keeps audit_on (change_status i status actor now later) s =
    set_status-Keeps audit_on i status actor now later s
after-Keeps audit_on (reopen_case i reason actor now later) s =
    reopen-Keeps audit_on i reason actor now later s
after-Keeps audit_on (write_note i content author now later) s =
    add_note-Keeps audit_on i content author now later s
