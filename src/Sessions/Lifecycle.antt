-- ===== src/Sessions/Lifecycle.antt =====
-- The life of a session: what a transition does, and that an end state is final.
use ksec.Prelude.{
  ℕ, String, ◌≡◌, refl, Bool, true, false, Option, none, some, List, [], ◌∷◌, arith, find?, sym,
  ◌∙◌, str_eq→eq, find?-holds, update_where, find?-update_where, Bool-cases, Option-cases, inl, inr,
  if◌then◌else◌,
}
use ksec.Prelude.Exec.{Exec, raise, assert_some, session_error}
use ksec.Sessions.{
  Session, Sessions, SessionState, closed, failed, allowed, has_id, get, set_row, move_to,
  transition, read_state, note,
}

abbrev pub has_ended : SessionState → Bool
has_ended closed = true
has_ended failed = true
has_ended _ = false

get-update :
    (j i : String) (st : SessionState) (now : ℕ) (rows : List Session)
    → find? (has_id j) (update_where (has_id i) (set_row st now) rows)
      ≡ (elim (find? (has_id j) rows) [
        | none ↦ none
        | some r ↦ some (if has_id i r then set_row st now r else r)
      ])
get-update j i st now rows =
    find?-update_where (has_id j) (has_id i) (set_row st now) rows (λ r. refl)

ended_allowed : (from to : SessionState) → has_ended from ≡ true → allowed from to ≡ false
ended_allowed from to h = ground arith

some_same : (a b : Session) → some a ≡ some b → a ≡ b
some_same a b h = cc

get-assert_some :
    (j : String) (o : Option Session) (s : Sessions) → get j (assert_some o s).1 ≡ get j s
get-assert_some j none s = refl
get-assert_some j (some session) s = refl

-- The row of a session after a move of a session to a state that it may have.
moved :
    (i j : String) (st : SessionState) (now : ℕ) (s : Sessions) (session r : Session)
    → get i s ≡ some session
    → get j s ≡ some r
    → allowed session.state st ≡ true
    → has_ended r.state ≡ true
    → find? (has_id j) (update_where (has_id i) (set_row st now) s.rows) ≡ some r
unfolding get
moved i j st now s session r hi hj ok e =
    rw (get-update j i st now s.rows, hj)
      (elim (Bool-cases (has_id i r)) [
        | inr other ↦ rw other refl
        | inl same ↦ absurd (
            let a = str_eq→eq r.id i same in
            let b = str_eq→eq r.id j (find?-holds (has_id j) s.rows r hj) in
            let k : i ≡ j = sym a ∙ b in
            let l : get j s ≡ some session = rw (sym k) hi in
            let q : session ≡ r = some_same session r (sym l ∙ hj) in
            let z : allowed r.state st ≡ true = rw (sym q) ok in
            let y = ended_allowed r.state st e in cc)
      ])

move_to-final :
    (audit_on : Bool) (i : String) (st : SessionState) (now : ℕ) (s : Sessions) (j : String)
    (r : Session)
    → get j s ≡ some r
    → has_ended r.state ≡ true
    → get j (move_to audit_on i st now s).1 ≡ some r
unfolding move_to note get
move_to-final audit_on i st now s j r h e = elim (Option-cases (get i s)) [
  | inl gone ↦ rw gone h
  | inr (session, known) ↦ rw known (elim (Bool-cases (allowed session.state st)) [
    | inr bad ↦ rw bad h
    | inl good ↦ rw good (get-assert_some j _ _ ∙ moved i j st now s session r known h good e)
  ])
]

-- A session that is closed or has failed stays as it is, whatever session is asked to move to
-- whatever state.
pub transition-final :
    (audit_on : Bool) (i new_state : String) (now : ℕ) (s : Sessions) (j : String) (r : Session)
    → get j s ≡ some r
    → has_ended r.state ≡ true
    → get j (transition audit_on i new_state now s).1 ≡ some r
unfolding transition
transition-final audit_on i new_state now s j r h e = answer (read_state new_state)
  where
    answer :
        (o : Option SessionState)
        → get j
            ((elim o as (λ x. Exec Sessions Session) [
              | none ↦ raise (session_error ("Unknown session state: " ∷ new_state ∷ []))
              | some state ↦ move_to audit_on i state now
            ])
              s).1
          ≡ some r
    answer none = h
    answer (some state) = move_to-final audit_on i state now s j r h e
