-- ===== src/Alerts/Times.antt =====
-- What stays of an alert whatever is done to the alerts.
use ksec.Prelude.{
  ℕ, String, ◌≡◌, refl, sym, ◌∙◌, Bool, true, ◌||◌, Option, none, some, List, [], ◌∷◌, ◌++◌, ==_iff,
  str_eq, arith, find?, update_where, find?-update_where, find?-holds, Bool-cases, Option-cases,
  inl, inr,
}
use ksec.Prelude.Keeps.{Keeps, keeps_continue, keeps_assert_some}
use ksec.Alerts.{
  Alert, AlertService, NewAlert, valid_status, has_id, get, audit, new_alert, first_time, moved,
  create, set_status, link_case, resolve,
}

-- A time that was written stays.
abbrev pub Stays : Option ℕ → Option ℕ → Type 0
Stays none y = Unit
Stays (some time) y = y ≡ some time

-- What the later row of an alert has in common with an earlier one.
pub record IsLater (a b : Alert) : Type 0 where
  pub alert_id : b.alert_id ≡ a.alert_id
  pub severity : b.severity ≡ a.severity
  pub created : b.created_at ≡ a.created_at
  pub acknowledged : Stays a.acknowledged_at b.acknowledged_at
  pub resolved : Stays a.resolved_at b.resolved_at

-- The alert of a key is there, and is a later row.
abbrev pub Holds : ℕ → Alert → AlertService → Type 0
Holds j a s = (b : Alert) × (get j s ≡ some b) × IsLater a b

-- The requests that write, with their arguments.
pub data Request : Type 0 where
  create_alert : String → NewAlert → ℕ → Request
  change_status : ℕ → String → Option String → ℕ → Request
  resolve_alert : ℕ → Option ℕ → Option String → ℕ → Request

-- The table after a request, whether it returns or raises.
unfoldable pub after : Bool → Request → AlertService → AlertService
after audit_on (create_alert uuid a now) s = (create audit_on uuid a now s).1
after audit_on (change_status i status actor now) s = (set_status audit_on i status actor now s).1
after audit_on (resolve_alert i case_id actor now) s = (resolve audit_on i case_id actor now s).1

unfoldable pub after_all : Bool → List Request → AlertService → AlertService
after_all audit_on [] s = s
after_all audit_on (r ∷ rs) s = after_all audit_on rs (after audit_on r s)

Stays-refl : (x : Option ℕ) → Stays x x
Stays-refl none = tt
Stays-refl (some t) = refl

Stays-first_time :
    (due : Bool) (now : ℕ) (x y : Option ℕ) → Stays x y → Stays x (first_time due y now)
Stays-first_time due now none y h = tt
Stays-first_time due now (some t) y h = rw h refl

append-get :
    (j : ℕ) (xs : List Alert) (x b : Alert)
    → find? (has_id j) xs ≡ some b
    → find? (has_id j) (xs ++ x ∷ []) ≡ some b
unfolding find?
append-get j [] x b e = ground (arith, e)
append-get j (y ∷ ys) x b e = ground (arith, e, append-get j ys x b)

-- A change of the rows of one key that leaves the keys.
Holds-update :
    (j i : ℕ) (a : Alert) (f : Alert → Alert) (s : AlertService)
    → ((x : Alert) → has_id j (f x) ≡ has_id j x)
    → ((b : Alert) → get j s ≡ some b → has_id i b ≡ true → IsLater a b → IsLater a (f b))
    → Holds j a s
    → Holds j a (record s { rows = update_where (has_id i) f s.rows })
unfolding get
Holds-update j i a f s same later (b, found, before) =
    let updated = find?-update_where (has_id j) (has_id i) f s.rows same in
    elim (Bool-cases (has_id i b)) [
      | inl hit ↦ (f b, rw (updated, found, hit) refl, later b found hit before)
      | inr miss ↦ (b, rw (updated, found, miss) refl, before)
    ]

create-Holds :
    (j : ℕ) (a : Alert) (audit_on : Bool) (uuid : String) (n : NewAlert) (now : ℕ)
    → Keeps (Holds j a) (create audit_on uuid n now)
unfolding create audit get
create-Holds j a audit_on uuid n now s (b, found, before) =
    elim (Bool-cases (s.refers (new_alert s.next_alert uuid n now))) [
      | inr bad ↦ rw bad (b, found, before)
      | inl known ↦ rw known (
          keeps_continue (Holds j a) _ _ _
            (keeps_assert_some (Holds j a) _ _
              (b, append-get j s.rows (new_alert s.next_alert uuid n now) b found, before))
            (λ row t h. h))
    ]

-- A key that a row has is the key that it was found by.
one_row :
    (i j : ℕ) (s : AlertService) (alert b : Alert)
    → get i s ≡ some alert
    → get j s ≡ some b
    → has_id i b ≡ true
    → alert ≡ b
unfolding get
one_row i j s alert b at_i at_j hit =
    let own = find?-holds (has_id j) s.rows b at_j in
    let same : i ≡ j = sym ((==_iff b.id i).0 hit) ∙ (==_iff b.id j).0 own in
    let again : find? (has_id i) s.rows ≡ some b = rw same at_j in ground (arith, at_i, again)

set_status-Holds :
    (j : ℕ) (a : Alert) (audit_on : Bool) (i : ℕ) (status : String) (actor : Option String)
    (now : ℕ)
    → Keeps (Holds j a) (set_status audit_on i status actor now)
unfolding set_status audit get
set_status-Holds j a audit_on i status actor now s h = elim (Bool-cases (valid_status status)) [
  | inr bad ↦ rw bad h
  | inl known ↦ rw known (elim (Option-cases (get i s)) [
    | inl gone ↦ rw gone h
    | inr (alert, found) ↦ rw found (
        keeps_continue (Holds j a) _ _ _
          (keeps_assert_some (Holds j a) _ _ (
            Holds-update j i a (moved status now alert) s (λ x. refl)
              (λ b at_j hit before.
                let same = one_row i j s alert b found at_j hit in
                record {
                  alert_id = before.alert_id;
                  severity = before.severity;
                  created = before.created;
                  acknowledged = rw same (
                      Stays-first_time (str_eq status "acknowledged") now a.acknowledged_at
                        b.acknowledged_at before.acknowledged);
                  resolved = rw same (
                      Stays-first_time (str_eq status "resolved" || str_eq status "closed") now
                        a.resolved_at b.resolved_at before.resolved);
                })
              h))
          (λ row t k. k))
  ])
]

link_case-Holds :
    (j : ℕ) (a : Alert) (i : ℕ) (case_id : Option ℕ) (alert : Alert)
    → Keeps (Holds j a) (link_case i case_id alert)
unfolding link_case
link_case-Holds j a i none alert s h = h
link_case-Holds j a i (some case_id) alert s h =
    elim (Bool-cases (s.refers (record alert { case_id = some case_id }))) [
      | inr bad ↦ rw bad h
      | inl known ↦ rw known (
          keeps_assert_some (Holds j a) _ _ (
            Holds-update j i a (λ x. record x { case_id = some case_id }) s (λ x. refl)
              (λ b at_j hit before. record {
                alert_id = before.alert_id;
                severity = before.severity;
                created = before.created;
                acknowledged = before.acknowledged;
                resolved = before.resolved;
              })
              h))
    ]

resolve-Holds :
    (j : ℕ) (a : Alert) (audit_on : Bool) (i : ℕ) (case_id : Option ℕ) (actor : Option String)
    (now : ℕ)
    → Keeps (Holds j a) (resolve audit_on i case_id actor now)
unfolding resolve
resolve-Holds j a audit_on i case_id actor now s h =
    keeps_continue (Holds j a) (set_status audit_on i "resolved" actor now s).0
      (λ alert. link_case alert.id case_id alert) (set_status audit_on i "resolved" actor now s).1
      (set_status-Holds j a audit_on i "resolved" actor now s h)
      (λ alert. link_case-Holds j a alert.id case_id alert)

after-Holds :
    (audit_on : Bool) (j : ℕ) (a : Alert) (r : Request) (s : AlertService)
    → Holds j a s
    → Holds j a (after audit_on r s)
unfolding after
after-Holds audit_on j a (create_alert uuid n now) s h = create-Holds j a audit_on uuid n now s h
after-Holds audit_on j a (change_status i status actor now) s h =
    set_status-Holds j a audit_on i status actor now s h
after-Holds audit_on j a (resolve_alert i case_id actor now) s h =
    resolve-Holds j a audit_on i case_id actor now s h

after_all-Holds :
    (audit_on : Bool) (j : ℕ) (a : Alert) (rs : List Request) (s : AlertService)
    → Holds j a s
    → Holds j a (after_all audit_on rs s)
unfolding after_all
after_all-Holds audit_on j a [] s h = h
after_all-Holds audit_on j a (r ∷ rs) s h =
    after_all-Holds audit_on j a rs (after audit_on r s) (after-Holds audit_on j a r s h)

-- Whatever requests are made, and whether they return or raise, an alert is never lost: it keeps
-- its name, its severity and the time of its creation, and the times of its first acknowledgement
-- and of its first resolution are never written again, not even when it is opened and resolved anew.
pub after_all-IsLater :
    (audit_on : Bool) (rs : List Request) (s : AlertService) (j : ℕ) (a : Alert)
    → get j s ≡ some a
    → (b : Alert) × (get j (after_all audit_on rs s) ≡ some b) × IsLater a b
after_all-IsLater audit_on rs s j a found = after_all-Holds audit_on j a rs s (
  a,
  found,
  record {
    alert_id = refl;
    severity = refl;
    created = refl;
    acknowledged = Stays-refl a.acknowledged_at;
    resolved = Stays-refl a.resolved_at;
  },
)
