-- ===== src/Change/Scans.antt =====
-- When a scan is clean.
use ksec.Prelude.{
  ℕ, String, ◌≡◌, ◌↔◌, refl, sym, true, false, Option, none, some, List, [], ◌∷◌, ◌++◌, ◌==◌,
  str_eq, eq_iff, arith, find?, Bool-cases, inl, inr,
}
use mathlib.Core.Path.{subst}
use ksec.Prelude.Exec.{returned}
use ksec.Prelude.Json.{Json, Fields, end, field}
use ksec.Change.{
  ChangeBaseline, ChangeScan, ChangeService, Env, get_baseline, get_scan, is_scan, status_of,
  new_scan, notify, audit, scan,
}
use ksec.Change.Diff.{DriftItem, lookup, diff}
use ksec.Change.Clean.{Same, IsJson, HasKeysOnce, diff-Same}
use ksec.Change.Snapshot.{
  AssetRow, Platform, push, append_at, asset_item, group_assets, assets_snapshot, findings_snapshot,
  jobs_snapshot, counter, counters, config_snapshot, snapshot,
}

lookup-append_at :
    (k key : String) (value : Json) (fs : Fields)
    → str_eq key k ≡ false
    → lookup k fs ≡ none
    → lookup k (append_at key value fs) ≡ none
unfolding lookup append_at
lookup-append_at k key value end other e = rw other refl
lookup-append_at k key value (field j old rest) other e =
    let same = eq_iff j key in
    let next = lookup-append_at k key value rest other in
    elim (Bool-cases (str_eq j key)) [
      | inl here ↦ ground (arith, here, other, e)
      | inr there ↦ ground (arith, there, e, next)
    ]

str_eq_no : (a b : String) → str_eq a b ≡ false → str_eq b a ≡ false
str_eq_no a b h = elim (Bool-cases (str_eq b a)) [
  | inl same ↦
      let back : str_eq a b ≡ true = (eq_iff a b).1 (sym ((eq_iff b a).0 same)) in
      absurd (ground (arith, h, back))
  | inr other ↦ other
]

-- A group holds a list.
push-IsJson : (old value : Json) → IsJson old → IsJson (push old value)
unfolding IsJson
push-IsJson (Json.arr xs) value h = tt
push-IsJson Json.null value h = tt
push-IsJson (Json.bool b) value h = tt
push-IsJson (Json.int n) value h = tt
push-IsJson (Json.real t) value h = tt
push-IsJson (Json.str t) value h = tt
push-IsJson (Json.obj fs) value h = h

append_at-HasKeysOnce :
    (key : String) (value : Json) (fs : Fields)
    → HasKeysOnce fs
    → HasKeysOnce (append_at key value fs)
unfolding append_at IsJson lookup
append_at-HasKeysOnce key value end h = (refl, tt, tt)
append_at-HasKeysOnce key value (field k old rest) h = elim (Bool-cases (str_eq k key)) [
  | inl here ↦ rw (append_at, here) (h.0, push-IsJson old value h.1, h.2)
  | inr there ↦
      rw (append_at, there)
        (
          lookup-append_at k key value rest (str_eq_no k key there) h.0,
          h.1,
          append_at-HasKeysOnce key value rest h.2,
        )
]

group_assets-HasKeysOnce :
    (rows : List AssetRow) (fs : Fields) → HasKeysOnce fs → HasKeysOnce (group_assets rows fs)
unfolding group_assets
group_assets-HasKeysOnce [] fs h = h
group_assets-HasKeysOnce (row ∷ rows) fs h =
    group_assets-HasKeysOnce rows (append_at row.asset_type (asset_item row) fs)
      (append_at-HasKeysOnce row.asset_type (asset_item row) fs h)

counter-IsJson : (n : Option ℕ) → IsJson (counter n)
unfolding IsJson
counter-IsJson none = tt
counter-IsJson (some n) = tt

snapshot-IsJson : (scope target : String) (p : Platform) → IsJson (snapshot scope target p)
unfolding snapshot assets_snapshot findings_snapshot jobs_snapshot config_snapshot counters IsJson
    lookup
snapshot-IsJson scope target p = elim (Bool-cases (str_eq scope "assets")) [
  | inl hit ↦ rw (snapshot, hit) (refl, group_assets-HasKeysOnce _ end tt, tt)
  | inr a ↦ elim (Bool-cases (str_eq scope "findings")) [
    | inl hit ↦ rw (snapshot, a, hit) (refl, tt, tt)
    | inr b ↦ elim (Bool-cases (str_eq scope "jobs")) [
      | inl hit ↦ rw (snapshot, a, b, hit) (refl, tt, tt)
      | inr c ↦
          rw (snapshot, a, b, c)
            (
              refl,
              (
                refl,
                counter-IsJson _,
                (
                  refl,
                  counter-IsJson _,
                  (
                    refl,
                    counter-IsJson _,
                    (
                      refl,
                      counter-IsJson _,
                      (
                        refl,
                        counter-IsJson _,
                        (
                          refl,
                          counter-IsJson _,
                          (refl, counter-IsJson _, (refl, counter-IsJson _, tt)),
                        ),
                      ),
                    ),
                  ),
                ),
              ),
              tt,
            )
    ]
  ]
]

is_fresh :
    (key : ℕ) (xs : List ChangeScan) (c : ChangeScan)
    → find? (is_scan key) xs ≡ none
    → (c.id == key) ≡ true
    → find? (is_scan key) (xs ++ c ∷ []) ≡ some c
unfolding find?
is_fresh key [] c free own = ground (arith, own)
is_fresh key (x ∷ xs) c free own = ground (arith, free, is_fresh key xs c)

clean_iff : (drift : List DriftItem) → (status_of drift ≡ "clean") ↔ (drift ≡ [])
clean_iff [] = (λ e. refl, λ e. refl)
clean_iff (item ∷ drift) = (
  λ e.
      let same : str_eq "drift" "clean" ≡ true = (eq_iff "drift" "clean").1 e in
      absurd (ground (arith, same)),
  λ e. absurd (ground (arith, e)),
)

-- The result of a scan of a baseline.
abbrev pub result_of : Env → ℕ → ChangeBaseline → ℕ → ChangeService → ChangeScan
result_of env i b now s =
    new_scan s.next_scan i (diff env.equal b.snapshot (snapshot b.scope b.target s.platform)) now

scan_returned :
    (env : Env) (i : ℕ) (actor : String) (now : ℕ) (s : ChangeService) (b : ChangeBaseline)
    → get_baseline i s ≡ some b
    → find? (is_scan s.next_scan) s.scans ≡ none
    → ((scan env i actor now s).0 ≡ returned (result_of env i b now s))
      × ((scan env i actor now s).1.baselines ≡ s.baselines)
      × ((scan env i actor now s).1.scans ≡ s.scans ++ result_of env i b now s ∷ [])
unfolding scan notify audit get_scan
scan_returned env i actor now s b known free =
    let fresh = is_fresh s.next_scan s.scans (result_of env i b now s) free (ground arith) in
    (rw (known, fresh) refl, rw (known, fresh) refl, rw (known, fresh) refl)

-- A scan of a known baseline returns, leaves the baselines and appends its result to the scans. The
-- result is clean exactly if the snapshot of the baseline, which was taken of an earlier platform,
-- and the snapshot of the present platform are the same. (The next key is free, as keys only grow.)
pub scan-Same :
    (env : Env) (i : ℕ) (actor : String) (now : ℕ) (s : ChangeService) (b : ChangeBaseline)
    (old : Platform)
    → get_baseline i s ≡ some b
    → find? (is_scan s.next_scan) s.scans ≡ none
    → b.snapshot ≡ snapshot b.scope b.target old
    → ((scan env i actor now s).0 ≡ returned (result_of env i b now s))
      × ((scan env i actor now s).1.baselines ≡ s.baselines)
      × ((scan env i actor now s).1.scans ≡ s.scans ++ result_of env i b now s ∷ [])
      × (((result_of env i b now s).status ≡ "clean")
          ↔ Same env.equal (snapshot b.scope b.target old) (snapshot b.scope b.target s.platform))
scan-Same env i actor now s b old known free taken =
    let result = result_of env i b now s in
    let (back, kept, more) = scan_returned env i actor now s b known free in
    let once = subst IsJson (sym taken) (snapshot-IsJson b.scope b.target old) in
    let (quiet, same) =
      diff-Same env.equal b.snapshot (snapshot b.scope b.target s.platform) once in
    let (silent, clean) = clean_iff result.drift in
    (
      back,
      kept,
      more,
      (
        λ e.
            subst (λ x. Same env.equal x (snapshot b.scope b.target s.platform)) taken
              (quiet (silent e)),
        λ h. clean (
            same
              (subst (λ x. Same env.equal x (snapshot b.scope b.target s.platform)) (sym taken) h)),
      ),
    )
