-- ===== src/Change/Snapshot.antt =====
-- change/service.py: the snapshots of the state of the platform.
use ksec.Prelude.{
  ℕ, suc, String, Bool, true, ◌&&◌, ◌||◌, Option, none, some, List, [], ◌∷◌, str_eq, select,
  if◌then◌else◌,
}
use ksec.Prelude.Dict.{opt_beq}
use ksec.Prelude.Int.{pos, negsuc}
use ksec.Prelude.Json.{Json, Items, Fields, nil, cons, end, field, items}
use ksec.Prelude.Sort.{sort_by}
use ksec.Prelude.Strings.{isdigit, int_of}
use ksec.Findings.{Finding}
use ksec.Jobs.{Job, Table, state_text}
use ksec.Change.Diff.{text_before}

-- A row of the table `assets`, with the columns that are read here.
pub record AssetRow : Type 0 where
  pub target : String
  pub asset_type : String
  pub criticality : String
  pub engagement_id : Option ℕ

-- The tables of the platform that the snapshots read; `count_of` is the number of rows of a table
-- by its name, `none` where the query fails.
pub record Platform : Type 0 where
  pub assets : List AssetRow
  pub findings : List Finding
  pub jobs : Table
  pub count_of : String → Option ℕ

unfoldable pub add_item : Items → Json → Items
add_item nil value = cons value nil
add_item (cons x xs) value = cons x (add_item xs value)

abbrev pub push : Json → Json → Json
push (Json.arr xs) value = Json.arr (add_item xs value)
push other value = other

-- `grouped.setdefault(key, []).append(value)`
unfoldable pub append_at : String → Json → Fields → Fields
append_at key value end = field key (Json.arr (cons value nil)) end
append_at key value (field k old rest) =
    if str_eq k key then field k (push old value) rest else field k old (append_at key value rest)

abbrev pub asset_item : AssetRow → Json
asset_item row =
    Json.obj
      (field "target" (Json.str row.target) (field "criticality" (Json.str row.criticality) end))

unfoldable pub group_assets : List AssetRow → Fields → Fields
group_assets [] grouped = grouped
group_assets (row ∷ rows) grouped =
    group_assets rows (append_at row.asset_type (asset_item row) grouped)

-- The engagement that the target of a baseline stands for: a text of digits.
unfoldable pub engagement_of : String → Option ℕ
engagement_of target =
    if isdigit target then (elim (int_of target) [ some (pos n) ↦ some n | _ ↦ none ]) else none

abbrev pub in_scope : Option ℕ → AssetRow → Bool
in_scope none row = true
in_scope wanted row = opt_beq wanted row.engagement_id

unfoldable pub assets_snapshot : String → Platform → Json
assets_snapshot target p =
    let rows =
      sort_by (λ (a : AssetRow) (b : AssetRow). text_before a.target b.target)
        (select (in_scope (engagement_of target)) p.assets) in
    Json.obj (field "assets" (Json.obj (group_assets rows end)) end)

abbrev pub key_or_null : Option ℕ → Json
key_or_null none = Json.null
key_or_null (some n) = Json.int (pos n)

abbrev pub finding_item : Finding → Json
finding_item f = Json.obj (
    field "title" (Json.str f.title) (
      field "severity" (Json.str f.severity) (
        field "status" (Json.str f.status)
          (field "engagement_id" (key_or_null f.engagement_id) end))))

unfoldable pub finding_items : List Finding → List Json
finding_items [] = []
finding_items (f ∷ fs) = finding_item f ∷ finding_items fs

unfoldable pub findings_snapshot : Platform → Json
findings_snapshot p = Json.obj (field "findings" (Json.arr (items (finding_items p.findings))) end)

-- The order of the groups, by capability and then by state.
abbrev pub job_before : Job → Job → Bool
job_before a b =
    text_before a.capability b.capability
    || (str_eq a.capability b.capability && text_before (state_text a.state) (state_text b.state))

-- A group of jobs with its number.
pub record JobGroup : Type 0 where
  pub capability : String
  pub state : String
  pub count : ℕ

abbrev pub in_group : Job → JobGroup → Bool
in_group job g = str_eq g.capability job.capability && str_eq g.state (state_text job.state)

abbrev pub group_of : Job → JobGroup
group_of job = record { capability = job.capability; state = state_text job.state; count = 1 }

abbrev pub count_job : Job → List JobGroup → List JobGroup
count_job job [] = group_of job ∷ []
count_job job (g ∷ gs) =
    if in_group job g then record g { count = suc g.count } ∷ gs else group_of job ∷ g ∷ gs

-- `GROUP BY capability, state`, of jobs that are sorted by these.
unfoldable pub group_jobs : List Job → List JobGroup
group_jobs [] = []
group_jobs (job ∷ jobs) = count_job job (group_jobs jobs)

unfoldable pub group_items : List JobGroup → List Json
group_items [] = []
group_items (g ∷ gs) =
    Json.obj (
      field "capability" (Json.str g.capability)
        (field "state" (Json.str g.state) (field "count" (Json.int (pos g.count)) end)))
    ∷ group_items gs

unfoldable pub jobs_snapshot : Platform → Json
jobs_snapshot p =
    Json.obj
      (field "jobs" (Json.arr (items (group_items (group_jobs (sort_by job_before p.jobs))))) end)

abbrev pub counted_tables : List String
counted_tables =
    "users" ∷ "sessions" ∷ "engagements" ∷ "assets" ∷ "findings" ∷ "alerts" ∷ "cases" ∷ "reports"
    ∷ []

abbrev pub counter : Option ℕ → Json
counter none = Json.int (negsuc 0)
counter (some n) = Json.int (pos n)

unfoldable pub counters : List String → Platform → Fields
counters [] p = end
counters (table ∷ tables) p = field table (counter (p.count_of table)) (counters tables p)

unfoldable pub config_snapshot : Platform → Json
config_snapshot p = Json.obj (field "counters" (Json.obj (counters counted_tables p)) end)

unfoldable pub snapshot : String → String → Platform → Json
snapshot scope target p =
    if str_eq scope "assets"
    then assets_snapshot target p
    else if str_eq scope "findings"
    then findings_snapshot p
    else if str_eq scope "jobs"
    then jobs_snapshot p
    else config_snapshot p
