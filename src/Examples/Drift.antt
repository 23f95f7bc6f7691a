-- ===== src/Examples/Drift.antt =====
-- A baseline with a scan, and an alert, on small data.
use ksec.Prelude.{
  ◌≡◌, ◌↔◌, refl, Bool, true, false, ◌&&◌, none, some, List, [], ◌∷◌, ◌++◌, ◌==◌, str_eq, find?,
}
use ksec.Prelude.Exec.{returned}
use ksec.Prelude.Int.{pos}
use ksec.Prelude.Json.{Json, Items, Fields, nil, cons, end, field}
use ksec.Alerts.{Alert, AlertService}
use ksec.Alerts as Alerts
use ksec.Alerts.Times.{Request, change_status, resolve_alert, after_all, IsLater, after_all-IsLater}
use ksec.Change.{ChangeBaseline, ChangeService, Env, get_baseline, is_scan, scan}
use ksec.Change.Clean.{Same}
use ksec.Change.Snapshot.{AssetRow, Platform, snapshot}
use ksec.Change.Scans.{result_of, scan-Same}

-- Python's `==` on values whose dictionaries have their keys in one order.
mutual
  equal_values : Json → Json → Bool
  equal_values Json.null Json.null = true
  equal_values (Json.int (pos a)) (Json.int (pos b)) = a == b
  equal_values (Json.str a) (Json.str b) = str_eq a b
  equal_values (Json.arr xs) (Json.arr ys) = equal_items xs ys
  equal_values (Json.obj a) (Json.obj b) = equal_fields a b
  equal_values _ _ = false

  equal_items : Items → Items → Bool
  equal_items nil nil = true
  equal_items (cons x xs) (cons y ys) = equal_values x y && equal_items xs ys
  equal_items _ _ = false

  equal_fields : Fields → Fields → Bool
  equal_fields end end = true
  equal_fields (field j x a) (field k y b) = str_eq j k && equal_values x y && equal_fields a b
  equal_fields _ _ = false

abbrev web : AssetRow
web = record {
  target = "web.lab.test";
  asset_type = "host";
  criticality = "low";
  engagement_id = none;
}

abbrev yesterday : Platform
yesterday = record { assets = web ∷ []; findings = []; jobs = []; count_of = λ table. some 0 }

abbrev today : Platform
today = record yesterday { assets = record web { criticality = "high" } ∷ [] }

abbrev baseline : ChangeBaseline
baseline = record {
  id = 1;
  name = "lab";
  scope = "assets";
  target = "*";
  snapshot = snapshot "assets" "*" yesterday;
  created_by = "ada";
  created_at = 1;
}

abbrev service : ChangeService
service = record {
  baselines = baseline ∷ [];
  scans = [];
  next_baseline = 2;
  next_scan = 1;
  platform = today;
  notifications = [];
  audit_log = [];
}

abbrev env : Env
env = record { equal = equal_values; notifies = true; audit_on = true }

service_rows : (get_baseline 1 service ≡ some baseline) × (find? (is_scan 1) [] ≡ none)
unfolding get_baseline find?
service_rows = (refl, refl)

scan-Same_example :
    ((scan env 1 "ada" 9 service).0 ≡ returned (result_of env 1 baseline 9 service))
    × ((scan env 1 "ada" 9 service).1.baselines ≡ service.baselines)
    × ((scan env 1 "ada" 9 service).1.scans
        ≡ service.scans ++ result_of env 1 baseline 9 service ∷ [])
    × (((result_of env 1 baseline 9 service).status ≡ "clean")
        ↔ Same equal_values (snapshot "assets" "*" yesterday) (snapshot "assets" "*" today))
scan-Same_example =
    scan-Same env 1 "ada" 9 service baseline yesterday service_rows.0 service_rows.1 refl

abbrev beacon : Alert
beacon = record {
  id = 1;
  alert_id = "a";
  source = "rule:beacon";
  type_name = "beacon";
  severity = "high";
  risk_score = "7.5";
  status = "acknowledged";
  rule_id = none;
  event_id = none;
  asset_id = none;
  finding_id = none;
  case_id = none;
  ioc_id = none;
  summary = "";
  details = end;
  created_at = 1;
  acknowledged_at = some 2;
  resolved_at = none;
}

abbrev alerts : AlertService
alerts = record { rows = beacon ∷ []; next_alert = 2; refers = λ a. true; audit_log = [] }

abbrev requests : List Request
requests =
    resolve_alert 1 none (some "ada") 5
    ∷ change_status 1 "open" none 6
    ∷ change_status 1 "acknowledged" none 7
    ∷ []

beacon_found : Alerts.get 1 alerts ≡ some beacon
unfolding Alerts.get find?
beacon_found = refl

after_all-IsLater_example :
    (b : Alert) × (Alerts.get 1 (after_all true requests alerts) ≡ some b) × IsLater beacon b
after_all-IsLater_example = after_all-IsLater true requests alerts 1 beacon beacon_found
