-- ===== src/Examples/Reports.antt =====
-- Findings, plugins and adapters on small data.
use ksec.Prelude.{
  ◌≡◌, ◌↔◌, refl, true, false, none, some, List, [], ◌∷◌, find?, any, chars, opt_eq, if◌then◌else◌,
}
use ksec.Prelude.Dict.{get?, put, string_eq}
use ksec.Prelude.Json.{end}
use ksec.Prelude.Exec.{returned, raised, value_error}
use ksec.Prelude.Strings.{strip, is_space}
use ksec.Adapters.{CommandRequest, Python, validate_target, has_forbidden}
use ksec.Adapters.Network.{build_whois}
use ksec.Adapters.Builtin.{ToolAdapter, whois_adapter, null_adapter}
use ksec.Adapters.Registry.{
  AdapterRegistry, Change, add_adapter, drop_capability, after, register, unregister, add_builtin,
  add_builtins, set_default, no_adapters, builtin_registry, plugin_of, tool_for, get-capability,
}
use ksec.Adapters.Registry as Registry
use ksec.Adapters.Targets.{IsClean, whois, validate_target_iff, build_command-IsClean}
use ksec.Plugins.{
  PluginInfo, PluginManifest, PluginManager, Directory, unregister_plugin, drop_owned,
}
use ksec.Plugins.Lifecycle.{uninstall, audit, assert_capability_allowed}
use ksec.Plugins
use ksec.Plugins.Owners.{after-OwnedProvided}
use ksec.Plugins.Gate.{
  MayRun, assert_capability_allowed_iff, uninstall-plugin_of, uninstall-assert_capability_allowed,
}
use ksec.Findings.{Finding, Remediation, FindingService, valid_verify_result, refers, get}
use ksec.Findings.Remediations.{Check, remediation, verify_remediation}
use ksec.Findings.Statuses.{
  Request, plan_remediation, check_remediation, IsValid, after_all, after_all-IsValid,
}
use ksec.Findings.Verification.{
  verification_of, propagated, recorded, is_verification, verify_remediation_lem,
}

abbrev weak_tls : Finding
weak_tls = record {
  id = 1;
  engagement_id = none;
  asset_id = none;
  title = "Weak TLS";
  description = "";
  severity = "high";
  confidence = "medium";
  recommendation = "";
  status = "remediated";
  risk = none;
  source = "sslscan";
  created_at = 1;
  updated_at = 2;
}

abbrev upgrade : Remediation
upgrade = record {
  id = 4;
  finding_id = 1;
  description = "Upgrade";
  owner = "ada";
  priority = "high";
  status = "completed";
  due_date = none;
  created_at = 1;
  updated_at = 2;
}

abbrev retest : Check
retest = record {
  method = "retest";
  result = "verified";
  evidence_id = some 7;
  verified_by = "bob";
  details = "";
}

abbrev reports : FindingService
reports = record {
  rows = weak_tls ∷ [];
  remediation_rows = upgrade ∷ [];
  verification_rows = [];
  next_finding = 2;
  next_remediation = 5;
  next_verification = 1;
  engagements = [];
  assets = [];
  evidence = 7 ∷ [];
}

reports_rows :
    (remediation 4 reports ≡ some upgrade)
    × (get 1 reports ≡ some weak_tls)
    × (valid_verify_result "verified" ≡ true)
    × (refers (some 7) (7 ∷ []) ≡ true)
    × (find? (is_verification 1) [] ≡ none)
unfolding remediation get find? any
reports_rows = (refl, refl, refl, refl, refl)

verify_remediation_lem_example : verify_remediation 4 retest 8 9 reports ≡ (
  returned (verification_of 1 4 retest 8),
  propagated 4 upgrade "verified" 9 (recorded 4 retest 8 reports),
)
verify_remediation_lem_example =
    verify_remediation_lem 4 retest 8 9 reports upgrade weak_tls reports_rows.0 reports_rows.1
      reports_rows.2 reports_rows.3 reports_rows.4

reports-IsValid : IsValid reports
unfolding any
reports-IsValid = record {
  findings = (record { severity = refl; confidence = refl; status = refl }, tt);
  remediations = (record { priority = refl; status = refl }, tt);
  verifications = tt;
}

abbrev requests : List Request
requests =
    plan_remediation 1
      (record { description = "Pin"; owner = ""; priority = "low"; due_date = none }) 3
    ∷ check_remediation 4 retest 8 9
    ∷ []

after_all-IsValid_example : IsValid (after_all requests reports)
after_all-IsValid_example = after_all-IsValid requests reports reports-IsValid

abbrev python : Python
python = record {
  repr = λ value. "";
  to_int = λ value. raised (value_error []);
  is_zero = λ text. false;
  netloc = λ text. none;
}

abbrev lookup : CommandRequest
lookup = record { capability = "whois_lookup"; target = " lab.test "; options = end; timeout = 60 }

validate_target_iff_example :
    ((validate_target " lab.test " tt).0 ≡ returned "lab.test")
    ↔ (("lab.test" ≡ strip " lab.test ") × IsClean "lab.test")
validate_target_iff_example = validate_target_iff " lab.test " "lab.test"

lookup_built : (build_whois python lookup tt).0 ≡ returned ("whois" ∷ "lab.test" ∷ [])
unfolding build_whois validate_target has_forbidden strip any is_space chars
lookup_built = refl

build_command-IsClean_example : IsClean (strip " lab.test ")
build_command-IsClean_example =
    build_command-IsClean whois_adapter python lookup ("whois" ∷ "lab.test" ∷ []) whois lookup_built

-- An adapter that a plugin brings.
abbrev headers : ToolAdapter
headers = record null_adapter { name = "headers"; capability = "http_headers" }

abbrev changes : List Change
changes = add_adapter headers (some "org.headers") ∷ []

abbrev loaded : AdapterRegistry
loaded = after changes builtin_registry

headers_found :
    (Registry.get "http_headers" (some "headers") loaded ≡ some headers)
    × (plugin_of "http_headers" loaded ≡ some "org.headers")
    × (tool_for "http_headers" (some "headers") loaded ≡ some headers)
unfolding Registry.get tool_for plugin_of after register builtin_registry add_builtins add_builtin
    set_default get? put
headers_found = (refl, refl, refl)

get-capability_example : headers.capability ≡ "http_headers"
get-capability_example =
    get-capability changes "http_headers" (some "headers") headers headers_found.0

abbrev headers_row : PluginInfo
headers_row = record {
  plugin_id = "org.headers";
  name = "Headers";
  version = "1.0.0";
  description = "";
  author = "";
  category = "web";
  trust_level = "UNTRUSTED";
  status = "ENABLED";
  source = "user";
  path = "/plugins/org.headers";
  permissions = "tool.execute" ∷ [];
  capabilities = "http_headers" ∷ [];
  manifest_sha256 = "aa";
  installed_by = "ada";
  installed_at = 1;
}

abbrev manager : PluginManager
manager = record {
  registry = loaded;
  rows = headers_row ∷ [];
  dirs = [];
  manifests = [];
  loaded = "org.headers" ∷ [];
  parser_names = [];
  audit_log = [];
}

assert_capability_allowed_iff_example :
    ((assert_capability_allowed "http_headers" manager).0 ≡ returned tt)
    ↔ MayRun "http_headers" manager
assert_capability_allowed_iff_example = assert_capability_allowed_iff "http_headers" manager

uninstalled : (uninstall true "org.headers" "ada" manager).0 ≡ returned tt
unfolding uninstall ksec.Plugins.get unregister_plugin audit find?
uninstalled = refl

uninstall-plugin_of_example :
    plugin_of "http_headers" (uninstall true "org.headers" "ada" manager).1.registry ≡ (
      if opt_eq (plugin_of "http_headers" manager.registry) (some "org.headers")
      then none
      else plugin_of "http_headers" manager.registry)
uninstall-plugin_of_example =
    uninstall-plugin_of true "org.headers" "ada" "http_headers" manager
      (after-OwnedProvided changes) uninstalled

uninstall-assert_capability_allowed_example :
    (Registry.get "http_headers"
        (some "headers")
        (uninstall true "org.headers" "ada" manager).1.registry
      ≡ some headers)
    × ((assert_capability_allowed "http_headers" (uninstall true "org.headers" "ada" manager).1).0
        ≡ returned tt)
uninstall-assert_capability_allowed_example =
    uninstall-assert_capability_allowed true "org.headers" "ada" "http_headers" "headers" headers
      manager (after-OwnedProvided changes) headers_found.1 headers_found.2 uninstalled
