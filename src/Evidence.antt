-- ===== src/Evidence.antt =====
-- evidence/service.py: evidence with its hash, and its chain of custody. `hashlib.sha256` is the
-- parameter `hash`; a text stands for its UTF-8 bytes.
pub mod Custody
use ksec.Prelude.{
  ℕ, suc, String, Bool, true, false, not, Option, none, some, List, [], ◌∷◌, ◌++◌, ◌==◌, str_eq,
  any, select, find?, if◌then◌else◌,
}
use ksec.Prelude.Exec.{
  Exec, raise_if, pure, modify, gets, assert_some, integrity_error, ◌>>=◌, ◌>>◌,
}
use ksec.Prelude.Strings.{◌<>◌}
use ksec.Prelude.Strings.Upper.{upper}

pub record Evidence : Type 0 where
  pub id : ℕ
  pub engagement_id : Option ℕ
  pub session_id : Option String
  pub tool : String
  pub tool_version : String
  pub operator : String
  pub collection_method : String
  pub source : String
  pub sha256 : String
  pub content : String
  pub created_at : ℕ

pub record CustodyEvent : Type 0 where
  pub id : ℕ
  pub evidence_id : ℕ
  pub action : String
  pub actor : String
  pub previous_state : String
  pub new_state : String
  pub reason : String
  pub created_at : ℕ

-- The tables of the service with their next keys, and the keys of the engagements, to which a row
-- of evidence refers.
pub record EvidenceTables : Type 0 where
  pub rows : List Evidence
  pub custody : List CustodyEvent
  pub next_evidence : ℕ
  pub next_event : ℕ
  pub engagements : List ℕ

abbrev pub has_id : ℕ → Evidence → Bool
has_id evidence_id e = e.id == evidence_id

unfoldable pub get : ℕ → EvidenceTables → Option Evidence
get evidence_id t = find? (has_id evidence_id) t.rows

abbrev pub belongs : ℕ → Option ℕ → Bool
belongs engagement_id none = false
belongs engagement_id (some key) = key == engagement_id

-- Both queries of `list`; the rows are in the order of their keys.
unfoldable pub list : Option ℕ → EvidenceTables → List Evidence
list none t = t.rows
list (some engagement_id) t = select (λ e. belongs engagement_id e.engagement_id) t.rows

-- The arguments of `record_custody` by name.
pub record Entry : Type 0 where
  pub action : String
  pub actor : String
  pub previous_state : String
  pub new_state : String
  pub reason : String

abbrev pub custody_event : ℕ → ℕ → Entry → ℕ → CustodyEvent
custody_event key evidence_id entry now = record {
  id = key;
  evidence_id = evidence_id;
  action = upper entry.action;
  actor = entry.actor;
  previous_state = entry.previous_state;
  new_state = entry.new_state;
  reason = entry.reason;
  created_at = now;
}

-- The key of the evidence must be there.
unfoldable pub record_custody : ℕ → Entry → ℕ → Exec EvidenceTables CustodyEvent
record_custody evidence_id entry now = do
  known ← gets (λ t. any (has_id evidence_id) t.rows)
  raise_if (not known) integrity_error
  key ← gets (λ t. t.next_event)
  modify (λ t. record t {
    custody = t.custody ++ custody_event key evidence_id entry now ∷ [];
    next_event = suc key;
  })
  pure (custody_event key evidence_id entry now)

-- The arguments of `add` by name.
pub record Collected : Type 0 where
  pub content : String
  pub tool : String
  pub tool_version : String
  pub operator : String
  pub collection_method : String
  pub source : String
  pub session_id : Option String
  pub engagement_id : Option ℕ

abbrev pub new_evidence : (String → String) → ℕ → Collected → ℕ → Evidence
new_evidence hash key c now = record {
  id = key;
  engagement_id = c.engagement_id;
  session_id = c.session_id;
  tool = c.tool;
  tool_version = c.tool_version;
  operator = c.operator;
  collection_method = c.collection_method;
  source = c.source;
  sha256 = hash c.content;
  content = c.content;
  created_at = now;
}

-- `a or b` of two texts.
abbrev pub or_text : String → String → String
or_text a b = if str_eq a "" then b else a

abbrev pub captured : Collected → Entry
captured c = record {
  action = "CAPTURED";
  actor = or_text c.operator "system";
  previous_state = "";
  new_state = "captured";
  reason = "collected by " <> or_text c.tool "manual";
}

abbrev pub known_engagement : Option ℕ → List ℕ → Bool
known_engagement none keys = true
known_engagement (some engagement_id) keys = any (λ key. key == engagement_id) keys

-- `now` is the time of the row, `later` that of the entry.
unfoldable pub add : (String → String) → Collected → ℕ → ℕ → Exec EvidenceTables Evidence
add hash c now later = do
  known ← gets (λ t. known_engagement c.engagement_id t.engagements)
  raise_if (not known) integrity_error
  key ← gets (λ t. t.next_evidence)
  modify
      (λ t. record t { rows = t.rows ++ new_evidence hash key c now ∷ []; next_evidence = suc key })
  found ← gets (get key)
  evidence ← assert_some found
  record_custody evidence.id (captured c) later
  pure evidence

abbrev pub verified : Entry
verified = record {
  action = "VERIFIED";
  actor = "system";
  previous_state = "captured";
  new_state = "verified";
  reason = "hash match";
}

abbrev pub integrity_failure : Entry
integrity_failure = record {
  action = "VERIFIED";
  actor = "system";
  previous_state = "captured";
  new_state = "integrity_failure";
  reason = "content hash mismatch — evidence was altered";
}

-- `verify`, once the row is read.
unfoldable pub verify_row :
    (String → String) → ℕ → ℕ → Evidence → Exec EvidenceTables (Bool × String)
verify_row hash evidence_id now evidence =
    if str_eq (hash evidence.content) evidence.sha256
    then (do record_custody evidence_id verified now; pure (true, "integrity verified"))
    else (do
      record_custody evidence_id integrity_failure now
      pure (false, "content hash mismatch — evidence was altered"))

unfoldable pub verify : (String → String) → ℕ → ℕ → Exec EvidenceTables (Bool × String)
verify hash evidence_id now = do
  found ← gets (get evidence_id)
  elim found [
    | none ↦ pure (false, "unknown evidence")
    | some evidence ↦ verify_row hash evidence_id now evidence
  ]

unfoldable pub custody_log : ℕ → EvidenceTables → List CustodyEvent
custody_log evidence_id t = select (λ (e : CustodyEvent). e.evidence_id == evidence_id) t.custody
