-- ===== src/Adapters/Targets.antt =====
-- What the validation of a target lets through, and that the commands of the adapters that validate
-- are for such targets.
use ksec.Prelude.{
  String, ◌≡◌, ◌≤◌, false, List, str_eq, ltb, chars, arith, Bool-cases, inl, inr, ◌↔◌,
}
use ksec.Prelude.Exec.{returned, continue}
use ksec.Prelude.Strings.{strip}
use ksec.Adapters.{has_forbidden, validate_target, CommandRequest, Python, Build}
use ksec.Adapters.Network.{
  build_nmap, build_masscan, build_dig, build_whois, build_traceroute, build_dnsenum, build_amass,
  build_snmpwalk, build_onesixtyone, build_smtp_enum,
}
use ksec.Adapters.Web.{build_curl}
use ksec.Adapters.Hosts.{build_john, build_aircrack}
use ksec.Adapters.Builtin.{
  ToolAdapter, nmap_adapter, masscan_adapter, dig_adapter, curl_adapter, dnsenum_adapter,
  amass_adapter, whois_adapter, traceroute_adapter, john_adapter, snmpwalk_adapter,
  onesixtyone_adapter, smtp_enum_adapter, aircrack_adapter,
}

-- A target that may stand in a command.
pub record IsClean (target : String) : Type 0 where
  pub not_empty : str_eq target "" ≡ false
  pub bounded : chars target ≤ 1024
  pub harmless : has_forbidden target ≡ false

-- The validation gives a target back exactly if it is the given text without white space around it
-- and is not empty, at most 1024 characters long and free of the forbidden characters.
pub validate_target_iff :
    (target t : String)
    → ((validate_target target tt).0 ≡ returned t) ↔ ((t ≡ strip target) × IsClean t)
unfolding validate_target
validate_target_iff target t = elim (Bool-cases (str_eq (strip target) "")) [
  | inl empty ↦ ground (arith, empty)
  | inr full ↦ elim (Bool-cases (ltb 1024 (chars (strip target)))) [
    | inl long ↦ ground (arith, full, long)
    | inr short ↦ elim (Bool-cases (has_forbidden (strip target))) [
      | inl bad ↦ ground (arith, full, short, bad)
      | inr good ↦ ground (arith, full, short, good)
    ]
  ]
]

-- What is returned after a validation is returned for a clean target.
validated :
    (target : String) (f : String → Build (List String)) (command : List String)
    → (continue (validate_target target tt).0 f (validate_target target tt).1).0 ≡ returned command
    → IsClean (strip target)
unfolding validate_target
validated target f command e = elim (Bool-cases (str_eq (strip target) "")) [
  | inl empty ↦ ground (arith, empty, e)
  | inr full ↦ elim (Bool-cases (ltb 1024 (chars (strip target)))) [
    | inl long ↦ ground (arith, full, long, e)
    | inr short ↦ elim (Bool-cases (has_forbidden (strip target))) [
      | inl bad ↦ ground (arith, full, short, bad, e)
      | inr good ↦ record { not_empty = full; bounded = ground (arith, short); harmless = good }
    ]
  ]
]

-- The adapters that validate the target of a request.
pub data Validates : ToolAdapter → Type 0 where
  nmap : Validates nmap_adapter
  masscan : Validates masscan_adapter
  dig : Validates dig_adapter
  curl : Validates curl_adapter
  dnsenum : Validates dnsenum_adapter
  amass : Validates amass_adapter
  whois : Validates whois_adapter
  traceroute : Validates traceroute_adapter
  john : Validates john_adapter
  snmpwalk : Validates snmpwalk_adapter
  onesixtyone : Validates onesixtyone_adapter
  smtp_enum : Validates smtp_enum_adapter
  aircrack : Validates aircrack_adapter

-- A command that one of these adapters builds is for a clean target, whatever the options are.
pub build_command-IsClean :
    (a : ToolAdapter) (py : Python) (r : CommandRequest) (command : List String)
    → Validates a
    → (a.build_command py r tt).0 ≡ returned command
    → IsClean (strip r.target)
unfolding build_nmap build_masscan build_dig build_curl build_dnsenum build_amass build_whois
    build_traceroute build_john build_snmpwalk build_onesixtyone build_smtp_enum build_aircrack
build_command-IsClean _ py r command nmap e = validated r.target _ command e
build_command-IsClean _ py r command masscan e = validated r.target _ command e
build_command-IsClean _ py r command dig e = validated r.target _ command e
build_command-IsClean _ py r command curl e = validated r.target _ command e
build_command-IsClean _ py r command dnsenum e = validated r.target _ command e
build_command-IsClean _ py r command amass e = validated r.target _ command e
build_command-IsClean _ py r command whois e = validated r.target _ command e
build_command-IsClean _ py r command traceroute e = validated r.target _ command e
build_command-IsClean _ py r command john e = validated r.target _ command e
build_command-IsClean _ py r command snmpwalk e = validated r.target _ command e
build_command-IsClean _ py r command onesixtyone e = validated r.target _ command e
build_command-IsClean _ py r command smtp_enum e = validated r.target _ command e
build_command-IsClean _ py r command aircrack e = validated r.target _ command e
