-- ===== src/Adapters/Network.antt =====
-- The adapters of network, name and wireless tools: `build_command` of adapters/nmap.py, masscan.py,
-- dns.py, whois.py, traceroute.py, dnsrecon.py, dnsenum.py, amass.py, snmpwalk.py, onesixtyone.py,
-- smtp_enum.py, iwlist.py and null.py.
use ksec.Prelude.{String, none, some, List, [], ◌∷◌, ◌++◌, if◌then◌else◌}
use ksec.Prelude.Json.{Fields}
use ksec.Prelude.Exec.{pure, ◌>>=◌}
use ksec.Prelude.Strings.{strip, ◌<>◌}
use ksec.Prelude.Strings.Upper.{upper}
use ksec.Prelude.Strings.Decimal.{show_ℤ}
use ksec.Adapters.{
  CommandRequest, Python, Build, validate_target, str_of, int_value, given, is_given, switch,
  text_option, int_option, text_or,
}

unfoldable pub build_nmap : Python → CommandRequest → Build (List String)
build_nmap py r = do
  target ← validate_target r.target
  ports ←
      if is_given py "top_ports" r.options
      then int_option py "top_ports" "--top-ports" r.options
      else pure (text_option py "ports" "-p" r.options)
  pure (
      "nmap" ∷ "-oX" ∷ "-" ∷ switch py "service_version" ("-sV" ∷ []) r.options
      ++ switch py "fast" ("-F" ∷ []) r.options
      ++ ports
      ++ target ∷ [])

-- The ports of masscan: the given ones, or those up to a number, or the first thousand.
unfoldable pub masscan_ports : Python → Fields → Build (List String)
masscan_ports py opts = elim (given py "ports" opts) [
  | some ports ↦ pure ("-p" ∷ str_of py ports ∷ [])
  | none ↦ elim (given py "top_ports" opts) [
    | some top ↦ do n ← int_value py top; pure ("-p" ∷ ("1-" <> show_ℤ n) ∷ [])
    | none ↦ pure ("-p" ∷ "1-1000" ∷ [])
  ]
]

unfoldable pub build_masscan : Python → CommandRequest → Build (List String)
build_masscan py r = do
  target ← validate_target r.target
  ports ← masscan_ports py r.options
  rate ← int_option py "rate" "--rate" r.options
  pure (
      "masscan" ∷ "-oJ" ∷ "-" ∷ ports
      ++ rate
      ++ text_option py "interface" "-e" r.options
      ++ target ∷ [])

unfoldable pub build_dig : Python → CommandRequest → Build (List String)
build_dig py r = do
  target ← validate_target r.target
  pure (
      "dig"
      ∷ target
      ∷ (elim (given py "record_type" r.options) [ none ↦ [] | some value ↦ str_of py value ∷ [] ]))

unfoldable pub build_whois : Python → CommandRequest → Build (List String)
build_whois py r = do target ← validate_target r.target; pure ("whois" ∷ target ∷ [])

unfoldable pub build_traceroute : Python → CommandRequest → Build (List String)
build_traceroute py r = do
  target ← validate_target r.target
  hops ← int_option py "max_hops" "-m" r.options
  wait ← int_option py "wait" "-w" r.options
  pure ("traceroute" ∷ hops ++ wait ++ target ∷ [])

unfoldable pub build_dnsrecon : Python → CommandRequest → Build (List String)
build_dnsrecon py r = pure (
    "dnsrecon" ∷ "-d" ∷ strip r.target ∷ text_option py "type" "-t" r.options
    ++ text_option py "dictionary" "-D" r.options
    ++ text_option py "threads" "-c" r.options
    ++ switch py "zone_transfer" ("-z" ∷ []) r.options
    ++ text_option py "json_file" "-j" r.options)

unfoldable pub build_dnsenum : Python → CommandRequest → Build (List String)
build_dnsenum py r = do
  target ← validate_target r.target
  threads ← int_option py "threads" "-t" r.options
  pure (
      "dnsenum" ∷ "--enum" ∷ target ∷ text_option py "dictionary" "-f" r.options
      ++ threads
      ++ switch py "zone_transfer" ("--no-web" ∷ "--noreverse" ∷ []) r.options)

-- `cmd.remove("-passive")` where the active mode is asked for.
unfoldable pub build_amass : Python → CommandRequest → Build (List String)
build_amass py r = do
  target ← validate_target r.target
  timeout ← int_option py "timeout" "-timeout" r.options
  pure (
      "amass" ∷ "enum" ∷ (if is_given py "active" r.options then [] else "-passive" ∷ [])
      ++ "-d" ∷ target ∷ "-o" ∷ "/dev/stdout" ∷ timeout)

unfoldable pub build_snmpwalk : Python → CommandRequest → Build (List String)
build_snmpwalk py r = do
  target ← validate_target r.target
  pure (
      "snmpwalk"
      ∷ "-v2c"
      ∷ "-c"
      ∷ text_or py "community" "public" r.options
      ∷ "-On"
      ∷ "-t"
      ∷ text_or py "timeout" "5" r.options
      ∷ target
      ∷ text_or py "oid" "1.3.6.1.2.1.1" r.options
      ∷ [])

abbrev pub default_communities : String
default_communities = "/usr/share/seclists/Discovery/SNMP/common-snmp-community-strings.txt"

unfoldable pub build_onesixtyone : Python → CommandRequest → Build (List String)
build_onesixtyone py r = do
  target ← validate_target r.target
  timeout ← int_option py "timeout" "-w" r.options
  pure (
      "onesixtyone" ∷ timeout
      ++ "-c"
        ∷ text_or py "community" (text_or py "communities" default_communities r.options) r.options
        ∷ target
        ∷ [])

abbrev pub default_users : String
default_users = "/usr/share/seclists/Usernames/top-usernames-shortlist.txt"

unfoldable pub build_smtp_enum : Python → CommandRequest → Build (List String)
build_smtp_enum py r = do
  target ← validate_target r.target
  port ← int_option py "port" "-p" r.options
  pure (
      "smtp-user-enum"
      ∷ "-M"
      ∷ upper (text_or py "mode" "VRFY" r.options)
      ∷ "-U"
      ∷ text_or py "users" default_users r.options
      ∷ "-t"
      ∷ target
      ∷ port)

unfoldable pub build_iwlist : Python → CommandRequest → Build (List String)
build_iwlist py r = do
  interface ← validate_target (text_or py "interface" "wlan0" r.options)
  pure ("iwlist" ∷ interface ∷ "scan" ∷ [])

unfoldable pub build_null : Python → CommandRequest → Build (List String)
build_null py r = elim (given py "sleep" r.options) [
  | none ↦ pure ("true" ∷ [])
  | some seconds ↦ do n ← int_value py seconds; pure ("sleep" ∷ show_ℤ n ∷ [])
]
