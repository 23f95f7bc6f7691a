-- ===== src/Adapters/Hosts.antt =====
-- The adapters of host and password tools: `build_command` of adapters/hydra.py, enum4linux.py,
-- smbmap.py, nxc.py, searchsploit.py, theharvester.py, john.py and aircrack.py.
use ksec.Prelude.{String, none, some, List, [], ◌∷◌, ◌++◌, str_eq, if◌then◌else◌}
use ksec.Prelude.Json.{Fields}
use ksec.Prelude.Exec.{pure, raise, value_error, ◌>>=◌}
use ksec.Prelude.Strings.{strip, lower, ◌<>◌}
use ksec.Prelude.Strings.Decimal.{show_ℤ}
use ksec.Adapters.{
  CommandRequest, Python, Build, validate_target, str_of, given, is_given, switch, text_option,
  text_or, int_or, has_scheme,
}

-- A flag with the first of two options that is given.
unfoldable pub first_option : Python → String → String → String → String → Fields → List String
first_option py key flag other other_flag opts =
    if is_given py key opts
    then text_option py key flag opts
    else text_option py other other_flag opts

unfoldable pub build_hydra : Python → CommandRequest → Build (List String)
build_hydra py r = do
  threads ← int_or py "threads" 4 r.options
  pure (
      "hydra" ∷ "-t" ∷ show_ℤ threads ∷ first_option py "user" "-l" "users" "-L" r.options
      ++ first_option py "password" "-p" "passwords" "-P" r.options
      ++ text_option py "port" "-s" r.options
      ++ text_option py "timeout" "-w" r.options
      ++ (lower (text_or py "service" "ssh" r.options) <> "://" <> strip r.target) ∷ [])

unfoldable pub build_enum4linux : Python → CommandRequest → Build (List String)
build_enum4linux py r =
    pure ("enum4linux" ∷ "-a" ∷ strip r.target ∷ switch py "no_banner" ("-n" ∷ []) r.options)

unfoldable pub build_smbmap : Python → CommandRequest → Build (List String)
build_smbmap py r = pure (
    "smbmap" ∷ "-H" ∷ strip r.target ∷ text_option py "user" "-u" r.options
    ++ (if is_given py "password" r.options
        then text_option py "password" "-p" r.options
        else switch py "guest" ("-u" ∷ "" ∷ "-p" ∷ "" ∷ []) r.options)
    ++ text_option py "domain" "-d" r.options
    ++ text_option py "shares" "-s" r.options)

unfoldable pub build_nxc : Python → CommandRequest → Build (List String)
build_nxc py r = pure (
    "nxc" ∷ "smb" ∷ strip r.target ∷ first_option py "user" "-u" "username" "-u" r.options
    ++ first_option py "password" "-p" "passwords" "-p" r.options
    ++ text_option py "hashes" "-H" r.options
    ++ switch py "share" ("--shares" ∷ []) r.options
    ++ switch py "users" ("--users" ∷ []) r.options)

unfoldable pub build_searchsploit : Python → CommandRequest → Build (List String)
build_searchsploit py r = pure (
    "searchsploit" ∷ "--json" ∷ (elim (given py "cve" r.options) [
      | some cve ↦ str_of py cve ∷ "--cve" ∷ []
      | none ↦ strip r.target ∷ text_option py "exclude" "--exclude" r.options
    ]))

-- The host of a URL, or the text where it has none.
abbrev pub or_else : String → String → String
or_else text default = if str_eq text "" then default else text

unfoldable pub harvest_domain : Python → String → Build String
harvest_domain py domain =
    if has_scheme domain
    then (elim (py.netloc domain) [
      | none ↦ raise (value_error ("Invalid URL" ∷ []))
      | some netloc ↦ pure (or_else netloc domain)
    ])
    else pure domain

unfoldable pub build_theharvester : Python → CommandRequest → Build (List String)
build_theharvester py r = do
  domain ← harvest_domain py (lower (strip r.target))
  limit ← int_or py "limit" 100 r.options
  pure (
      "theHarvester"
      ∷ "-d"
      ∷ domain
      ∷ "-b"
      ∷ text_or py "source" "crtsh" r.options
      ∷ "-l"
      ∷ show_ℤ limit
      ∷ text_option py "dns_server" "-s" r.options)

abbrev pub rockyou : String
rockyou = "/usr/share/wordlists/rockyou.txt"

unfoldable pub build_john : Python → CommandRequest → Build (List String)
build_john py r = do
  hash_file ← validate_target r.target
  pure (
      "john" ∷ (elim (given py "format" r.options) [
        | none ↦ []
        | some value ↦ ("--format=" <> str_of py value) ∷ []
      ])
      ++ ("--wordlist=" <> text_or py "wordlist" rockyou r.options) ∷ hash_file ∷ [])

unfoldable pub build_aircrack : Python → CommandRequest → Build (List String)
build_aircrack py r = do
  capture ← validate_target r.target
  pure (
      "aircrack-ng"
      ∷ "-w"
      ∷ text_or py "wordlist" rockyou r.options
      ∷ capture
      ∷ text_option py "bssid" "-b" r.options)
