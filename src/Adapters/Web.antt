-- ===== src/Adapters/Web.antt =====
-- The adapters of web tools: `build_command` of adapters/curl.py, sslscan.py, gobuster.py, ffuf.py,
-- wfuzz.py, nikto.py, nuclei.py, wpscan.py, whatweb.py and sqlmap.py.
use ksec.Prelude.{
  ℕ, String, Bool, true, false, not, ◌&&◌, ◌||◌, none, some, List, [], ◌∷◌, ◌++◌, ltb, leb, ◌==◌,
  str_eq, any, select, if◌then◌else◌,
}
use ksec.Prelude.Json.{Fields}
use ksec.Prelude.Exec.{pure, raise_if, value_error, ◌>>=◌, ◌>>◌}
use ksec.Prelude.Strings.{strip, lower, contains, before_char, after_prefix, split_on, ◌<>◌}
use ksec.Prelude.Strings.Decimal.{show, show_ℤ}
use ksec.Adapters.{
  CommandRequest, Python, Build, validate_target, str_of, given, switch, text_option, int_option,
  text_or, int_or, has_scheme, with_scheme,
}
use Prim.Native.Char.{Char, code}

-- `str(max(1, min(timeout, 30)))`
abbrev pub curl_timeout : ℕ → ℕ
curl_timeout timeout = if ltb timeout 1 then 1 else if ltb 30 timeout then 30 else timeout

unfoldable pub build_curl : Python → CommandRequest → Build (List String)
build_curl py r = do
  target ← validate_target r.target
  pure (
      "curl"
      ∷ "-sS"
      ∷ "-L"
      ∷ "--max-time"
      ∷ show (curl_timeout r.timeout)
      ∷ "-o"
      ∷ "/dev/null"
      ∷ "-w"
      ∷ "%{http_code} %{content_type}"
      ∷ (if has_scheme (lower target) then target else "http://" <> target)
      ∷ [])

-- A character of `_HOST_PORT_RE`; without regard to case four more letters count as i, s and k.
abbrev pub is_host_char : ℕ → Bool
is_host_char c =
    (leb b'a' c && leb c b'z')
    || (leb b'A' c && leb c b'Z')
    || (leb b'0' c && leb c b'9')
    || any (λ k. k == c) (b'.' ∷ b'-' ∷ b'[' ∷ b']' ∷ b':' ∷ 0x130 ∷ 0x131 ∷ 0x17f ∷ 0x212a ∷ [])

-- The rest of a match: more characters, and at the end perhaps one line feed, before which `$`
-- matches.
unfoldable pub host_rest : String → Bool
host_rest String.[] = true
host_rest (String.◌∷◌ c s) = (is_host_char (code c) && host_rest s) || (code c == 10 && str_eq s "")

-- `_HOST_PORT_RE.match(host)`
unfoldable pub is_host_port : String → Bool
is_host_port String.[] = false
is_host_port (String.◌∷◌ c s) = is_host_char (code c) && host_rest s

-- `s.split(p, 1)[1]`, for a `p` in `s`.
unfoldable pub after_text : String → String → String
after_text p String.[] = ""
after_text p (String.◌∷◌ c s) = elim (after_prefix p (String.◌∷◌ c s)) [
  | none ↦ after_text p s
  | some rest ↦ rest
]

unfoldable pub sslscan_host : String → String
sslscan_host target =
    if contains "://" (strip target)
    then before_char b'/' (after_text "://" (strip target))
    else strip target

unfoldable pub build_sslscan : Python → CommandRequest → Build (List String)
build_sslscan py r = do
  raise_if (not (is_host_port (sslscan_host r.target)))
      (value_error ("invalid tls_scan target " ∷ r.target ∷ []))
  port ← int_option py "port" "--port" r.options
  pure ("sslscan" ∷ "--no-colour" ∷ port ++ sslscan_host r.target ∷ [])

abbrev pub common_wordlist : String
common_wordlist = "/usr/share/wordlists/dirb/common.txt"

unfoldable pub build_gobuster : Python → CommandRequest → Build (List String)
build_gobuster py r = pure (
    "gobuster"
    ∷ "dir"
    ∷ "-u"
    ∷ with_scheme (strip r.target)
    ∷ "-w"
    ∷ text_or py "wordlist" common_wordlist r.options
    ∷ "-q"
    ∷ text_option py "status_codes" "-s" r.options)

-- `url.rstrip("/")`
abbrev pub slash_cons : Char → String → String
slash_cons c String.[] = if code c == b'/' then "" else String.◌∷◌ c ""
slash_cons c (String.◌∷◌ d s) = String.◌∷◌ c (String.◌∷◌ d s)

unfoldable pub strip_slashes : String → String
strip_slashes String.[] = ""
strip_slashes (String.◌∷◌ c s) = slash_cons c (strip_slashes s)

-- The place of the word list in the URL.
unfoldable pub fuzz_url : String → String
fuzz_url url = if contains "FUZZ" url then url else strip_slashes url <> "/FUZZ"

unfoldable pub build_ffuf : Python → CommandRequest → Build (List String)
build_ffuf py r = do
  threads ← int_option py "threads" "-t" r.options
  rate ← int_option py "rate" "-rate" r.options
  pure (
      "ffuf"
        ∷ "-u"
        ∷ fuzz_url (with_scheme (strip r.target))
        ∷ "-w"
        ∷ text_or py "wordlist" common_wordlist r.options
        ∷ "-mc"
        ∷ text_or py "match_codes" "200,204,301,302,307,403" r.options
        ∷ "-o"
        ∷ "-"
        ∷ "-of"
        ∷ "json"
        ∷ threads
      ++ rate)

unfoldable pub build_wfuzz : Python → CommandRequest → Build (List String)
build_wfuzz py r = do
  threads ← int_option py "threads" "-t" r.options
  rate ← int_option py "rate" "-R" r.options
  pure (
      "wfuzz"
        ∷ "-w"
        ∷ text_or py "wordlist" common_wordlist r.options
        ∷ "-u"
        ∷ fuzz_url (with_scheme (strip r.target))
        ∷ "--hc"
        ∷ text_or py "hide_codes" "404" r.options
        ∷ "--hw"
        ∷ text_or py "hide_words" "" r.options
        ∷ threads
      ++ rate)

unfoldable pub build_nikto : Python → CommandRequest → Build (List String)
build_nikto py r = pure (
    "nikto"
      ∷ "-h"
      ∷ with_scheme (strip r.target)
      ∷ "-nointeractive"
      ∷ switch py "ssl" ("-ssl" ∷ []) r.options
    ++ text_option py "tuning" "-Tuning" r.options)

-- `",".join(parts)`
abbrev pub join_commas : List String → String
join_commas [] = ""
join_commas (part ∷ []) = part
join_commas (part ∷ next ∷ parts) = part <> "," <> join_commas (next ∷ parts)

abbrev pub known_severity : String → Bool
known_severity s =
    any (λ name. str_eq name (strip s)) ("info" ∷ "low" ∷ "medium" ∷ "high" ∷ "critical" ∷ [])

-- The severities of the list that nuclei knows, if any.
abbrev pub severity_args : List String → List String
severity_args [] = []
severity_args (s ∷ chosen) = "-severity" ∷ join_commas (s ∷ chosen) ∷ []

unfoldable pub nuclei_severity : Python → Fields → List String
nuclei_severity py opts = elim (given py "severity" opts) [
  | none ↦ []
  | some value ↦ severity_args (select known_severity (split_on b',' (str_of py value)))
]

unfoldable pub build_nuclei : Python → CommandRequest → Build (List String)
build_nuclei py r = do
  rate ← int_or py "rate_limit" 10 r.options
  timeout ← int_or py "timeout" 10 r.options
  pure (
      "nuclei"
        ∷ "-u"
        ∷ with_scheme (strip r.target)
        ∷ "-jsonl"
        ∷ "-duc"
        ∷ "-rate-limit"
        ∷ show_ℤ rate
        ∷ "-timeout"
        ∷ show_ℤ timeout
        ∷ nuclei_severity py r.options
      ++ text_option py "tags" "-tags" r.options
      ++ text_option py "templates" "-t" r.options)

unfoldable pub build_wpscan : Python → CommandRequest → Build (List String)
build_wpscan py r = pure (
    "wpscan"
      ∷ "--url"
      ∷ with_scheme (strip r.target)
      ∷ "--format"
      ∷ "json"
      ∷ "--no-banner"
      ∷ text_option py "enumerate" "--enumerate" r.options
    ++ text_option py "plugins_detection" "--plugins-detection" r.options
    ++ text_option py "api_token" "--api-token" r.options
    ++ switch py "disable_tls_checks" ("--disable-tls-checks" ∷ []) r.options)

unfoldable pub build_whatweb : Python → CommandRequest → Build (List String)
build_whatweb py r = pure (
    "whatweb"
      ∷ "--color=never"
      ∷ "--no-errors"
      ∷ with_scheme (strip r.target)
      ∷ text_option py "max_threads" "--max-threads" r.options
    ++ switch py "follow_redirects" ("--follow-redirect=never" ∷ []) r.options)

unfoldable pub build_sqlmap : Python → CommandRequest → Build (List String)
build_sqlmap py r = do
  level ← int_or py "level" 1 r.options
  risk ← int_or py "risk" 1 r.options
  crawl ← int_option py "crawl" "--crawl" r.options
  pure (
      "sqlmap"
        ∷ "-u"
        ∷ with_scheme (strip r.target)
        ∷ "--batch"
        ∷ "--disable-coloring"
        ∷ "--level"
        ∷ show_ℤ level
        ∷ "--risk"
        ∷ show_ℤ risk
        ∷ text_option py "technique" "--technique" r.options
      ++ crawl
      ++ switch py "forms" ("--forms" ∷ []) r.options
      ++ text_option py "data" "--data" r.options)
