-- ===== src/Capabilities.antt =====
-- capabilities/catalog.py: the permission that a capability asks for.
use ksec.Prelude.{String, none, some, [], ◌∷◌}
use ksec.Prelude.Dict.{Dict, get?, string_eq}

-- `CAPABILITY_PERMISSION`
abbrev pub capability_permissions : Dict String String
capability_permissions =
    ("port_scan", "assess.run")
    ∷ ("http_probe", "assess.run")
    ∷ ("tls_scan", "assess.run")
    ∷ ("web_vuln_scan", "assess.run")
    ∷ ("directory_brute", "assess.run")
    ∷ ("password_crack", "assess.run")
    ∷ ("test_scan", "assess.run")
    ∷ ("web_fingerprint", "assess.run")
    ∷ ("dns_lookup", "recon.run")
    ∷ ("whois_lookup", "recon.run")
    ∷ ("subdomain_enum", "recon.run")
    ∷ ("traceroute", "recon.run")
    ∷ ("dns_enum", "recon.run")
    ∷ ("osint_harvest", "recon.run")
    ∷ ("wpscan", "assess.run")
    ∷ ("auth_test", "assess.run")
    ∷ ("smb_enum", "assess.run")
    ∷ ("smb_map", "assess.run")
    ∷ ("exploit_search", "recon.run")
    ∷ ("sqli_test", "assess.run")
    ∷ ("web_fuzz", "assess.run")
    ∷ ("smb_cred_test", "assess.run")
    ∷ ("cve_scan", "assess.run")
    ∷ ("wifi_scan", "assess.run")
    ∷ ("wifi_crack", "assess.run")
    ∷ ("whois_lookup", "recon.run")
    ∷ ("traceroute", "recon.run")
    ∷ ("snmp_enum", "recon.run")
    ∷ ("password_crack", "assess.run")
    ∷ ("smtp_enum", "assess.run")
    ∷ []

unfoldable pub capability_permission : String → String
capability_permission capability = elim (get? capability capability_permissions) [
  | none ↦ "assess.run"
  | some permission ↦ permission
]
