-- ===== src/Adapters/Builtin.antt =====
-- adapters/registry.py: the adapters of the capabilities, with the choice of a tool and the plugins
-- that own a capability.
use ksec.Prelude.{String, Bool, true, false, List, [], ◌∷◌}
use ksec.Prelude.Dict.{string_eq}
use ksec.Adapters.{CommandRequest, Python, Build}
use ksec.Adapters.Network.{
  build_nmap, build_masscan, build_dig, build_whois, build_traceroute, build_dnsrecon,
  build_dnsenum, build_amass, build_snmpwalk, build_onesixtyone, build_smtp_enum, build_iwlist,
  build_null,
}
use ksec.Adapters.Web.{
  build_curl, build_sslscan, build_gobuster, build_ffuf, build_wfuzz, build_nikto, build_nuclei,
  build_wpscan, build_whatweb, build_sqlmap,
}
use ksec.Adapters.Hosts.{
  build_hydra, build_enum4linux, build_smbmap, build_nxc, build_searchsploit, build_theharvester,
  build_john, build_aircrack,
}

pub data Safety : Type 0 where
  passive active_safe active_aggressive : Safety

-- An adapter, without its description; `default_parser` is empty where it has none.
pub record ToolAdapter : Type 0 where
  pub name : String
  pub capability : String
  pub safety : Safety
  pub default_parser : String
  pub reads_stderr : Bool
  pub build_command : Python → CommandRequest → Build (List String)

abbrev pub nmap_adapter : ToolAdapter
nmap_adapter = record {
  name = "nmap";
  capability = "port_scan";
  safety = active_safe;
  default_parser = "nmap_xml";
  reads_stderr = false;
  build_command = build_nmap;
}

abbrev pub masscan_adapter : ToolAdapter
masscan_adapter = record {
  name = "masscan";
  capability = "port_scan";
  safety = active_safe;
  default_parser = "masscan_json";
  reads_stderr = false;
  build_command = build_masscan;
}

abbrev pub dig_adapter : ToolAdapter
dig_adapter = record {
  name = "dig";
  capability = "dns_lookup";
  safety = passive;
  default_parser = "dig";
  reads_stderr = false;
  build_command = build_dig;
}

abbrev pub curl_adapter : ToolAdapter
curl_adapter = record {
  name = "curl";
  capability = "http_probe";
  safety = active_safe;
  default_parser = "http_probe";
  reads_stderr = false;
  build_command = build_curl;
}

abbrev pub sslscan_adapter : ToolAdapter
sslscan_adapter = record {
  name = "sslscan";
  capability = "tls_scan";
  safety = active_safe;
  default_parser = "tls_scan";
  reads_stderr = false;
  build_command = build_sslscan;
}

abbrev pub gobuster_adapter : ToolAdapter
gobuster_adapter = record {
  name = "gobuster";
  capability = "directory_brute";
  safety = active_safe;
  default_parser = "gobuster";
  reads_stderr = false;
  build_command = build_gobuster;
}

abbrev pub ffuf_adapter : ToolAdapter
ffuf_adapter = record {
  name = "ffuf";
  capability = "web_fuzz";
  safety = active_safe;
  default_parser = "ffuf";
  reads_stderr = false;
  build_command = build_ffuf;
}

abbrev pub wfuzz_adapter : ToolAdapter
wfuzz_adapter = record {
  name = "wfuzz";
  capability = "web_fuzz";
  safety = active_safe;
  default_parser = "wfuzz";
  reads_stderr = false;
  build_command = build_wfuzz;
}

abbrev pub nikto_adapter : ToolAdapter
nikto_adapter = record {
  name = "nikto";
  capability = "web_vuln_scan";
  safety = active_aggressive;
  default_parser = "nikto";
  reads_stderr = false;
  build_command = build_nikto;
}

abbrev pub nuclei_adapter : ToolAdapter
nuclei_adapter = record {
  name = "nuclei";
  capability = "cve_scan";
  safety = active_safe;
  default_parser = "nuclei";
  reads_stderr = false;
  build_command = build_nuclei;
}

abbrev pub dnsrecon_adapter : ToolAdapter
dnsrecon_adapter = record {
  name = "dnsrecon";
  capability = "dns_enum";
  safety = passive;
  default_parser = "dnsrecon";
  reads_stderr = true;
  build_command = build_dnsrecon;
}

abbrev pub dnsenum_adapter : ToolAdapter
dnsenum_adapter = record {
  name = "dnsenum";
  capability = "dns_enum";
  safety = passive;
  default_parser = "dnsenum";
  reads_stderr = false;
  build_command = build_dnsenum;
}

abbrev pub wpscan_adapter : ToolAdapter
wpscan_adapter = record {
  name = "wpscan";
  capability = "wpscan";
  safety = active_aggressive;
  default_parser = "wpscan";
  reads_stderr = false;
  build_command = build_wpscan;
}

abbrev pub hydra_adapter : ToolAdapter
hydra_adapter = record {
  name = "hydra";
  capability = "auth_test";
  safety = active_aggressive;
  default_parser = "hydra";
  reads_stderr = false;
  build_command = build_hydra;
}

abbrev pub enum4linux_adapter : ToolAdapter
enum4linux_adapter = record {
  name = "enum4linux";
  capability = "smb_enum";
  safety = active_aggressive;
  default_parser = "enum4linux";
  reads_stderr = false;
  build_command = build_enum4linux;
}

abbrev pub smbmap_adapter : ToolAdapter
smbmap_adapter = record {
  name = "smbmap";
  capability = "smb_map";
  safety = active_aggressive;
  default_parser = "smbmap";
  reads_stderr = false;
  build_command = build_smbmap;
}

abbrev pub nxc_adapter : ToolAdapter
nxc_adapter = record {
  name = "nxc";
  capability = "smb_cred_test";
  safety = active_aggressive;
  default_parser = "nxc";
  reads_stderr = false;
  build_command = build_nxc;
}

abbrev pub sqlmap_adapter : ToolAdapter
sqlmap_adapter = record {
  name = "sqlmap";
  capability = "sqli_test";
  safety = active_aggressive;
  default_parser = "sqlmap";
  reads_stderr = false;
  build_command = build_sqlmap;
}

abbrev pub searchsploit_adapter : ToolAdapter
searchsploit_adapter = record {
  name = "searchsploit";
  capability = "exploit_search";
  safety = passive;
  default_parser = "searchsploit";
  reads_stderr = false;
  build_command = build_searchsploit;
}

abbrev pub whatweb_adapter : ToolAdapter
whatweb_adapter = record {
  name = "whatweb";
  capability = "web_fingerprint";
  safety = active_safe;
  default_parser = "whatweb";
  reads_stderr = false;
  build_command = build_whatweb;
}

abbrev pub theharvester_adapter : ToolAdapter
theharvester_adapter = record {
  name = "theHarvester";
  capability = "osint_harvest";
  safety = passive;
  default_parser = "theharvester";
  reads_stderr = false;
  build_command = build_theharvester;
}

abbrev pub amass_adapter : ToolAdapter
amass_adapter = record {
  name = "amass";
  capability = "subdomain_enum";
  safety = passive;
  default_parser = "amass";
  reads_stderr = false;
  build_command = build_amass;
}

abbrev pub whois_adapter : ToolAdapter
whois_adapter = record {
  name = "whois";
  capability = "whois_lookup";
  safety = passive;
  default_parser = "whois";
  reads_stderr = false;
  build_command = build_whois;
}

abbrev pub traceroute_adapter : ToolAdapter
traceroute_adapter = record {
  name = "traceroute";
  capability = "traceroute";
  safety = passive;
  default_parser = "traceroute";
  reads_stderr = false;
  build_command = build_traceroute;
}

abbrev pub john_adapter : ToolAdapter
john_adapter = record {
  name = "john";
  capability = "password_crack";
  safety = active_aggressive;
  default_parser = "john";
  reads_stderr = false;
  build_command = build_john;
}

abbrev pub snmpwalk_adapter : ToolAdapter
snmpwalk_adapter = record {
  name = "snmpwalk";
  capability = "snmp_enum";
  safety = active_safe;
  default_parser = "snmpwalk";
  reads_stderr = false;
  build_command = build_snmpwalk;
}

abbrev pub onesixtyone_adapter : ToolAdapter
onesixtyone_adapter = record {
  name = "onesixtyone";
  capability = "snmp_enum";
  safety = active_safe;
  default_parser = "onesixtyone";
  reads_stderr = false;
  build_command = build_onesixtyone;
}

abbrev pub smtp_enum_adapter : ToolAdapter
smtp_enum_adapter = record {
  name = "smtp-user-enum";
  capability = "smtp_enum";
  safety = active_safe;
  default_parser = "smtp_enum";
  reads_stderr = false;
  build_command = build_smtp_enum;
}

abbrev pub iwlist_adapter : ToolAdapter
iwlist_adapter = record {
  name = "iwlist";
  capability = "wifi_scan";
  safety = active_safe;
  default_parser = "iwlist";
  reads_stderr = false;
  build_command = build_iwlist;
}

abbrev pub aircrack_adapter : ToolAdapter
aircrack_adapter = record {
  name = "aircrack-ng";
  capability = "wifi_crack";
  safety = active_aggressive;
  default_parser = "aircrack_ng";
  reads_stderr = false;
  build_command = build_aircrack;
}

abbrev pub null_adapter : ToolAdapter
null_adapter = record {
  name = "null";
  capability = "test_scan";
  safety = passive;
  default_parser = "";
  reads_stderr = false;
  build_command = build_null;
}

-- `_BUILTIN_ADAPTERS`
abbrev pub builtin_adapters : List ToolAdapter
builtin_adapters =
    nmap_adapter ∷ masscan_adapter ∷ dig_adapter ∷ curl_adapter ∷ sslscan_adapter ∷ gobuster_adapter
    ∷ ffuf_adapter ∷ wfuzz_adapter ∷ nikto_adapter ∷ nuclei_adapter ∷ dnsrecon_adapter
    ∷ dnsenum_adapter ∷ wpscan_adapter ∷ hydra_adapter ∷ enum4linux_adapter ∷ smbmap_adapter
    ∷ nxc_adapter ∷ sqlmap_adapter ∷ searchsploit_adapter ∷ whatweb_adapter ∷ theharvester_adapter
    ∷ amass_adapter ∷ whois_adapter ∷ traceroute_adapter ∷ john_adapter ∷ snmpwalk_adapter
    ∷ onesixtyone_adapter ∷ smtp_enum_adapter ∷ iwlist_adapter ∷ aircrack_adapter ∷ null_adapter
    ∷ []
