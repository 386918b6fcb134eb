-- ===== src/Rules/Outside.antt =====
-- wan.go: the services on a site's public address.
use Prim.Native.String.{[] as empty, ◌∷◌ as ◌:>◌, ◌++◌ as ◌<>◌}
use excubra.Prelude.{
  ℕ, String, Bool, true, false, not, ◌&&◌, ◌||◌, none, some, List, [], ◌∷◌, ◌++◌, map, ◌==◌,
  if◌then◌else◌, str_eq, sort_by,
}
use excubra.GoTime.{Time}
use excubra.GoText.{itoa, to_lower}
use excubra.Rules.{
  Severity, high, medium, low, Finding, Service, has_prefix, has_text, one_of, service_key,
  tls_findings, finding_earlier,
}

abbrev drop_text : String → String → String
drop_text s empty = s
drop_text empty (d :> t) = ""
drop_text (c :> s) (d :> t) = drop_text s t

-- `strings.Replace` with one replacement.
unfoldable pub replace_first : String → String → String → String
replace_first empty old new = if has_prefix "" old then new else ""
replace_first (c :> s) old new =
    let rest = replace_first s old new in
    if has_prefix (c :> s) old then new <> drop_text (c :> s) old else c :> rest

unfoldable pub is_web : Service → Bool
is_web svc =
    let encrypted : Bool = elim svc.tls [ none ↦ false | some t ↦ true ] in
    str_eq svc.name "http"
    || str_eq svc.name "https"
    || not (str_eq svc.title "")
    || (encrypted && not (one_of svc.port (465 ∷ 993 ∷ 995 ∷ 636 ∷ [])))

abbrev any_text : String → List String → Bool
any_text hay [] = false
any_text hay (w ∷ ws) = has_text hay w || any_text hay ws

unfoldable pub admin_ui : Service → Bool
admin_ui svc =
    any_text (to_lower (svc.title <> (" " <> (svc.banner <> (" " <> svc.product))))) (
      "fritz" ∷ "fortigate" ∷ "fortinet" ∷ "proxmox" ∷ "pve" ∷ "starface" ∷ "synology" ∷ "qnap"
      ∷ "unifi" ∷ "ubiquiti" ∷ "router" ∷ "gateway" ∷ "firewall" ∷ "speedport" ∷ "lancom" ∷ "sophos"
      ∷ "watchguard" ∷ "mikrotik" ∷ "router os" ∷ "pfsense" ∷ "opnsense" ∷ "ilo" ∷ "idrac"
      ∷ "webmin" ∷ "cockpit" ∷ "truenas" ∷ "freenas" ∷ "nas" ∷ "admin" ∷ "login" ∷ "anmeld" ∷ [])
    || svc.port == 8006
    || svc.port == 10000

unfoldable pub worse : Severity → Severity
worse high = high
worse medium = high
worse low = medium

abbrev pub urgent_ports : List ℕ
urgent_ports = 23 ∷ 21 ∷ 5900 ∷ 2375 ∷ 5985 ∷ 389 ∷ 111 ∷ 2049 ∷ 9100 ∷ 1723 ∷ []

abbrev exposed_name : ℕ → String
exposed_name p =
    if p == 23
    then "Telnet"
    else if p == 21
    then "FTP"
    else if p == 5900
    then "VNC"
    else if p == 2375
    then "Docker-API"
    else if p == 5985
    then "WinRM ohne TLS"
    else if p == 389
    then "LDAP"
    else if p == 111
    then "RPC"
    else if p == 2049
    then "NFS"
    else if p == 9100
    then "Drucker-Port"
    else "PPTP-VPN"

abbrev shown_name : Service → String
shown_name svc = if str_eq svc.name "" then "Port " <> itoa svc.port else svc.name

abbrev seen : Service → String → Severity → String → Finding
seen svc rule severity title = record {
  rule = rule;
  key = service_key svc;
  severity = severity;
  title = title;
}

-- The one finding that an open port is.
unfoldable pub outside_door : Service → Finding
outside_door svc =
    let p = svc.port in
    if p == 3389
    then seen svc "wan.rdp" high "Remotedesktop aus dem Internet erreichbar"
    else if one_of p (445 ∷ 139 ∷ 135 ∷ [])
    then seen svc "wan.smb" high "Windows-Dateifreigabe aus dem Internet erreichbar"
    else if one_of p urgent_ports
    then seen svc "wan.exposed" high (exposed_name p <> " aus dem Internet erreichbar")
    else if one_of p (3306 ∷ 5432 ∷ 1433 ∷ 1521 ∷ 6379 ∷ 27017 ∷ 9200 ∷ [])
    then seen svc "wan.database" high "Datenbank aus dem Internet erreichbar"
    else if p == 22
    then seen svc "wan.ssh" medium "SSH aus dem Internet erreichbar"
    else if one_of p (5060 ∷ 5061 ∷ [])
    then seen svc "wan.sip" medium "Telefonanlage (SIP) aus dem Internet erreichbar"
    else if one_of p (25 ∷ 465 ∷ 587 ∷ 110 ∷ 143 ∷ 993 ∷ 995 ∷ [])
    then seen svc "wan.mail" low "Maildienst aus dem Internet erreichbar"
    else if p == 1194
    then seen svc "wan.vpn" low "VPN-Endpunkt aus dem Internet erreichbar"
    else if is_web svc
    then if admin_ui svc
      then seen svc "wan.admin_ui" high "Verwaltungsoberfläche aus dem Internet erreichbar"
      else seen svc "wan.web" medium
          ("Webdienst auf Port " <> (itoa svc.port <> " aus dem Internet erreichbar"))
    else seen svc "wan.open" low (shown_name svc <> " aus dem Internet erreichbar")

-- A finding on the encryption as it counts outside.
unfoldable pub from_outside : Finding → Finding
from_outside f =
    let rule = replace_first f.rule "scan." "wan." in
    record f {
      rule = rule;
      severity =
          if str_eq rule "wan.cert_selfsigned" || str_eq rule "wan.tls_old"
          then worse f.severity
          else f.severity;
    }

unfoldable pub outside_service : Time → Service → List Finding
outside_service now svc = outside_door svc ∷ elim svc.tls [
  | none ↦ []
  | some t ↦ map from_outside (tls_findings svc t (service_key svc) now)
]

abbrev pub outside_all : Time → List Service → List Finding
outside_all now [] = []
outside_all now (svc ∷ svcs) = outside_service now svc ++ outside_all now svcs

unfoldable pub evaluate_external : Time → List Service → List Finding
evaluate_external now svcs = sort_by finding_earlier (outside_all now svcs)
