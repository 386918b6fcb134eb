-- ===== src/Rules/Inside.antt =====
-- scan.go: the services of a device in the LAN.
use Prim.Native.String.{◌++◌ as ◌<>◌}
use excubra.Prelude.{ℕ, String, none, some, List, [], ◌∷◌, ◌++◌, ◌==◌, if◌then◌else◌, sort_by}
use excubra.GoTime.{Time}
use excubra.Rules.{
  Severity, high, medium, low, Finding, Service, one_of, service_key, tls_findings, finding_earlier,
}

abbrev found : Service → String → Severity → String → List Finding
found svc rule severity title =
    record { rule = rule; key = service_key svc; severity = severity; title = title } ∷ []

abbrev open_name : ℕ → String
open_name p = if p == 6379 then "Redis" else if p == 27017 then "MongoDB" else "Elasticsearch"

abbrev database_name : ℕ → String
database_name p =
    if p == 3306
    then "MySQL/MariaDB"
    else if p == 5432
    then "PostgreSQL"
    else if p == 1433
    then "MS SQL"
    else "Oracle"

-- What the port alone says.
unfoldable pub inside_door : Service → List Finding
inside_door svc =
    let p = svc.port in
    if p == 23
    then found svc "scan.telnet" high "Telnet erreichbar"
    else if p == 21
    then found svc "scan.ftp" medium "FTP erreichbar"
    else if p == 5900
    then found svc "scan.vnc" medium "VNC erreichbar"
    else if p == 2375
    then found svc "scan.docker_api" high "Docker-API ohne Verschlüsselung erreichbar"
    else if one_of p (6379 ∷ 27017 ∷ 9200 ∷ [])
    then found svc "scan.db_open" medium (open_name p <> " im Netz erreichbar")
    else if one_of p (3306 ∷ 5432 ∷ 1433 ∷ 1521 ∷ [])
    then found svc "scan.db_open" low (database_name p <> " im Netz erreichbar")
    else if p == 3389
    then found svc "scan.rdp" low "Remotedesktop erreichbar"
    else if p == 5985
    then found svc "scan.winrm_plain" medium "WinRM ohne TLS erreichbar"
    else if p == 389
    then found svc "scan.ldap_plain" low "LDAP ohne TLS erreichbar"
    else if p == 10000
    then found svc "scan.webmin" medium "Verwaltungsoberfläche auf Port 10000"
    else []

unfoldable pub inside_service : Time → Service → List Finding
inside_service now svc =
    inside_door svc
    ++ elim svc.tls [ none ↦ [] | some t ↦ tls_findings svc t (service_key svc) now ]

abbrev pub inside_all : Time → List Service → List Finding
inside_all now [] = []
inside_all now (svc ∷ svcs) = inside_service now svc ++ inside_all now svcs

unfoldable pub evaluate_scan : Time → List Service → List Finding
evaluate_scan now svcs = sort_by finding_earlier (inside_all now svcs)
