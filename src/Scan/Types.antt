-- ===== src/Scan/Types.antt =====
-- scan.go: limits, configuration, targets and the scanner; wire/v1.go: what it reports. The
-- addresses and networks are the parameter `n`.
use excubra.Prelude.{ℕ, ◌*◌, String, Bool, List, Option, ℤ}
use excubra.GoTime.{Time, Duration, hour}
use excubra.Netip.{Netip}

abbrev pub default_interval : ℕ
default_interval = 24 * hour

abbrev pub min_interval : ℕ
min_interval = hour

abbrev pub default_max_pps : ℕ
default_max_pps = 20

abbrev pub hard_max_pps : ℕ
hard_max_pps = 50

abbrev pub most_ports : ℕ
most_ports = 128

abbrev pub max_targets : ℕ
max_targets = 1024

abbrev pub max_scan_hosts : ℕ
max_scan_hosts = 50

abbrev pub max_scan_services : ℕ
max_scan_services = 64

pub record ScanTarget : Type 0 where
  pub site_id : String
  pub ip : String

pub record ScanConfig : Type 0 where
  pub enabled : Bool
  pub interval_s : ℤ
  pub max_pps : ℤ
  pub ports : List ℤ
  pub exclude : List String
  pub external : List ScanTarget

pub record TlsInfo : Type 0 where
  pub subject : String
  pub issuer : String
  pub not_after : Time
  pub self_signed : Bool
  pub version : String
  pub dns_names : List String

pub record ScanService : Type 0 where
  pub port : ℕ
  pub proto : String
  pub name : String
  pub product : String
  pub version : String
  pub banner : String
  pub title : String
  pub tls : Option TlsInfo

pub record ScanHost : Type 0 where
  pub ip : String
  pub mac : String
  pub site_id : String
  pub services : List ScanService

pub record ScanReport : Type 0 where
  pub round : String
  pub started_at : Time
  pub hosts : List ScanHost
  pub final : Bool
  pub scanned : ℕ
  pub errors : ℕ

pub record Target : Type 0 where
  pub ip : String
  pub mac : String
  pub site_id : String

pub record Config (n : Netip) : Type 0 where
  pub enabled : Bool
  pub interval : Duration
  pub max_pps : ℤ
  pub ports : List ℤ
  pub exclude : List n.Prefix
  pub external : List Target

pub record Scanner (n : Netip) : Type 0 where
  pub cfg : Config n
  pub round : String
  pub started : Time
  pub scanned : ℕ
  pub errors : ℕ
  pub pending : List ScanHost
  pub inflight : List ScanHost
  pub sent : ℕ
  pub running : Bool
