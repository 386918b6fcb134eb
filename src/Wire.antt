-- ===== src/Wire.antt =====
-- internal/wire/v1.go: what a box reports in a heartbeat, and the configuration of its decoys.
use excubra.Prelude.{ℕ, String, ℤ, Bool, Option, List}
use excubra.GoTime.{Time}

pub record CheckResult : Type 0 where
  pub type : String
  pub ok : Bool
  pub error : String
  pub latency_ms : Option ℤ
  pub status : ℤ

pub record Round : Type 0 where
  pub at : Time
  pub ok : Bool
  pub checks : List CheckResult

pub record HostReport : Type 0 where
  pub host_id : String
  pub rounds : List Round

-- A count and a port are never negative.
pub record Signal : Type 0 where
  pub kind : String
  pub device_id : String
  pub ip : String
  pub mac : String
  pub port : ℕ
  pub count : ℕ
  pub detail : String
  pub first_at : Time
  pub last_at : Time

abbrev pub max_signals : ℕ
max_signals = 200

pub record CanaryConfig : Type 0 where
  pub enabled : Bool
  pub ports : List ℤ

abbrev pub signal_canary : String
signal_canary = "canary"

abbrev pub signal_port_scan : String
signal_port_scan = "port_scan"

abbrev pub signal_arp_scan : String
signal_arp_scan = "arp_scan"

abbrev pub signal_arp_spoof : String
signal_arp_spoof = "arp_spoof"

abbrev pub signal_fgt_admin_fail : String
signal_fgt_admin_fail = "fgt_admin_fail"

abbrev pub signal_fgt_vpn_fail : String
signal_fgt_vpn_fail = "fgt_vpn_fail"

abbrev pub signal_fgt_ips : String
signal_fgt_ips = "fgt_ips"

abbrev pub signal_dns_block : String
signal_dns_block = "dns_block"

abbrev pub signal_dns_dga : String
signal_dns_dga = "dns_dga"

abbrev pub signal_dns_tunnel : String
signal_dns_tunnel = "dns_tunnel"

abbrev pub task_update : String
task_update = "update"
