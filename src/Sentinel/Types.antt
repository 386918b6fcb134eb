-- ===== src/Sentinel/Types.antt =====
-- sentinel.go: the constants and the state. The decoy listeners and the watcher's goroutine are I/O
-- and stand outside of it.
use excubra.Prelude.{ℕ, String, Bool, false, List, [], ◌*◌}
use excubra.GoMap.{Map}
use excubra.GoTime.{Time, minute}
use excubra.Wire.{Signal, max_signals}

abbrev pub window : ℕ
window = minute

abbrev pub scan_ports : ℕ
scan_ports = 8

abbrev pub arp_scan_hosts : ℕ
arp_scan_hosts = 100

abbrev pub flap_window : ℕ
flap_window = 10 * minute

abbrev pub flap_changes : ℕ
flap_changes = 3

abbrev pub max_sources : ℕ
max_sources = 2048

abbrev pub max_pending : ℕ
max_pending = max_signals

abbrev pub max_ports : ℕ
max_ports = 16

abbrev pub detail_ports : ℕ
detail_ports = 12

pub record Config : Type 0 where
  pub enabled : Bool
  pub ports : List ℕ

pub record Self : Type 0 where
  pub ip : String
  pub mac : String
  pub gateway : String

pub record Counter : Type 0 where
  pub items : Map Time
  pub pruned : Time
  pub alarm : Bool

pub record Claim : Type 0 where
  pub mac : String
  pub changes : List Time
  pub seen : Time

pub record Sentinel : Type 0 where
  pub cfg : Config
  pub self : Self
  pub decoys : List ℕ
  pub failed : List ℕ
  pub syn : Map Counter
  pub arp : Map Counter
  pub claims : Map Claim
  pub pending : Map Signal
  pub order : List String
  pub inflight : Map Signal

unfoldable pub new : Sentinel
new = record {
  cfg = record { enabled = false; ports = [] };
  self = record { ip = ""; mac = ""; gateway = "" };
  decoys = [];
  failed = [];
  syn = [];
  arp = [];
  claims = [];
  pending = [];
  order = [];
  inflight = [];
}
