-- ===== src/Scan/Tests.antt =====
-- Runs of the scan, and the theorems at concrete rounds.
use excubra.Prelude.{
  ◌<◌, ◌≤◌, ◌-◌, ◌*◌, ◌+◌, ◌≡◌, refl, String, true, false, not, none, some, List, [], ◌∷◌, ◌++◌,
  map, arith, str_eq, if◌then◌else◌, length, contains, All, Once, pos, negsuc, ltb_ℤ,
}
use excubra.GoTime.{hour}
use excubra.Netip.{Netip}
use excubra.Scan.Types.{
  min_interval, most_ports, max_targets, max_scan_hosts, ScanConfig, ScanService, ScanHost, Target,
  Config, Scanner,
}
use excubra.Scan.Config.{parse_config, choose_interval, choose_ports}
use excubra.Scan.Round.{
  targets, scannable, excluded, choose_targets, scan_round, busy, Probe, failed, closed, listening,
}
use excubra.Scan.Chunks.{drain, ack, nack}
use excubra.Scan.Limits.{IsRate, distinct, parse_config_limits}
use excubra.Scan.Allowed.{IsOpen, target_ip, targets_allowed}
use excubra.Scan.Hosts.{IsTidy, host_ip, scan_round_hosts}
use excubra.Scan.Delivery.{deliver, deliver_lem}

-- Addresses that are their text; one stands for a malformed one.
abbrev plain : Netip
plain = record {
  Addr = String;
  Prefix = String;
  parse_addr = λ s. if str_eq s "fe80" then none else some s;
  parse_prefix = λ s. if str_eq s "10.0.0.9" then some s else none;
  is_4 = λ a. not (str_eq a "::1");
  is_private = λ a. false;
  is_loopback = λ a. false;
  is_link_local = λ a. str_eq a "169.254.0.1";
  text = λ a. a;
  address = λ p. p;
  bits = λ p. pos 32;
  masked = λ p. p;
  contains = str_eq;
  single = λ a. a;
  quote = λ s. s;
}

abbrev sent_config : ScanConfig
sent_config = record {
  enabled = true;
  interval_s = pos 10_000_000_000;
  max_pps = pos 60;
  ports = pos 22 ∷ pos 22 ∷ negsuc 4 ∷ pos 70000 ∷ pos 443 ∷ [];
  exclude = "10.0.0.9" ∷ [];
  external = [];
}

-- An interval of three hundred years wraps around, so an hour is used.
wraps : (choose_interval (pos 10_000_000_000)).0 ≡ pos hour
unfolding choose_interval
wraps = refl

keeps_ports : (choose_ports sent_config.ports []).0 ≡ pos 22 ∷ pos 443 ∷ []
unfolding choose_ports
keeps_ports = refl

abbrev lan : List Target
lan =
    record { ip = "10.0.0.7"; mac = "aa"; site_id = "" }
    ∷ record { ip = "10.0.0.9"; mac = "bb"; site_id = "" }
    ∷ record { ip = "10.0.0.3"; mac = "cc"; site_id = "" }
    ∷ record { ip = "10.0.0.7"; mac = "aa"; site_id = "" }
    ∷ record { ip = "169.254.0.1"; mac = "dd"; site_id = "" }
    ∷ []

abbrev used : Config plain
used = (parse_config plain sent_config).0

abbrev idle : Scanner plain
idle = record {
  cfg = record {
    enabled = true;
    interval = pos hour;
    max_pps = pos 20;
    ports = pos 22 ∷ [];
    exclude = "10.0.0.9" ∷ [];
    external = [];
  };
  round = "";
  started = 0;
  scanned = 0;
  errors = 0;
  pending = [];
  inflight = [];
  sent = 0;
  running = false;
}

abbrev ssh : ScanService
ssh = record {
  port = 22;
  proto = "tcp";
  name = "ssh";
  product = "OpenSSH";
  version = "9.6";
  banner = "";
  title = "";
  tls = none;
}

abbrev probes : List (String × Probe)
probes = ("10.0.0.7", listening ssh) ∷ ("10.0.0.3", closed) ∷ ("10.0.0.7", failed) ∷ []

chosen : map (λ (t : Target). t.ip) (targets plain idle.cfg lan) ≡ "10.0.0.3" ∷ "10.0.0.7" ∷ []
unfolding targets choose_targets scannable excluded
chosen = refl

targets_allowed_example :
    All (λ (t : Target). IsOpen plain idle.cfg t.ip) (targets plain idle.cfg lan)
    × Once (map target_ip (targets plain idle.cfg lan))
    × (length (targets plain idle.cfg lan) ≤ 1024)
targets_allowed_example = targets_allowed plain idle.cfg lan

some_chosen : 0 < length (targets plain idle.cfg lan)
unfolding targets choose_targets scannable excluded
some_chosen = omega arith

scan_round_hosts_example :
    let after = scan_round plain idle idle.cfg lan (5 * hour) probes false in
    All IsTidy after.pending
    × Once (map host_ip after.pending)
    × (contains "10.0.0.7" (map host_ip after.pending)
        ≡ contains "10.0.0.7" (map (λ (t : Target). t.ip) (targets plain idle.cfg lan)))
    × (after.scanned ≡ length after.pending)
scan_round_hosts_example =
    scan_round_hosts plain idle idle.cfg lan (5 * hour) probes "10.0.0.7" some_chosen

parse_config_limits_example :
    (ltb_ℤ used.interval (pos min_interval) ≡ false)
    × IsRate used.max_pps
    × (0 < length used.ports)
    × (length used.ports ≤ most_ports)
    × (distinct used.ports ≡ true)
    × (length used.external ≤ max_targets)
parse_config_limits_example = parse_config_limits plain sent_config

abbrev host_of : String → ScanHost
host_of ip = record { ip = ip; mac = ""; site_id = ""; services = [] }

abbrev full : Scanner plain
full = record idle { pending = host_of "10.0.0.3" ∷ host_of "10.0.0.7" ∷ []; sent = 0 }

-- The first heartbeat is lost, the second arrives.
got : map host_ip (deliver full (false ∷ true ∷ [])).0 ≡ "10.0.0.3" ∷ "10.0.0.7" ∷ []
unfolding deliver drain ack nack
got = refl

deliver_lem_example :
    ((deliver full (false ∷ true ∷ [])).0 ++ (deliver full (false ∷ true ∷ [])).1.pending
      ≡ host_of "10.0.0.3" ∷ host_of "10.0.0.7" ∷ [])
    × (length (deliver full (false ∷ true ∷ [])).1.pending ≡ 2 - max_scan_hosts * 1)
    × ((deliver full (false ∷ true ∷ [])).1.sent ≡ 0 + length (deliver full (false ∷ true ∷ [])).0)
    × (busy plain (deliver full (false ∷ true ∷ [])).1 ≡ false)
deliver_lem_example = deliver_lem full (false ∷ true ∷ []) refl refl
