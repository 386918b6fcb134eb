-- ===== src/Scan/Round.antt =====
-- scan.go: `targets`, `excluded` and `Round`. A round is the sequence in which its probes come
-- back, whatever the order.
use Prim.Native.String.{◌++◌ as ◌<>◌}
use excubra.Prelude.{
  ℕ, ◌+◌, String, Bool, false, not, ◌&&◌, ◌||◌, none, some, List, [], ◌∷◌, ◌++◌, ltb, leb, ◌==◌,
  if◌then◌else◌, length, str_lt, sort_by, contains, map,
}
use excubra.GoMap.{Map, lookup, insert, values}
use excubra.GoTime.{Time, unix_nano}
use excubra.GoText.{itoa_ℤ}
use excubra.Netip.{Netip}
use excubra.Scan.Types.{
  max_targets, max_scan_services, ScanService, ScanHost, Target, Config, Scanner,
}

abbrev pub ip_earlier : Target → Target → Bool
ip_earlier a b = str_lt a.ip b.ip

module _ (n : Netip) where
  unfoldable pub excluded : List n.Prefix → n.Addr → Bool
  excluded [] a = false
  excluded (p ∷ ps) a = n.contains p a || excluded ps a

  -- What `targets` takes of the list: the text is an IPv4 address that may be touched.
  unfoldable pub scannable : List n.Prefix → String → Bool
  scannable ex ip = elim (n.parse_addr ip) [
    | none ↦ false
    | some a ↦ not (not (n.is_4 a) || n.is_link_local a) && not (excluded ex a)
  ]

  -- The loop of `targets`; what was seen are the addresses of what was kept.
  unfoldable pub choose_targets : List n.Prefix → List Target → List Target → List Target
  choose_targets ex [] kept = kept
  choose_targets ex (t ∷ ts) kept =
      let skip = choose_targets ex ts kept in
      let more = choose_targets ex ts (kept ++ (t ∷ [])) in
      if not (scannable ex t.ip) || contains t.ip (map (λ (u : Target). u.ip) kept)
      then skip
      else if leb max_targets (length (kept ++ (t ∷ [])))
      then kept ++ (t ∷ [])
      else more

  -- `known` are the devices of the discovery.
  unfoldable pub targets : Config n → List Target → List Target
  targets cfg known =
      let list = if ltb 0 (length cfg.external) then cfg.external else known in
      sort_by ip_earlier (choose_targets cfg.exclude list [])

  unfoldable pub busy : Scanner n → Bool
  busy s = s.running || ltb 0 (length s.pending) || ltb 0 (length s.inflight)

-- What a probe gives: an error, nothing that listens, or a service.
pub data Probe : Type 0 where
  failed : Probe
  closed : Probe
  listening : ScanService → Probe

-- The results of a round so far.
pub record Results : Type 0 where
  pub hosts : Map ScanHost
  pub errs : ℕ

abbrev pub blank : Target → ScanHost
blank t = record { ip = t.ip; mac = t.mac; site_id = t.site_id; services = [] }

unfoldable pub blanks : List Target → Map ScanHost → Map ScanHost
blanks [] m = m
blanks (t ∷ ts) m = blanks ts (insert t.ip (blank t) m)

unfoldable pub add_service : ScanService → ScanHost → ScanHost
add_service svc h =
    if ltb (length h.services) max_scan_services
    then record h { services = h.services ++ (svc ∷ []) }
    else h

-- A probe of a target comes back.
unfoldable pub arrive : Results → String × Probe → Results
arrive r (ip, failed) = record r { errs = r.errs + 1 }
arrive r (ip, closed) = r
arrive r (ip, listening svc) = elim (lookup ip r.hosts) [
  | none ↦ r
  | some h ↦ record r { hosts = insert ip (add_service svc h) r.hosts }
]

unfoldable pub arrive_all : Results → List (String × Probe) → Results
arrive_all r [] = r
arrive_all r (x ∷ xs) = arrive_all (arrive r x) xs

abbrev pub port_earlier : ScanService → ScanService → Bool
port_earlier a b = ltb a.port b.port

abbrev pub host_earlier : ScanHost → ScanHost → Bool
host_earlier a b = str_lt a.ip b.ip

unfoldable pub sort_services : ScanHost → ScanHost
sort_services h = record h { services = sort_by port_earlier h.services }

unfoldable pub sorted_hosts : Map ScanHost → List ScanHost
sorted_hosts m = sort_by host_earlier (map sort_services (values m))

module _ (n : Netip) where
  -- The round of the known devices that started then; it is dropped if the agent is stopping.
  unfoldable pub scan_round :
      Scanner n → Config n → List Target → Time → List (String × Probe) → Bool → Scanner n
  scan_round s cfg known started probes stopping =
      let chosen = targets n cfg known in
      let r = arrive_all (record { hosts = blanks chosen []; errs = 0 }) probes in
      let hosts = sorted_hosts r.hosts in
      if length chosen == 0 || stopping then record s { running = false } else record s {
        round = "scan_" <> itoa_ℤ (unix_nano started);
        started = started;
        scanned = length hosts;
        errors = r.errs;
        sent = 0;
        pending = hosts;
        running = false;
      }
