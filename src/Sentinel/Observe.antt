-- ===== src/Sentinel/Observe.antt =====
-- sentinel.go: what the sensors see, `ObserveARP`, `observeFrame`, `observeSYN` and `touch`.
use Prim.Native.String.{◌++◌ as ◌<>◌}
use text.Mathlib.Text.{starts_with}
use excubra.Prelude.{
  ℕ, String, Bool, true, false, not, ◌&&◌, ◌||◌, none, some, List, [], ◌∷◌, ◌++◌, leb, ◌==◌, ◌*◌,
  if◌then◌else◌, length, pos, ltb_ℤ, str_eq, select,
}
use excubra.GoMap.{lookup, insert}
use excubra.GoTime.{Time, time_sub, zero_time}
use excubra.GoText.{itoa, to_lower}
use excubra.Wire.{Signal, signal_canary, signal_port_scan, signal_arp_scan, signal_arp_spoof}
use excubra.Sentinel.Types.{
  Sentinel, Claim, Counter, flap_window, flap_changes, scan_ports, arp_scan_hosts, max_sources,
}
use excubra.Sentinel.Config.{has_port}
use excubra.Sentinel.Counters.{count_key, counter_for, drop_claim, detail}
use excubra.Sentinel.Pending.{file, record_scan}
use excubra.Sentinel.Frames.{parse_syn}

-- discovery.ARPFrame
pub record ArpFrame : Type 0 where
  pub op : ℕ
  pub sender_mac : String
  pub sender_ip : String
  pub target_ip : String

abbrev pub signal_of : String → String → String → ℕ → ℕ → String → Signal
signal_of kind ip mac port count detail = record {
  kind = kind;
  device_id = "";
  ip = ip;
  mac = mac;
  port = port;
  count = count;
  detail = detail;
  first_at = zero_time;
  last_at = zero_time;
}

abbrev pub raise : Counter → Counter
raise c = record c { alarm = true }

-- The request that `ObserveARP` counts towards a search of the network.
unfoldable pub count_request : Sentinel → String → ArpFrame → Time → Sentinel
count_request s mac f now =
    let (arp, c) = counter_for s.arp mac now in
    let (c1, n) = count_key c f.target_ip now in
    if leb arp_scan_hosts n
    then file (record s { arp = insert mac (raise c1) arp })
        (signal_of signal_arp_scan f.sender_ip mac 0 n "") false now
    else record s { arp = insert mac c1 arp }

-- A claim of an address that was claimed with another MAC.
unfoldable pub move_claim : Sentinel → Claim → String → String → Time → Sentinel
move_claim s cl mac ip now =
    let changes =
      select (λ t. not (ltb_ℤ (pos flap_window) (time_sub now t))) cl.changes ++ (now ∷ []) in
    let s1 = record s {
      claims = insert ip (record { mac = mac; changes = changes; seen = now }) s.claims;
    } in
    let moved = cl.mac <> (" → " <> mac) in
    if str_eq ip s.self.gateway
    then file s1 (signal_of signal_arp_spoof ip mac 0 (length changes) ("gateway " <> moved)) false
        now
    else if leb flap_changes (length changes)
    then file s1 (signal_of signal_arp_spoof ip mac 0 (length changes) ("flapping " <> moved)) false
        now
    else s1

unfoldable pub claim_address : Sentinel → String → String → Time → Sentinel
claim_address s mac ip now = elim (lookup ip s.claims) [
  | none ↦
      let room =
        if leb (max_sources * 2) (length s.claims) then drop_claim s.claims else s.claims in
      record s { claims = insert ip (record { mac = mac; changes = []; seen = now }) room }
  | some cl ↦
      if str_eq cl.mac mac
      then record s { claims = insert ip (record cl { seen = now }) s.claims }
      else move_claim s cl mac ip now
]

abbrev pub ignored_mac : Sentinel → String → Bool
ignored_mac s mac =
    str_eq mac ""
    || str_eq mac s.self.mac
    || str_eq mac "00:00:00:00:00:00"
    || str_eq mac "ff:ff:ff:ff:ff:ff"

unfoldable pub observe_arp : Sentinel → ArpFrame → Time → Sentinel
observe_arp s f now =
    let mac = to_lower f.sender_mac in
    if not s.cfg.enabled || ignored_mac s mac
    then s
    else (let s1 =
          if f.op == 1 && (not (str_eq f.target_ip "") && not (str_eq f.target_ip f.sender_ip))
          then count_request s mac f now
          else s in
        if str_eq f.sender_ip "" || str_eq f.sender_ip "0.0.0.0"
        then s1
        else claim_address s1 mac f.sender_ip now)

unfoldable pub observe_syn : Sentinel → String → String → ℕ → Time → Sentinel
observe_syn s src_mac src port now =
    let s1 =
      if has_port port s.decoys
      then file s (signal_of signal_canary src src_mac port 1 "") true now
      else s in
    let (syn, c) = counter_for s1.syn src now in
    let (c1, n) = count_key c (itoa port) now in
    if leb scan_ports n
    then record_scan (record s1 { syn = insert src (raise c1) syn })
        (signal_of signal_port_scan src src_mac 0 n (detail c1)) now
    else record s1 { syn = insert src c1 syn }

-- The source is an address in dotted form, so `ParseAddr` takes it and the link-local ones are
-- those of 169.254.0.0/16.
unfoldable pub observe_frame : Sentinel → List ℕ → Time → Sentinel
observe_frame s f now = elim (parse_syn f) [
  | none ↦ s
  | some syn ↦
      if not (str_eq syn.dst s.self.ip) || str_eq syn.src s.self.ip || str_eq syn.src ""
      then s
      else if starts_with syn.src "169.254."
      then s
      else observe_syn s syn.src_mac syn.src syn.port now
]

unfoldable pub touch_decoy : Sentinel → String → String → ℕ → Time → Sentinel
touch_decoy s src src_mac port now =
    if str_eq src s.self.ip
    then s
    else file s (signal_of signal_canary src src_mac port 1 "") true now
