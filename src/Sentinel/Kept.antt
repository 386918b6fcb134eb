-- ===== src/Sentinel/Kept.antt =====
-- What the sensors and the signals of other sensors leave in order.
use excubra.Prelude.{
  ℕ, ◌≡◌, refl, inl, inr, String, Bool, true, false, not, ◌&&◌, ◌||◌, List, [], ◌∷◌, ◌++◌, leb,
  ◌==◌, str_eq, length, select, pos, ltb_ℤ, if◌then◌else◌, Bool-cases, Option-cases, All,
}
use excubra.GoMap.{lookup, Unique}
use text.Mathlib.Text.{starts_with}
use excubra.GoTime.{Time, time_sub}
use excubra.GoText.{itoa, to_lower}
use excubra.Wire.{Signal, signal_dns_dga, signal_canary}
use excubra.Sentinel.Types.{Sentinel, Claim, flap_window, flap_changes, scan_ports, arp_scan_hosts}
use excubra.Sentinel.Config.{has_port}
use excubra.Sentinel.Pending.{
  additive, file, redetail, record_scan, record_one, record_all, nack, signal_key,
}
use excubra.Sentinel.Frames.{parse_syn}
use excubra.Sentinel.Observe.{
  ArpFrame, count_request, move_claim, claim_address, observe_arp, observe_syn, observe_frame,
  touch_decoy, signal_of, ignored_mac,
}
use excubra.Sentinel.Counters.{count_key, counter_for}
use excubra.Sentinel.Kinds.{IsKnown, Kinds, file-Kinds, redetail-Kinds}
use excubra.Sentinel.Tidy.{Tidy, file_bounded, redetail-Tidy}

-- What is kept: the order lists the pending keys once each, no key is in flight twice, and the signals have the sentinel's own kinds or
-- one of the others.
pub record Kept (others : List String) (s : Sentinel) : Type 0 where
  pub tidy : Tidy s
  pub kinds : Kinds others s
  pub unique : Unique s.inflight

-- A sentinel that differs elsewhere.
pub same_batch :
    {others : List String} (s s' : Sentinel)
    → s'.pending ≡ s.pending
    → s'.order ≡ s.order
    → s'.inflight ≡ s.inflight
    → Kept others s
    → Kept others s'
same_batch s s' p o f k = record {
  tidy = record { once = rw o k.tidy.once; agrees = λ j. rw (o, p) (k.tidy.agrees j) };
  kinds = record { waiting = rw p k.kinds.waiting; flying = rw f k.kinds.flying };
  unique = rw f k.unique;
}

file-inflight :
    (s : Sentinel) (sg : Signal) (accumulate : Bool) (now : Time)
    → (file s sg accumulate now).inflight ≡ s.inflight
unfolding file
file-inflight s sg accumulate now = elim (Option-cases (lookup (signal_key sg) s.pending)) [
  | inl e ↦ rw (e, file)
  | inr (cur, e) ↦ rw (e, file)
]

file-Kept :
    {others : List String} (s : Sentinel) (sg : Signal) (accumulate : Bool) (now : Time)
    → IsKnown others sg
    → Kept others s
    → Kept others (file s sg accumulate now)
file-Kept {others} s sg accumulate now is k = record {
  kinds = file-Kinds others s sg accumulate now is k.kinds;
  tidy = (file_bounded s sg accumulate now k.tidy).0;
  unique = rw (file-inflight s sg accumulate now) k.unique;
}

redetail-inflight :
    (s : Sentinel) (key detail : String) → (redetail s key detail).inflight ≡ s.inflight
unfolding redetail
redetail-inflight s key detail = elim (Option-cases (lookup key s.pending)) [
  | inl e ↦ rw (e, redetail)
  | inr (cur, e) ↦ rw (e, redetail)
]

record_scan-Kept :
    {others : List String} (s : Sentinel) (sg : Signal) (now : Time)
    → IsKnown others sg
    → Kept others s
    → Kept others (record_scan s sg now)
unfolding record_scan
record_scan-Kept {others} s sg now is k =
    let bare = record sg { detail = "" } in
    let filed = file-Kept s bare false now is k in
    record {
      kinds = redetail-Kinds others (file s bare false now) (signal_key bare) sg.detail filed.kinds;
      tidy = redetail-Tidy (file s bare false now) (signal_key bare) sg.detail filed.tidy;
      unique =
          rw (redetail-inflight (file s bare false now) (signal_key bare) sg.detail) filed.unique;
    }

record_one-Kept :
    {others : List String} (s : Sentinel) (sg : Signal) (now : Time)
    → IsKnown others sg
    → Kept others s
    → Kept others (record_one s sg now)
unfolding record_one
record_one-Kept s sg now is k = elim (Bool-cases (str_eq sg.kind "")) [
  | inl e ↦ rw (e, record_one) k
  | inr e ↦ elim (Bool-cases (str_eq sg.kind signal_dns_dga)) [
    | inl d ↦ rw (e, d, record_one) (record_scan-Kept s sg now is k)
    | inr d ↦ rw (e, d, record_one) (file-Kept s sg (additive sg.kind) now is k)
  ]
]

pub record_all-Kept :
    {others : List String} (s : Sentinel) (sgs : List Signal) (now : Time)
    → All (IsKnown others) sgs
    → Kept others s
    → Kept others (record_all s sgs now)
unfolding record_all
record_all-Kept s [] now a k = k
record_all-Kept s (sg ∷ sgs) now a k =
    record_all-Kept (record_one s sg now) sgs now a.1 (record_one-Kept s sg now a.0 k)

count_request-Kept :
    {others : List String} (s : Sentinel) (mac : String) (f : ArpFrame) (now : Time)
    → Kept others s
    → Kept others (count_request s mac f now)
unfolding count_request
count_request-Kept s mac f now k =
    let counted = count_key (counter_for s.arp mac now).1 f.target_ip now in
    elim (Bool-cases (leb arp_scan_hosts counted.1)) [
      | inl e ↦
          rw (e, count_request) (file-Kept _ _ false now refl (same_batch s _ refl refl refl k))
      | inr e ↦ rw (e, count_request) (same_batch s _ refl refl refl k)
    ]

recent : Claim → Time → List Time
recent cl now =
    select (λ t. not (ltb_ℤ (pos flap_window) (time_sub now t))) cl.changes ++ (now ∷ [])

move_claim-Kept :
    {others : List String} (s : Sentinel) (cl : Claim) (mac ip : String) (now : Time)
    → Kept others s
    → Kept others (move_claim s cl mac ip now)
unfolding move_claim recent
move_claim-Kept s cl mac ip now k = elim (Bool-cases (str_eq ip s.self.gateway)) [
  | inl e ↦ rw (e, move_claim) (file-Kept _ _ false now refl (same_batch s _ refl refl refl k))
  | inr e ↦ elim (Bool-cases (leb flap_changes (length (recent cl now)))) [
    | inl d ↦ rw (e, d, move_claim) (file-Kept _ _ false now refl (same_batch s _ refl refl refl k))
    | inr d ↦ rw (e, d, move_claim) (same_batch s _ refl refl refl k)
  ]
]

claim_address-Kept :
    {others : List String} (s : Sentinel) (mac ip : String) (now : Time)
    → Kept others s
    → Kept others (claim_address s mac ip now)
unfolding claim_address
claim_address-Kept s mac ip now k = elim (Option-cases (lookup ip s.claims)) [
  | inl e ↦ rw (e, claim_address) (same_batch s _ refl refl refl k)
  | inr (cl, e) ↦ elim (Bool-cases (str_eq cl.mac mac)) [
    | inl d ↦ rw (e, d, claim_address) (same_batch s _ refl refl refl k)
    | inr d ↦ rw (e, d, claim_address) (move_claim-Kept s cl mac ip now k)
  ]
]

-- Both branches of a test.
either :
    {others : List String} (b : Bool) (s s' : Sentinel)
    → Kept others s
    → Kept others s'
    → Kept others (if b then s else s')
either true s s' k k' = k
either false s s' k k' = k'

requested : Sentinel → ArpFrame → Time → Sentinel
requested s f now =
    if f.op == 1 && (not (str_eq f.target_ip "") && not (str_eq f.target_ip f.sender_ip))
    then count_request s (to_lower f.sender_mac) f now
    else s

requested-Kept :
    {others : List String} (s : Sentinel) (f : ArpFrame) (now : Time)
    → Kept others s
    → Kept others (requested s f now)
unfolding requested
requested-Kept s f now k =
    either (f.op == 1 && (not (str_eq f.target_ip "") && not (str_eq f.target_ip f.sender_ip)))
      (count_request s (to_lower f.sender_mac) f now) s
      (count_request-Kept s (to_lower f.sender_mac) f now k) k

pub observe_arp-Kept :
    {others : List String} (s : Sentinel) (f : ArpFrame) (now : Time)
    → Kept others s
    → Kept others (observe_arp s f now)
unfolding observe_arp requested
observe_arp-Kept s f now k =
    let counted = requested-Kept s f now k in
    let mac = to_lower f.sender_mac in
    either (not s.cfg.enabled || ignored_mac s mac) s
      (if str_eq f.sender_ip "" || str_eq f.sender_ip "0.0.0.0"
        then requested s f now
        else claim_address (requested s f now) mac f.sender_ip now)
      k
      (either (str_eq f.sender_ip "" || str_eq f.sender_ip "0.0.0.0") (requested s f now)
        (claim_address (requested s f now) mac f.sender_ip now) counted
        (claim_address-Kept (requested s f now) mac f.sender_ip now counted))

knocked : Sentinel → String → String → ℕ → Time → Sentinel
knocked s mac src port now =
    if has_port port s.decoys
    then file s (signal_of signal_canary src mac port 1 "") true now
    else s

knocked-Kept :
    {others : List String} (s : Sentinel) (mac src : String) (port : ℕ) (now : Time)
    → Kept others s
    → Kept others (knocked s mac src port now)
unfolding knocked
knocked-Kept s mac src port now k =
    either (has_port port s.decoys) (file s (signal_of signal_canary src mac port 1 "") true now) s
      (file-Kept s (signal_of signal_canary src mac port 1 "") true now refl k) k

observe_syn-Kept :
    {others : List String} (s : Sentinel) (mac src : String) (port : ℕ) (now : Time)
    → Kept others s
    → Kept others (observe_syn s mac src port now)
unfolding observe_syn knocked
observe_syn-Kept s mac src port now k =
    let s1 = knocked s mac src port now in
    let k1 = knocked-Kept s mac src port now k in
    let counted = count_key (counter_for s1.syn src now).1 (itoa port) now in
    elim (Bool-cases (leb scan_ports counted.1)) [
      | inl e ↦
          rw (e, observe_syn) (record_scan-Kept _ _ now refl (same_batch s1 _ refl refl refl k1))
      | inr e ↦ rw (e, observe_syn) (same_batch s1 _ refl refl refl k1)
    ]

pub observe_frame-Kept :
    {others : List String} (s : Sentinel) (f : List ℕ) (now : Time)
    → Kept others s
    → Kept others (observe_frame s f now)
unfolding observe_frame
observe_frame-Kept s f now k = elim (Option-cases (parse_syn f)) [
  | inl e ↦ rw (e, observe_frame) k
  | inr (syn, e) ↦
      let seen = observe_syn s syn.src_mac syn.src syn.port now in
      rw (e, observe_frame)
        (either (not (str_eq syn.dst s.self.ip) || str_eq syn.src s.self.ip || str_eq syn.src "") s
          (if starts_with syn.src "169.254." then s else seen) k
          (either (starts_with syn.src "169.254.") s seen k
            (observe_syn-Kept s syn.src_mac syn.src syn.port now k)))
]

pub touch_decoy-Kept :
    {others : List String} (s : Sentinel) (src mac : String) (port : ℕ) (now : Time)
    → Kept others s
    → Kept others (touch_decoy s src mac port now)
unfolding touch_decoy
touch_decoy-Kept s src mac port now k = elim (Bool-cases (str_eq src s.self.ip)) [
  | inl e ↦ rw (e, touch_decoy) k
  | inr e ↦ rw (e, touch_decoy) (file-Kept s _ true now refl k)
]

pub nack-empties : (s : Sentinel) → (nack s).inflight ≡ []
unfolding nack
nack-empties s = refl
