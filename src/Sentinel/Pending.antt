-- ===== src/Sentinel/Pending.antt =====
-- sentinel.go: the signals that wait for a heartbeat and those in flight. A signal stands in one of
-- the two maps at a time, so the pointers are the values themselves.
use Prim.Native.String.{◌++◌ as ◌<>◌}
use excubra.Prelude.{
  ◌+◌, String, Bool, true, false, not, ◌&&◌, ◌||◌, none, some, List, [], ◌∷◌, ◌++◌, leb, ltb, ◌==◌,
  if◌then◌else◌, length, str_eq, sort_by,
}
use excubra.GoMap.{Map, lookup, insert, erase}
use excubra.GoTime.{Time, is_zero, after}
use excubra.GoText.{itoa}
use excubra.Wire.{
  Signal, signal_canary, signal_fgt_admin_fail, signal_fgt_vpn_fail, signal_fgt_ips,
  signal_dns_block, signal_dns_dga,
}
use excubra.Sentinel.Types.{Sentinel, max_pending}

unfoldable pub additive : String → Bool
additive kind =
    str_eq kind signal_canary
    || str_eq kind signal_fgt_admin_fail
    || str_eq kind signal_fgt_vpn_fail
    || str_eq kind signal_fgt_ips
    || str_eq kind signal_dns_block

unfoldable pub signal_key : Signal → String
signal_key sg =
    sg.kind
    <> ("|"
        <> (sg.device_id
            <> ("|"
                <> (sg.ip <> ("|" <> (sg.mac <> ("|" <> (itoa sg.port <> ("|" <> sg.detail)))))))))

-- What a signal adds to the one of its key that waits.
unfoldable pub merge : Signal → Signal → Bool → Time → Signal
merge cur sg accumulate now = record cur {
  count = if accumulate then cur.count + sg.count else sg.count;
  detail = if not (str_eq sg.detail "") then sg.detail else cur.detail;
  last_at = if not (is_zero sg.last_at) && after sg.last_at now then sg.last_at else now;
}

unfoldable pub dated : Signal → Time → Signal
dated sg now = record sg {
  first_at = if is_zero sg.first_at then now else sg.first_at;
  last_at = if is_zero sg.last_at then now else sg.last_at;
}

-- The loop that makes room for one more signal.
unfoldable pub evict : Map Signal → List String → Map Signal × List String
evict pending [] = (pending, [])
evict pending (k ∷ ks) = elim (leb max_pending (length pending)) [
  | true ↦ evict (erase k pending) ks
  | false ↦ (pending, k ∷ ks)
]

unfoldable pub file : Sentinel → Signal → Bool → Time → Sentinel
file s sg accumulate now =
    let key = signal_key sg in
    elim (lookup key s.pending) [
      | some cur ↦ record s { pending = insert key (merge cur sg accumulate now) s.pending }
      | none ↦
          let (pending, order) = evict s.pending s.order in
          record s { pending = insert key (dated sg now) pending; order = order ++ (key ∷ []) }
    ]

unfoldable pub redetail : Sentinel → String → String → Sentinel
redetail s key detail = elim (lookup key s.pending) [
  | none ↦ s
  | some cur ↦ record s { pending = insert key (record cur { detail = detail }) s.pending }
]

unfoldable pub record_scan : Sentinel → Signal → Time → Sentinel
record_scan s sg now =
    let bare = record sg { detail = "" } in
    redetail (file s bare false now) (signal_key bare) sg.detail

unfoldable pub record_one : Sentinel → Signal → Time → Sentinel
record_one s sg now =
    if str_eq sg.kind ""
    then s
    else if str_eq sg.kind signal_dns_dga
    then record_scan s sg now
    else file s sg (additive sg.kind) now

unfoldable pub record_all : Sentinel → List Signal → Time → Sentinel
record_all s [] now = s
record_all s (sg ∷ sgs) now = record_all (record_one s sg now) sgs now

-- The loop of `Drain`: the signals handed over, and the map in flight.
unfoldable pub collect : Map Signal → List String → Map Signal → List Signal × Map Signal
collect pending [] inflight = ([], inflight)
collect pending (k ∷ ks) inflight = elim (lookup k pending) [
  | none ↦ collect pending ks inflight
  | some sg ↦ let (out, after) = collect pending ks (insert k sg inflight) in (sg ∷ out, after)
]

unfoldable pub drain : Sentinel → Sentinel × List Signal
drain s =
    if length s.pending == 0 || ltb 0 (length s.inflight)
    then (s, [])
    else let (out, inflight) = collect s.pending s.order s.inflight in
      (record s { pending = []; order = []; inflight = inflight }, out)

unfoldable pub ack : Sentinel → Sentinel
ack s = record s { inflight = [] }

abbrev pub earlier : (String × Signal) → (String × Signal) → Bool
earlier x y = ltb x.1.first_at y.1.first_at

-- A signal that comes back to one of its key that waits.
unfoldable pub rejoin : Signal → Signal → Signal
rejoin cur old = record cur {
  count = if additive old.kind then cur.count + old.count else cur.count;
  first_at = old.first_at;
}

-- The loop of `Nack`: the pending signals and the keys that come back to the head of the order.
unfoldable pub restore : Map Signal → List (String × Signal) → Map Signal × List String
restore pending [] = (pending, [])
restore pending ((k, old) ∷ olds) = elim (lookup k pending) [
  | some cur ↦ restore (insert k (rejoin cur old) pending) olds
  | none ↦ let (after, order) = restore (insert k old pending) olds in (after, k ∷ order)
]

unfoldable pub nack : Sentinel → Sentinel
nack s =
    let (pending, order) = restore s.pending (sort_by earlier s.inflight) in
    record s { pending = pending; order = order ++ s.order; inflight = [] }
