-- ===== src/Scan/Chunks.antt =====
-- scan.go: `Drain`, `Ack` and `Nack`, which hand a round over in chunks.
use excubra.Prelude.{
  ◌+◌, ◌||◌, Option, none, some, [], ◌++◌, ltb, ◌==◌, if◌then◌else◌, length, take, drop,
}
use excubra.Netip.{Netip}
use excubra.Scan.Types.{max_scan_hosts, ScanReport, Scanner}

module _ {n : Netip} where
  unfoldable pub drain : Scanner n → Scanner n × Option ScanReport
  drain s =
      let size =
        if ltb max_scan_hosts (length s.pending) then max_scan_hosts else length s.pending in
      let left = drop size s.pending in
      let final = length left == 0 in
      if length s.pending == 0 || ltb 0 (length s.inflight) then (s, none) else (
        record s { inflight = take size s.pending; pending = left },
        some (record {
          round = s.round;
          started_at = s.started;
          hosts = take size s.pending;
          final = final;
          scanned = if final then s.scanned else 0;
          errors = s.errors;
        }),
      )

  unfoldable pub ack : Scanner n → Scanner n
  ack s = record s { sent = s.sent + length s.inflight; inflight = [] }

  unfoldable pub nack : Scanner n → Scanner n
  nack s =
      if ltb 0 (length s.inflight)
      then record s { pending = s.inflight ++ s.pending; inflight = [] }
      else s
