-- ===== src/Scan/Delivery.antt =====
-- What the heartbeats carry of a round.
use excubra.Prelude.{
  ℕ, suc, ◌+◌, ◌-◌, ◌*◌, ◌≤◌, ◌≡◌, inl, inr, refl, ap, ◌∙◌, Bool, true, false, Option, none, some,
  List, [], ◌∷◌, ◌++◌, arith, ltb, ◌==◌, if◌then◌else◌, length, take, drop, length_zero,
  length-append, length-drop, append_assoc, take_all, drop_all, take-drop, Bool-cases,
}
use excubra.Netip.{Netip}
use excubra.Scan.Types.{max_scan_hosts, ScanHost, ScanReport, Scanner}
use excubra.Scan.Chunks.{drain, ack, nack}
use excubra.Scan.Round.{busy}

abbrev pub hosts_in : Option ScanReport → List ScanHost
hosts_in none = []
hosts_in (some r) = r.hosts

module _ {n : Netip} where
  -- A heartbeat that the server gets or does not get: the hosts that it got, and the scanner.
  abbrev pub beat : Scanner n → Bool → List ScanHost × Scanner n
  beat s arrived =
      let (s1, report) = drain s in if arrived then (hosts_in report, ack s1) else ([], nack s1)

  -- The hosts that the server gets in a sequence of heartbeats.
  unfoldable pub deliver : Scanner n → List Bool → List ScanHost × Scanner n
  deliver s [] = ([], s)
  deliver s (b ∷ bs) =
      let (got, s1) = beat s b in let (rest, s2) = deliver s1 bs in (got ++ rest, s2)

  drain_lem :
      (s : Scanner n)
      → s.inflight ≡ []
      → ((drain s).0.inflight ≡ take max_scan_hosts s.pending)
        × ((drain s).0.pending ≡ drop max_scan_hosts s.pending)
        × (hosts_in (drain s).1 ≡ take max_scan_hosts s.pending)
        × ((drain s).0.sent ≡ s.sent)
        × ((drain s).0.running ≡ s.running)
  unfolding drain
  drain_lem s idle = elim (Bool-cases (length s.pending == 0)) [
    | inl none_waits ↦
        let empty : s.pending ≡ [] = length_zero s.pending (ground arith) in
        rw (none_waits, drain) (rw (empty, idle) (refl, refl, refl, refl, refl))
    | inr some_wait ↦ elim (Bool-cases (ltb max_scan_hosts (length s.pending))) [
      | inl more ↦ rw (some_wait, idle, more, drain) (refl, refl, refl, refl, refl)
      | inr few ↦
          let le : length s.pending ≤ max_scan_hosts = ground arith in
          rw
            (
              some_wait,
              idle,
              few,
              take_all max_scan_hosts s.pending le,
              drop_all max_scan_hosts s.pending le,
              drain,
            )
            (
              take_all (length s.pending) s.pending (omega arith),
              drop_all (length s.pending) s.pending (omega arith),
              take_all (length s.pending) s.pending (omega arith),
              refl,
              refl,
            )
    ]
  ]

  nack_lem :
      (s : Scanner n)
      → ((nack s).pending ≡ s.inflight ++ s.pending)
        × ((nack s).inflight ≡ [])
        × ((nack s).sent ≡ s.sent)
        × ((nack s).running ≡ s.running)
  unfolding nack
  nack_lem s = elim (Bool-cases (ltb 0 (length s.inflight))) [
    | inl some_fly ↦ rw (some_fly, nack) (refl, refl, refl, refl)
    | inr none_flies ↦
        let idle : s.inflight ≡ [] = length_zero s.inflight (ground arith) in
        rw (none_flies, nack) (rw idle refl, idle, refl, refl)
  ]

  -- A chunk that the server did not get is back in its place.
  pub nack-drain_pending :
      (s : Scanner n) → s.inflight ≡ [] → (nack (drain s).0).pending ≡ s.pending
  nack-drain_pending s idle =
      let (f, p, h, sent, run) = drain_lem s idle in
      (nack_lem (drain s).0).0 ∙ rw (f, p) (take-drop max_scan_hosts s.pending)

  -- One heartbeat with nothing in flight.
  beat_lem :
      (s : Scanner n) (b : Bool)
      → s.inflight ≡ []
      → ((beat s b).0 ≡ (if b then take max_scan_hosts s.pending else []))
        × ((beat s b).1.pending ≡ (if b then drop max_scan_hosts s.pending else s.pending))
        × ((beat s b).1.inflight ≡ [])
        × ((beat s b).1.sent ≡ s.sent + length (beat s b).0)
        × ((beat s b).1.running ≡ s.running)
  unfolding ack
  beat_lem s true idle =
      let (f, p, h, sent, run) = drain_lem s idle in (h, p, refl, rw (sent, f, h) refl, run)
  beat_lem s false idle =
      let (f, p, h, sent, run) = drain_lem s idle in
      let (np, nf, ns, nr) = nack_lem (drain s).0 in
      (
        refl,
        np ∙ rw (f, p) (take-drop max_scan_hosts s.pending),
        nf,
        ns ∙ sent ∙ omega arith,
        nr ∙ run,
      )

-- The heartbeats that arrive.
abbrev pub arrivals : List Bool → ℕ
arrivals [] = 0
arrivals (b ∷ bs) = if b then suc (arrivals bs) else arrivals bs

-- What one heartbeat takes of a number of hosts, and what the later ones take.
left_step :
    (b : Bool) (hosts later : ℕ)
    → hosts - (if b then max_scan_hosts else 0) - max_scan_hosts * later
      ≡ hosts - max_scan_hosts * (if b then suc later else later)
left_step true hosts later = omega arith
left_step false hosts later = omega arith

free_step :
    (b : Bool) (hosts later : ℕ)
    → ltb (max_scan_hosts * later) (hosts - (if b then max_scan_hosts else 0))
      ≡ ltb (max_scan_hosts * (if b then suc later else later)) hosts
free_step true hosts later = ground arith
free_step false hosts later = ground arith

module _ {n : Netip} where
  -- A heartbeat loses no host, and takes fifty if it arrives.
  beat_parts :
      (s : Scanner n) (b : Bool)
      → s.inflight ≡ []
      → ((beat s b).0 ++ (beat s b).1.pending ≡ s.pending)
        × (length (beat s b).1.pending ≡ length s.pending - (if b then max_scan_hosts else 0))
  beat_parts s true idle =
      let (h, p, f, sent, run) = beat_lem s true idle in
      (
        rw (h, p) (take-drop max_scan_hosts s.pending),
        ap length p ∙ length-drop max_scan_hosts s.pending,
      )
  beat_parts s false idle =
      let (h, p, f, sent, run) = beat_lem s false idle in (rw p refl, ap length p ∙ omega arith)

  -- Whichever heartbeats are lost, what the server gets of a round and what still waits is the round:
  -- each host once, in order. Every heartbeat that arrives takes up to fifty of the hosts, so a round ends, and the
  -- scanner is free for the next one, exactly when enough of them have arrived. No condition but that nothing is in flight and no round
  -- runs at the start.
  pub deliver_lem :
      (s : Scanner n) (bs : List Bool)
      → s.inflight ≡ []
      → s.running ≡ false
      → ((deliver s bs).0 ++ (deliver s bs).1.pending ≡ s.pending)
        × (length (deliver s bs).1.pending ≡ length s.pending - max_scan_hosts * arrivals bs)
        × ((deliver s bs).1.sent ≡ s.sent + length (deliver s bs).0)
        × (busy n (deliver s bs).1 ≡ ltb (max_scan_hosts * arrivals bs) (length s.pending))
  unfolding deliver busy
  deliver_lem s [] idle rest = (refl, omega arith, omega arith, rw (idle, rest) (ground arith))
  deliver_lem s (b ∷ bs) idle rest =
      let (h, p, f, sent, run) = beat_lem s b idle in
      let (all, left, count, free) = deliver_lem (beat s b).1 bs f (run ∙ rest) in
      let got : List ScanHost = (beat s b).0 in
      let later : List ScanHost = (deliver (beat s b).1 bs).0 in
      let waits : List ScanHost = (deliver (beat s b).1 bs).1.pending in
      let (whole, size) = beat_parts s b idle in
      (
        append_assoc got later waits ∙ ap (λ l. got ++ l) all ∙ whole,
        left
            ∙ ap (λ k. k - max_scan_hosts * arrivals bs) size
            ∙ left_step b (length s.pending) (arrivals bs),
        omega (arith, count, sent, length-append got later),
        free
            ∙ ap (λ k. ltb (max_scan_hosts * arrivals bs) k) size
            ∙ free_step b (length s.pending) (arrivals bs),
      )
