-- ===== src/Dnswatch/Totals.antt =====
-- What `Drain` and `Nack` do to the counters.
use excubra.Prelude.{
  ℕ, ◌+◌, ◌≡◌, inl, inr, refl, sym, subst, not, ◌&&◌, Option, none, some, arith, ◌==◌, str_eq,
  Option-cases, Bool-cases,
}
use excubra.Netip.{Netip}
use excubra.Dnswatch.Watch.{DnsReport, Watch}
use excubra.Dnswatch.Forward.{HostPort}
use excubra.Dnswatch.Report.{report_of, drain, nack}

abbrev pub in_flight : (DnsReport → ℕ) → Option DnsReport → ℕ
in_flight f none = 0
in_flight f (some r) = f r

module _ {n : Netip} where
  -- What the server has not got of a counter: what is pending and what is in flight.
  abbrev pub unsent : (DnsReport → ℕ) → Watch n → ℕ
  unsent f w = f w.pending + in_flight f w.inflight

  abbrev pub SameTotals : Watch n → Watch n → Type 0
  SameTotals v w =
      (unsent (λ r. r.queries) v ≡ unsent (λ r. r.queries) w)
      × (unsent (λ r. r.blocked) v ≡ unsent (λ r. r.blocked) w)
      × (unsent (λ r. r.nx_domain) v ≡ unsent (λ r. r.nx_domain) w)
      × (unsent (λ r. r.failed) v ≡ unsent (λ r. r.failed) w)
      × (unsent (λ r. r.refused) v ≡ unsent (λ r. r.refused) w)

  stays : (v w : Watch n) → v ≡ w → SameTotals v w
  stays v w e = subst (λ u. SameTotals u w) (sym e) (refl, refl, refl, refl, refl)

  drain_totals : (hp : HostPort) (w : Watch n) → SameTotals (drain hp w).0 w
  unfolding drain report_of
  drain_totals hp w = elim (Option-cases w.inflight) [
    | inr (r, e) ↦ stays (drain hp w).0 w (simp (e, drain) refl)
    | inl e ↦
        let rep = report_of hp w in
        elim (Bool-cases (
          not w.cfg.enabled
          && rep.queries == 0
          && str_eq rep.listening ""
          && str_eq rep.error "")) [
            | inl quiet ↦ stays (drain hp w).0 w (simp (e, quiet, drain) refl)
            | inr due ↦
                rw (e, due, drain) (omega arith, omega arith, omega arith, omega arith, omega arith)
          ]
  ]

  nack_totals : (w : Watch n) → SameTotals (nack w) w
  unfolding nack
  nack_totals w = elim (Option-cases w.inflight) [
    | inr (r, e) ↦ rw (e, nack) (omega arith, omega arith, omega arith, omega arith, omega arith)
    | inl e ↦ stays (nack w) w (simp (e, nack) refl)
  ]

  -- Neither handing the counters to a heartbeat nor its loss changes what the server has still to
  -- get of the queries, the blocked, the unknown, the failed and the refused ones.
  pub drain-nack_totals :
      (hp : HostPort) (w : Watch n) → SameTotals (drain hp w).0 w × SameTotals (nack w) w
  drain-nack_totals hp w = (drain_totals hp w, nack_totals w)
