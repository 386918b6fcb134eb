-- ===== src/Agent/Lost.antt =====
-- A heartbeat that the server does not take.
use excubra.Prelude.{
  ◌≤◌, ◌≡◌, ◌≢◌, ◌⊎◌, inl, inr, refl, sym, ◌∙◌, String, List, [], ◌++◌, arith, ltb, if◌then◌else◌,
  length, append_nil, length_zero, ◌==◌, Bool-cases,
}
use excubra.GoMap.{lookup, Unique}
use excubra.GoTime.{Time}
use excubra.Wire.{Round}
use excubra.Netip.{Netip}
use excubra.Agent.Rounds.{rounds_of, max_rounds_per_host}
use excubra.Agent.Tasks.{Memory, take_task_results, put_task_results}
use excubra.Agent.Heartbeat.{
  Agent, Heartbeat, Answer, taken, upgrade_required, revoked, failed, Surroundings, add_rounds,
  collect, give_back, heartbeat,
}
use excubra.Agent.Buffer.{put_rounds-take}
use excubra.Discovery.Keys.{unreported, drain-waits, nack-waits}
use excubra.Discovery.Table.{annotate, drain}
use excubra.Dnswatch.Watch.{Watch}
use excubra.Dnswatch.Report
use excubra.Sentinel.Tidy.{Tidy}
use excubra.Sentinel.Delivery.{nack-drain}
use excubra.Scan.Delivery.{nack-drain_pending}
use excubra.Dnswatch.Totals.{SameTotals, drain-nack_totals}

-- Nothing of the parts is in flight, as between two heartbeats, and the tables are in order.
pub record AtRest (n : Netip) (a : Agent n) : Type 0 where
  pub unique : Unique a.buffer.rounds
  pub scan : a.scan.inflight ≡ []
  pub sent : a.sent.inflight ≡ []
  pub tidy : Tidy a.sent

Answer-cases :
    (x : Answer)
    → ((version : String) × (x ≡ taken version))
      ⊎ ((x ≡ upgrade_required) ⊎ ((x ≡ revoked) ⊎ (x ≡ failed)))
Answer-cases (taken version) = inl (version, refl)
Answer-cases upgrade_required = inr (inl refl)
Answer-cases revoked = inr (inr (inl refl))
Answer-cases failed = inr (inr (inr refl))

notes_back : (notes : List String) → (if ltb 0 (length notes) then notes ++ [] else []) ≡ notes
notes_back notes = elim (Bool-cases (ltb 0 (length notes))) [
  | inl some_said ↦ rw some_said (append_nil notes)
  | inr none_said ↦ rw none_said (sym (length_zero notes (ground arith)))
]

results_back :
    (m : Memory)
    → (put_task_results (take_task_results m).1 (take_task_results m).0).results ≡ m.results
unfolding put_task_results take_task_results
results_back m = elim (Bool-cases (length m.results == 0)) [
  | inl none_there ↦ rw none_there (sym (length_zero m.results (ground arith)))
  | inr some_there ↦ rw some_there (append_nil m.results)
]

module _ {n : Netip} where
  -- The same is left to be reported, but for the rounds that came in.
  abbrev pub KeepsAll : Agent n → Agent n → List (String × Round) → String → Type 0
  KeepsAll a after meanwhile k =
      (rounds_of k after.buffer.rounds ≡ rounds_of k (add_rounds a.buffer meanwhile).rounds)
      × (after.notes ≡ a.notes)
      × (after.tasks.results ≡ a.tasks.results)
      × (unreported after.disc k ≡ unreported a.disc k)
      × (after.scan.pending ≡ a.scan.pending)
      × (lookup k after.sent.pending ≡ lookup k a.sent.pending)
      × SameTotals after.dns a.dns
      × (after.disk ≡ a.disk)

  totals_through : (u v w : Watch n) → SameTotals u v → SameTotals v w → SameTotals u w
  totals_through u v w s t = (s.0 ∙ t.0, s.1 ∙ t.1, s.2 ∙ t.2, s.3 ∙ t.3, s.4 ∙ t.4)

  give_back-KeepsAll :
      (o : Surroundings) (a : Agent n) (meanwhile : List (String × Round)) (k : String)
      → AtRest n a
      → length (rounds_of k a.buffer.rounds) ≤ max_rounds_per_host
      → let (hb, sending) = collect o a in
        KeepsAll a
          (give_back (record sending { buffer = add_rounds sending.buffer meanwhile }) hb)
          meanwhile
          k
  unfolding collect give_back take_task_results put_task_results annotate
  give_back-KeepsAll o a meanwhile k rest few = (
    put_rounds-take a.buffer meanwhile k rest.unique few,
    notes_back a.notes,
    results_back a.tasks,
    nack-waits (drain (annotate o.vendor_of o.name_of a.disc)).0 k
        ∙ drain-waits (annotate o.vendor_of o.name_of a.disc) k,
    nack-drain_pending a.scan rest.scan,
    nack-drain a.sent k rest.tidy rest.sent,
    totals_through (Report.nack (Report.drain o.hp a.dns).0) (Report.drain o.hp a.dns).0 a.dns
        (drain-nack_totals o.hp (Report.drain o.hp a.dns).0).1 (drain-nack_totals o.hp a.dns).0,
    refl,
  )

  -- A heartbeat that the server does not take loses nothing, whatever the error: the notes, the results of tasks, the chunk of
  -- the scan, the devices and the signals wait as before, the counters of the DNS sensor are all still to be sent, and the rounds of a host are those it would have if
  -- no heartbeat had been tried, with those that came in meanwhile. An update that waits for its confirmation is not confirmed. Nothing
  -- is in flight at first, and the host has ten rounds at most.
  pub lost_heartbeat_keeps :
      (o : Surroundings) (server : Heartbeat → Answer) (a : Agent n)
      (meanwhile : List (String × Round)) (now : Time) (k : String)
      → AtRest n a
      → length (rounds_of k a.buffer.rounds) ≤ max_rounds_per_host
      → ((version : String) → server (collect o a).0 ≢ taken version)
      → KeepsAll a (heartbeat o server a meanwhile now).0 meanwhile k
  unfolding heartbeat
  lost_heartbeat_keeps o server a meanwhile now k rest few lost =
      let back = give_back-KeepsAll o a meanwhile k rest few in
      let (hb, sending) = collect o a in
      elim (Answer-cases (server hb)) [
        | inl (version, e) ↦ absurd (lost version e)
        | inr (inl e) ↦ rw (e, heartbeat) back
        | inr (inr (inl e)) ↦ rw (e, heartbeat) back
        | inr (inr (inr e)) ↦ rw (e, heartbeat) back
      ]
