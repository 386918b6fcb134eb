-- ===== src/State/Invariant.antt =====
-- Every operation of the machine keeps it well formed, and a well-formed machine never panics.
use excubra.Prelude.{
  ◌≡◌, refl, subst, inl, inr, String, false, some, List, [], ◌∷◌, str_eq, add, Bool-cases,
  Option-cases,
}
use excubra.GoMap.{lookup, Entries-lookup}
use excubra.GoTime.{Time}
use excubra.Wire.{Round, HostReport}
use excubra.State.Types.{Box, Host, HostState, Machine, up, down, is_unset}
use excubra.State.Topology.{bind_box}
use excubra.State.Round.{round_host, apply_round, apply_rounds}
use excubra.State.Reconcile.{
  store_host, reconcile, reconcile_id, reconcile_all, box_hosts, reconcile_box,
}
use excubra.State.Settle.{Leaves, reconcile-Leaves, is_open, reported_host, next_report}
use excubra.State.Inputs.{apply_report, apply_reports, reconcile_touched}
use excubra.State.Wellformed.{WellFormed, IsStored, BoxEntry, HostEntry}
use excubra.State.Preserve.{store_box, write_host, reset_hosts-WellFormed, round_host-HostEntry}

pub host_entry :
    {m : Machine}
    → WellFormed m
    → (k : String) {h : Host} → lookup k m.hosts ≡ some h
    → HostEntry k h
host_entry {m} v k {h} e = Entries-lookup HostEntry k m.hosts h v.hosts_entries e

pub box_entry :
    {m : Machine} → WellFormed m → (k : String) {b : Box} → lookup k m.boxes ≡ some b → BoxEntry k b
box_entry {m} v k {b} e = Entries-lookup BoxEntry k m.boxes b v.boxes_entries e

pub bind_box-WellFormed :
    (m : Machine) (box_id tenant_id site_id : String)
    → WellFormed m
    → WellFormed (bind_box m box_id tenant_id site_id)
unfolding bind_box
bind_box-WellFormed m box_id tenant_id site_id v = elim (Option-cases (lookup box_id m.boxes)) [
  | inl e ↦ rw (e, bind_box) v
  | inr (b, e) ↦
      let (id, ready) = box_entry v box_id e in
      let b' = record b { tenant_id = tenant_id; site_id = site_id } in
      rw (e, bind_box)
        (reset_hosts-WellFormed _
          (store_box m v box_id b' (add box_id m.dirty_boxes)
            (id, record { interval_pos = ready.interval_pos; has_status = ready.has_status }))
          box_id)
]

apply_rounds-WellFormed :
    (m : Machine) (h : Host) (rs : List Round) (at : Time)
    → WellFormed m
    → HostEntry h.id h
    → WellFormed (apply_rounds m h rs at)
unfolding apply_rounds
apply_rounds-WellFormed m h [] at v e = v
apply_rounds-WellFormed m h (r ∷ rs) at v e =
    let stored = round_host-HostEntry h.id h r at e in
    apply_rounds-WellFormed (apply_round m h r at) (round_host h r at) rs at
      (write_host m v h.id (round_host h r at) (add h.id m.dirty_hosts) stored) (refl, stored.1)

pub apply_report-WellFormed :
    (m : Machine) (box_id : String) (rep : HostReport) (at : Time)
    → WellFormed m
    → WellFormed (apply_report m box_id rep at)
unfolding apply_report
apply_report-WellFormed m box_id rep at v = elim (Option-cases (lookup rep.host_id m.hosts)) [
  | inl e ↦ rw (e, apply_report) v
  | inr (h, e) ↦ elim (Bool-cases (str_eq h.box_id box_id)) [
    | inr other ↦ rw (e, apply_report) (rw other v)
    | inl mine ↦
        rw (e, apply_report)
          (rw mine
            (apply_rounds-WellFormed m h rep.rounds at v (refl, (host_entry v rep.host_id e).1)))
  ]
]

pub apply_reports-WellFormed :
    (m : Machine) (box_id : String) (reps : List HostReport) (at : Time)
    → WellFormed m
    → WellFormed (apply_reports m box_id reps at)
unfolding apply_reports
apply_reports-WellFormed m box_id [] at v = v
apply_reports-WellFormed m box_id (rep ∷ reps) at v =
    apply_reports-WellFormed (apply_report m box_id rep at) box_id reps at
      (apply_report-WellFormed m box_id rep at v)

next_report_set : (o r : HostState) → is_unset r ≡ false → is_unset (next_report o r) ≡ false
unfolding next_report
next_report_set up r e = refl
next_report_set down r e = refl
next_report_set _ r e = e

reported_host-IsStored :
    (m : Machine) (b : Box) (h : Host) → IsStored h → IsStored (reported_host m b h)
unfolding reported_host
reported_host-IsStored m b h s = elim (Bool-cases (is_open m b h)) [
  | inl e ↦ rw e (record {
    observed_set = s.observed_set;
    reported_set = next_report_set h.observed h.reported s.reported_set;
  })
  | inr e ↦ rw e s
]

Leaves-WellFormed :
    (m m' : Machine) (b : Box) (h : Host)
    → WellFormed m
    → HostEntry h.id h
    → Leaves m b h m'
    → WellFormed m'
unfolding store_host
Leaves-WellFormed m m' b h v e (inl (same, k)) = rw same v
Leaves-WellFormed m m' b h v e (inr (r, stored, k)) = rw stored (
    write_host m v h.id (record h { reported = r }) (add h.id m.dirty_hosts)
      (refl, subst IsStored k (reported_host-IsStored m b h e.1)))

reconcile_id-WellFormed :
    (m : Machine) (b : Box) (id : String) (at : Time)
    → WellFormed m
    → WellFormed (reconcile_id m b id at).0
unfolding reconcile_id
reconcile_id-WellFormed m b id at v = elim (Option-cases (lookup id m.hosts)) [
  | inl e ↦ rw (e, reconcile_id) v
  | inr (h, e) ↦
      rw (e, reconcile_id)
        (Leaves-WellFormed m (reconcile m b h at).0 b h v (refl, (host_entry v id e).1)
          (reconcile-Leaves m b h at))
]

reconcile_all-WellFormed :
    (m : Machine) (b : Box) (ids : List String) (at : Time)
    → WellFormed m
    → WellFormed (reconcile_all m b ids at).0
unfolding reconcile_all
reconcile_all-WellFormed m b [] at v = v
reconcile_all-WellFormed m b (id ∷ ids) at v =
    reconcile_all-WellFormed (reconcile_id m b id at).0 b ids at
      (reconcile_id-WellFormed m b id at v)

pub reconcile_box-WellFormed :
    (m : Machine) (box_id : String) (at : Time)
    → WellFormed m
    → WellFormed (reconcile_box m box_id at).0
unfolding reconcile_box
reconcile_box-WellFormed m box_id at v = elim (Option-cases (lookup box_id m.boxes)) [
  | inl e ↦ rw (e, reconcile_box) v
  | inr (b, e) ↦ rw (e, reconcile_box) (reconcile_all-WellFormed m b (box_hosts m box_id) at v)
]

pub reconcile_touched-WellFormed :
    (m : Machine) (ids : List String) (at : Time)
    → WellFormed m
    → WellFormed (reconcile_touched m ids at).0
unfolding reconcile_touched
reconcile_touched-WellFormed m [] at v = v
reconcile_touched-WellFormed m (id ∷ ids) at v =
    reconcile_touched-WellFormed (reconcile_box m id at).0 ids at
      (reconcile_box-WellFormed m id at v)
