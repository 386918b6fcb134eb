-- ===== src/State/Isolation.antt =====
-- What a heartbeat and a sweep leave alone.
use excubra.Prelude.{
  ◌≡◌, refl, sym, ap, ◌∙◌, inl, inr, String, true, false, some, List, [], ◌∷◌, arith, eq_iff,
  str_eq, eq_refl, Bool-cases, Option-cases,
}
use excubra.GoMap.{lookup, lookup-insert}
use excubra.GoTime.{Time}
use excubra.Wire.{Round, HostReport}
use excubra.State.Types.{Box, Host, Machine}
use excubra.State.Round.{round_host, apply_round, apply_rounds}
use excubra.State.Reconcile.{
  store_host, reconcile, reconcile_id, reconcile_all, box_hosts, reconcile_box,
}
use excubra.State.Settle.{Leaves, reconcile-Leaves}
use excubra.State.Inputs.{
  wake, store_beat, apply_report, apply_reports, heartbeat, reconcile_touched,
}
use excubra.State.Wellformed.{WellFormed}
use excubra.State.Invariant.{host_entry, apply_report-WellFormed, apply_reports-WellFormed}
use excubra.State.Agreement.{reconcile_box_sweep}
use excubra.State.Totality.{store_beat-WellFormed}

-- The boxes and the windows of a machine are those of another.
abbrev pub SameFrame : Machine → Machine → Type 0
SameFrame m m' = (m'.boxes ≡ m.boxes) × (m'.maint ≡ m.maint)

Leaves-frame : (m m' : Machine) (b : Box) (h : Host) → Leaves m b h m' → SameFrame m m'
unfolding store_host
Leaves-frame m m' b h (inl (e, k)) =
    (ap (λ (x : Machine). x.boxes) e, ap (λ (x : Machine). x.maint) e)
Leaves-frame m m' b h (inr (r, e, k)) =
    (ap (λ (x : Machine). x.boxes) e, ap (λ (x : Machine). x.maint) e)

reconcile_id_frame :
    (m : Machine) (b : Box) (id : String) (at : Time) → SameFrame m (reconcile_id m b id at).0
unfolding reconcile_id
reconcile_id_frame m b id at = elim (Option-cases (lookup id m.hosts)) [
  | inl e ↦ rw (e, reconcile_id) (refl, refl)
  | inr (h, e) ↦
      rw (e, reconcile_id) (Leaves-frame m (reconcile m b h at).0 b h (reconcile-Leaves m b h at))
]

reconcile_all_frame :
    (m : Machine) (b : Box) (ids : List String) (at : Time)
    → SameFrame m (reconcile_all m b ids at).0
unfolding reconcile_all
reconcile_all_frame m b [] at = (refl, refl)
reconcile_all_frame m b (id ∷ ids) at =
    let (e, f) = reconcile_id_frame m b id at in
    let (g, h) = reconcile_all_frame (reconcile_id m b id at).0 b ids at in (g ∙ e, h ∙ f)

pub reconcile_box_frame :
    (m : Machine) (box_id : String) (at : Time) → SameFrame m (reconcile_box m box_id at).0
unfolding reconcile_box
reconcile_box_frame m box_id at = elim (Option-cases (lookup box_id m.boxes)) [
  | inl e ↦ rw (e, reconcile_box) (refl, refl)
  | inr (b, e) ↦ rw (e, reconcile_box) (reconcile_all_frame m b (box_hosts m box_id) at)
]

pub reconcile_touched_frame :
    (m : Machine) (ids : List String) (at : Time) → SameFrame m (reconcile_touched m ids at).0
unfolding reconcile_touched
reconcile_touched_frame m [] at = (refl, refl)
reconcile_touched_frame m (id ∷ ids) at =
    let (e, f) = reconcile_box_frame m id at in
    let (g, h) = reconcile_touched_frame (reconcile_box m id at).0 ids at in (g ∙ e, h ∙ f)

round_host-id : (h : Host) (r : Round) (at : Time) → (round_host h r at).id ≡ h.id
unfolding round_host
round_host-id h r at = ground arith

apply_rounds_other :
    (m : Machine) (h : Host) (rs : List Round) (at : Time) (j : String)
    → str_eq h.id j ≡ false
    → lookup j (apply_rounds m h rs at).hosts ≡ lookup j m.hosts
unfolding apply_rounds
apply_rounds_other m h [] at j ne = refl
apply_rounds_other m h (r ∷ rs) at j ne =
    apply_rounds_other (apply_round m h r at) (round_host h r at) rs at j
      (ap (λ (k : String). str_eq k j) (round_host-id h r at) ∙ ne)
    ∙ lookup-insert h.id j (round_host h r at) m.hosts
    ∙ rw ne

apply_rounds_frame :
    (m : Machine) (h : Host) (rs : List Round) (at : Time) → SameFrame m (apply_rounds m h rs at)
unfolding apply_rounds
apply_rounds_frame m h [] at = (refl, refl)
apply_rounds_frame m h (r ∷ rs) at =
    apply_rounds_frame (apply_round m h r at) (round_host h r at) rs at

apply_report_frame :
    (m : Machine) (box_id : String) (rep : HostReport) (at : Time)
    → SameFrame m (apply_report m box_id rep at)
unfolding apply_report
apply_report_frame m box_id rep at = elim (Option-cases (lookup rep.host_id m.hosts)) [
  | inl e ↦ rw (e, apply_report) (refl, refl)
  | inr (h, e) ↦ elim (Bool-cases (str_eq h.box_id box_id)) [
    | inl mine ↦ rw (e, apply_report) (rw mine (apply_rounds_frame m h rep.rounds at))
    | inr other ↦ rw (e, apply_report) (rw other (refl, refl))
  ]
]

pub apply_reports_frame :
    (m : Machine) (box_id : String) (reps : List HostReport) (at : Time)
    → SameFrame m (apply_reports m box_id reps at)
unfolding apply_reports
apply_reports_frame m box_id [] at = (refl, refl)
apply_reports_frame m box_id (rep ∷ reps) at =
    let (e, f) = apply_report_frame m box_id rep at in
    let (g, h) = apply_reports_frame (apply_report m box_id rep at) box_id reps at in (g ∙ e, h ∙ f)

-- A host that a report may touch is not the one that belongs to another box.
apart :
    (box_id j : String) (h : Host) (m : Machine) (rep : HostReport) (g : Host)
    → WellFormed m
    → str_eq h.box_id box_id ≡ false
    → lookup j m.hosts ≡ some h
    → lookup rep.host_id m.hosts ≡ some g
    → str_eq g.box_id box_id ≡ true
    → str_eq g.id j ≡ false
apart box_id j h m rep g v other held e mine = elim (Bool-cases (str_eq g.id j)) [
  | inr ne ↦ ne
  | inl hit ↦
      let same : rep.host_id ≡ j = sym (host_entry v rep.host_id e).0 ∙ (eq_iff g.id j).0 hit in
      let one : some g ≡ some h = sym e ∙ ap (λ (k : String). lookup k m.hosts) same ∙ held in
      let host : g ≡ h = cc one in
      cc (sym other ∙ ap (λ (x : Host). str_eq x.box_id box_id) (sym host) ∙ mine)
]

module _ (box_id j : String) (h : Host) (other : str_eq h.box_id box_id ≡ false) (at : Time) where
  apply_report_other :
      (m : Machine) (rep : HostReport)
      → WellFormed m
      → lookup j m.hosts ≡ some h
      → lookup j (apply_report m box_id rep at).hosts ≡ some h
  unfolding apply_report
  apply_report_other m rep v held = elim (Option-cases (lookup rep.host_id m.hosts)) [
    | inl e ↦ rw (e, apply_report) held
    | inr (g, e) ↦ elim (Bool-cases (str_eq g.box_id box_id)) [
      | inr theirs ↦ rw (e, apply_report) (rw theirs held)
      | inl mine ↦
          rw (e, apply_report)
            (rw mine (
              apply_rounds_other m g rep.rounds at j (apart box_id j h m rep g v other held e mine)
              ∙ held))
    ]
  ]

  pub apply_reports_other :
      (m : Machine) (reps : List HostReport)
      → WellFormed m
      → lookup j m.hosts ≡ some h
      → lookup j (apply_reports m box_id reps at).hosts ≡ some h
  unfolding apply_reports
  apply_reports_other m [] v held = held
  apply_reports_other m (rep ∷ reps) v held =
      apply_reports_other (apply_report m box_id rep at) reps
        (apply_report-WellFormed m box_id rep at v) (apply_report_other m rep v held)

-- What a heartbeat leaves alone, for all hosts and boxes at once.
heartbeat_rest :
    (m : Machine) (box_id : String) (at : Time) (ver : String) (reps : List HostReport)
    → WellFormed m
    → ((j : String) (h : Host)
        → lookup j m.hosts ≡ some h
        → str_eq h.box_id box_id ≡ false
        → lookup j (heartbeat m box_id at ver reps).0.hosts ≡ some h)
      × ((k : String)
          → str_eq box_id k ≡ false
          → lookup k (heartbeat m box_id at ver reps).0.boxes ≡ lookup k m.boxes)
unfolding heartbeat store_beat
heartbeat_rest m box_id at ver reps v = elim (Option-cases (lookup box_id m.boxes)) [
  | inl e ↦ rw (e, heartbeat) (λ j h held other. held, λ k other. refl)
  | inr (b, e) ↦
      let m1 = store_beat m box_id (wake b at ver).0 in
      let m2 = apply_reports m1 box_id reps at in
      let v1 = store_beat-WellFormed m box_id b at ver v e in
      let v2 = apply_reports-WellFormed m1 box_id reps at v1 in
      let boxes = (apply_reports_frame m1 box_id reps at).0 in
      let beaten : lookup box_id m2.boxes ≡ some (wake b at ver).0 =
        ap (lookup box_id) boxes
        ∙ lookup-insert box_id box_id (wake b at ver).0 m.boxes
        ∙ rw (eq_refl box_id) in
      (
        λ j h held other.
            rw (e, heartbeat)
              ((reconcile_box_sweep m2 box_id (wake b at ver).0 at v2 beaten).0 j h
                  (apply_reports_other box_id j h other at m1 reps v1 held)
                ∙ rw other),
        λ k other.
            rw (e, heartbeat)
              (ap (lookup k) ((reconcile_box_frame m2 box_id at).0 ∙ boxes)
                ∙ lookup-insert box_id k (wake b at ver).0 m.boxes
                ∙ rw other),
      )
]

-- A heartbeat to a well-formed machine changes no host of another box and no other box, whatever
-- host ids it reports.
pub heartbeat_isolated :
    (m : Machine) (box_id : String) (at : Time) (ver : String) (reps : List HostReport) (j : String)
    (h : Host) (k : String)
    → WellFormed m
    → lookup j m.hosts ≡ some h
    → str_eq h.box_id box_id ≡ false
    → str_eq box_id k ≡ false
    → (lookup j (heartbeat m box_id at ver reps).0.hosts ≡ some h)
      × (lookup k (heartbeat m box_id at ver reps).0.boxes ≡ lookup k m.boxes)
heartbeat_isolated m box_id at ver reps j h k v held other apart =
    let (hosts, boxes) = heartbeat_rest m box_id at ver reps v in
    (hosts j h held other, boxes k apart)
