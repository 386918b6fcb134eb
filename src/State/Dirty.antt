-- ===== src/State/Dirty.antt =====
-- What the inputs change is on record for the caller to persist.
use excubra.Prelude.{
  ◌≡◌, refl, sym, ap, subst, ◌∙◌, ◌⊎◌, inl, inr, String, true, false, ◌||◌, Option, some, List, [],
  ◌∷◌, arith, eq_iff, str_eq, contains, add, Bool-cases, Option-cases, >>=-eq-some, some_inj,
}
use excubra.GoMap.{lookup, insert, erase, values, lookup-insert}
use excubra.GoTime.{Time, after}
use excubra.Wire.{Round, HostReport}
use excubra.Event.{Event}
use excubra.State.Types.{Box, Host, Maintenance, Machine}
use excubra.State.Round.{round_host, apply_round, apply_rounds}
use excubra.State.Reconcile.{
  store_host, reconcile, reconcile_id, reconcile_all, box_hosts, reconcile_box,
}
use excubra.State.Settle.{Leaves, reconcile-Leaves}
use excubra.State.Inputs.{
  wake, store_beat, apply_report, apply_reports, heartbeat, reconcile_touched, expire, drop_window,
  touch, overdue, silence_boxes, silence_box, mark_silent, sorted_maint, sorted_boxes, tick,
  end_maintenance,
}
use excubra.State.Silence.{silence_box_result}

-- A host that differs is marked, and no mark is lost.
pub record Tracked (m m' : Machine) : Type 0 where
  pub changes :
      (j : String) → (lookup j m'.hosts ≡ lookup j m.hosts) ⊎ (contains j m'.dirty_hosts ≡ true)
  pub marks : (j : String) → contains j m.dirty_hosts ≡ true → contains j m'.dirty_hosts ≡ true

pub Tracked-refl : (m : Machine) → Tracked m m
Tracked-refl m = record { changes = λ j. inl refl; marks = λ j h. h }

pub Tracked-trans : {m n p : Machine} → Tracked m n → Tracked n p → Tracked m p
Tracked-trans f g = record {
  changes = λ j. elim (g.changes j) [
    | inr marked ↦ inr marked
    | inl same ↦ elim (f.changes j) [
      | inl before ↦ inl (same ∙ before)
      | inr marked ↦ inr (g.marks j marked)
    ]
  ];
  marks = λ j h. g.marks j (f.marks j h);
}

contains-add :
    (s j : String) (xs : List String) → contains j (add s xs) ≡ (str_eq s j || contains j xs)
contains-add s j xs = elim (Bool-cases (contains s xs)) [
  | inr new ↦ rw new
  | inl old ↦ elim (Bool-cases (str_eq s j)) [
    | inr miss ↦ rw (old, miss)
    | inl hit ↦ rw (old, hit) (ap (λ (i : String). contains i xs) (sym ((eq_iff s j).0 hit)) ∙ old)
  ]
]

-- Writing a host and marking it, as rounds and reports both do.
written :
    (m : Machine) (k : String) (h : Host)
    → Tracked m (record m { hosts = insert k h m.hosts; dirty_hosts = add k m.dirty_hosts })
written m k h = record {
  changes = λ j. elim (Bool-cases (str_eq k j)) [
    | inl hit ↦ inr (contains-add k j m.dirty_hosts ∙ rw hit)
    | inr miss ↦ inl (lookup-insert k j h m.hosts ∙ rw miss)
  ];
  marks = λ j marked. contains-add k j m.dirty_hosts ∙ rw marked (ground arith);
}

apply_rounds-Tracked :
    (m : Machine) (h : Host) (rs : List Round) (at : Time) → Tracked m (apply_rounds m h rs at)
unfolding apply_rounds
apply_rounds-Tracked m h [] at = Tracked-refl m
apply_rounds-Tracked m h (r ∷ rs) at =
    Tracked-trans (written m h.id (round_host h r at))
      (apply_rounds-Tracked (apply_round m h r at) (round_host h r at) rs at)

apply_report-Tracked :
    (m : Machine) (box_id : String) (rep : HostReport) (at : Time)
    → Tracked m (apply_report m box_id rep at)
unfolding apply_report
apply_report-Tracked m box_id rep at = elim (Option-cases (lookup rep.host_id m.hosts)) [
  | inl e ↦ rw (e, apply_report) (Tracked-refl m)
  | inr (h, e) ↦ elim (Bool-cases (str_eq h.box_id box_id)) [
    | inl mine ↦ rw (e, apply_report) (rw mine (apply_rounds-Tracked m h rep.rounds at))
    | inr other ↦ rw (e, apply_report) (rw other (Tracked-refl m))
  ]
]

apply_reports-Tracked :
    (m : Machine) (box_id : String) (reps : List HostReport) (at : Time)
    → Tracked m (apply_reports m box_id reps at)
unfolding apply_reports
apply_reports-Tracked m box_id [] at = Tracked-refl m
apply_reports-Tracked m box_id (rep ∷ reps) at =
    Tracked-trans (apply_report-Tracked m box_id rep at)
      (apply_reports-Tracked (apply_report m box_id rep at) box_id reps at)

Leaves-Tracked : (m m' : Machine) (b : Box) (h : Host) → Leaves m b h m' → Tracked m m'
unfolding store_host
Leaves-Tracked m m' b h (inl (e, k)) = rw e (Tracked-refl m)
Leaves-Tracked m m' b h (inr (r, e, k)) = rw e (written m h.id (record h { reported = r }))

reconcile_id-Tracked :
    (m : Machine) (b : Box) (id : String) (at : Time) → Tracked m (reconcile_id m b id at).0
unfolding reconcile_id
reconcile_id-Tracked m b id at = elim (Option-cases (lookup id m.hosts)) [
  | inl e ↦ rw (e, reconcile_id) (Tracked-refl m)
  | inr (h, e) ↦
      rw (e, reconcile_id) (Leaves-Tracked m (reconcile m b h at).0 b h (reconcile-Leaves m b h at))
]

reconcile_all-Tracked :
    (m : Machine) (b : Box) (ids : List String) (at : Time) → Tracked m (reconcile_all m b ids at).0
unfolding reconcile_all
reconcile_all-Tracked m b [] at = Tracked-refl m
reconcile_all-Tracked m b (id ∷ ids) at =
    Tracked-trans (reconcile_id-Tracked m b id at)
      (reconcile_all-Tracked (reconcile_id m b id at).0 b ids at)

reconcile_box-Tracked :
    (m : Machine) (box_id : String) (at : Time) → Tracked m (reconcile_box m box_id at).0
unfolding reconcile_box
reconcile_box-Tracked m box_id at = elim (Option-cases (lookup box_id m.boxes)) [
  | inl e ↦ rw (e, reconcile_box) (Tracked-refl m)
  | inr (b, e) ↦ rw (e, reconcile_box) (reconcile_all-Tracked m b (box_hosts m box_id) at)
]

reconcile_touched-Tracked :
    (m : Machine) (ids : List String) (at : Time) → Tracked m (reconcile_touched m ids at).0
unfolding reconcile_touched
reconcile_touched-Tracked m [] at = Tracked-refl m
reconcile_touched-Tracked m (id ∷ ids) at =
    Tracked-trans (reconcile_box-Tracked m id at)
      (reconcile_touched-Tracked (reconcile_box m id at).0 ids at)

-- The hosts and their marks are those of another machine.
abbrev SameHosts : Machine → Machine → Type 0
SameHosts m m' = (m'.hosts ≡ m.hosts) × (m'.dirty_hosts ≡ m.dirty_hosts)

same-Tracked : (m m' : Machine) → SameHosts m m' → Tracked m m'
same-Tracked m m' (e, d) = record {
  changes = λ j. inl (ap (lookup j) e);
  marks = λ j h. ap (contains j) d ∙ h;
}

expire_hosts :
    (m : Machine) (ws : List Maintenance) (at : Time) (t : List String)
    → SameHosts m (expire m ws at t).0
unfolding expire drop_window
expire_hosts m [] at t = (refl, refl)
expire_hosts m (w ∷ ws) at t = elim (Bool-cases (after w.until at)) [
  | inl e ↦ rw (e, expire) (expire_hosts m ws at t)
  | inr e ↦
      rw (e, expire)
        (expire_hosts (drop_window m w) ws at (touch (drop_window m w) w (values m.hosts) t))
]

silence_box_hosts :
    (m m' : Machine) (b : Box) (at : Time) (ev : Option Event)
    → silence_box m b at ≡ some (m', ev)
    → SameHosts m m'
unfolding mark_silent
silence_box_hosts m m' b at ev e =
    rw ((silence_box_result m m' b at ev e).0) (elim (Bool-cases (overdue b at)) [
      | inl late ↦ rw late (refl, refl)
      | inr early ↦ rw early (refl, refl)
    ])

silence_boxes_hosts :
    (m m' : Machine) (bs : List Box) (at : Time) (evs : List Event)
    → silence_boxes m bs at ≡ some (m', evs)
    → SameHosts m m'
unfolding silence_boxes
silence_boxes_hosts m m' [] at evs e =
    let same : m ≡ m' = ap (λ (r : Machine × List Event). r.0) (some_inj e) in
    (ap (λ (x : Machine). x.hosts) (sym same), ap (λ (x : Machine). x.dirty_hosts) (sym same))
silence_boxes_hosts m m' (b ∷ bs) at evs e =
    let (p1, s, e1) = >>=-eq-some (silence_box m b at) _ e in
    let (p2, t, e2) = >>=-eq-some (silence_boxes p1.0 bs at) _ e1 in
    let last : p2.0 ≡ m' = ap (λ (r : Machine × List Event). r.0) (some_inj e2) in
    let (h1, d1) = silence_box_hosts m p1.0 b at p1.1 s in
    let (h2, d2) = silence_boxes_hosts p1.0 p2.0 bs at p2.1 t in
    (
      ap (λ (x : Machine). x.hosts) (sym last) ∙ h2 ∙ h1,
      ap (λ (x : Machine). x.dirty_hosts) (sym last) ∙ d2 ∙ d1,
    )

store_beat_hosts : (m : Machine) (box_id : String) (b : Box) → SameHosts m (store_beat m box_id b)
unfolding store_beat
store_beat_hosts m box_id b = (refl, refl)

heartbeat-Tracked :
    (m : Machine) (box_id : String) (at : Time) (ver : String) (reps : List HostReport)
    → Tracked m (heartbeat m box_id at ver reps).0
unfolding heartbeat
heartbeat-Tracked m box_id at ver reps = elim (Option-cases (lookup box_id m.boxes)) [
  | inl e ↦ rw (e, heartbeat) (Tracked-refl m)
  | inr (b, e) ↦
      let m1 = store_beat m box_id (wake b at ver).0 in
      rw (e, heartbeat)
        (Tracked-trans (same-Tracked m m1 (store_beat_hosts m box_id (wake b at ver).0)) (
          Tracked-trans (apply_reports-Tracked m1 box_id reps at)
            (reconcile_box-Tracked (apply_reports m1 box_id reps at) box_id at)))
]

tick-Tracked :
    (m m' : Machine) (at : Time) (evs : List Event) → tick m at ≡ some (m', evs) → Tracked m m'
unfolding tick
tick-Tracked m m' at evs e =
    let expired = expire m (sorted_maint m) at [] in
    let (p, s, e1) = >>=-eq-some (silence_boxes expired.0 (sorted_boxes expired.0) at) _ e in
    let last : (reconcile_touched p.0 expired.2 at).0 ≡ m' =
      ap (λ (r : Machine × List Event). r.0) (some_inj e1) in
    subst (Tracked m) last (
      Tracked-trans (same-Tracked m expired.0 (expire_hosts m (sorted_maint m) at [])) (
        Tracked-trans
          (same-Tracked expired.0 p.0
            (silence_boxes_hosts expired.0 p.0 (sorted_boxes expired.0) at p.1 s))
          (reconcile_touched-Tracked p.0 expired.2 at)))

end_maintenance-Tracked :
    (m : Machine) (id : String) (at : Time) → Tracked m (end_maintenance m id at).0
unfolding end_maintenance
end_maintenance-Tracked m id at = elim (Option-cases (lookup id m.maint)) [
  | inl e ↦ rw (e, end_maintenance) (Tracked-refl m)
  | inr (w, e) ↦
      let m1 = record m { maint = erase id m.maint } in
      rw (e, end_maintenance)
        (Tracked-trans (same-Tracked m m1 (refl, refl))
          (reconcile_touched-Tracked m1 (touch m1 w (values m1.hosts) []) at))
]

-- A host that a heartbeat changes is marked, and so is one that the end of a window changes.
pub heartbeat_marks :
    (m : Machine) (box_id id j : String) (at : Time) (ver : String) (reps : List HostReport)
    → ((lookup j (heartbeat m box_id at ver reps).0.hosts ≡ lookup j m.hosts)
        ⊎ (contains j (heartbeat m box_id at ver reps).0.dirty_hosts ≡ true))
      × ((lookup j (end_maintenance m id at).0.hosts ≡ lookup j m.hosts)
          ⊎ (contains j (end_maintenance m id at).0.dirty_hosts ≡ true))
heartbeat_marks m box_id id j at ver reps = (
  (heartbeat-Tracked m box_id at ver reps).changes j,
  (end_maintenance-Tracked m id at).changes j,
)

-- A host that a tick that returns changes is marked, and a mark that was there stays.
pub tick_marks :
    (m m' : Machine) (at : Time) (evs : List Event) (j : String)
    → tick m at ≡ some (m', evs)
    → ((lookup j m'.hosts ≡ lookup j m.hosts) ⊎ (contains j m'.dirty_hosts ≡ true))
      × ((contains j m.dirty_hosts ≡ false) ⊎ (contains j m'.dirty_hosts ≡ true))
tick_marks m m' at evs j e =
    let tracked = tick-Tracked m m' at evs e in
    (
      tracked.changes j,
      elim (Bool-cases (contains j m.dirty_hosts)) [
        | inl marked ↦ inr (tracked.marks j marked)
        | inr clean ↦ inl clean
      ],
    )
