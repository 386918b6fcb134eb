-- ===== src/State/Totality.antt =====
-- Heartbeats, ticks and windows keep a machine well formed; no tick of such a machine panics.
use excubra.Prelude.{
  ℕ, suc, ◌≡◌, refl, ◌∙◌, inl, inr, String, Option, none, some, List, [], ◌∷◌, ◌++◌, arith, pos, ℤ,
  quot, add, Bool-cases, Option-cases, All, sort_by-All, negsuc,
}
use excubra.GoMap.{Map, lookup, values, Entries}
use excubra.GoTime.{Time, time_sub, after}
use excubra.Wire.{HostReport}
use excubra.Event.{Event}
use excubra.State.Types.{Box, Maintenance, Machine, assigned, is_silent}
use excubra.State.Reconcile.{cons_event}
use excubra.State.Inputs.{
  wake, store_beat, apply_reports, heartbeat, drop_window, expire, overdue, silence, mark_silent,
  silent_event, silence_box, silence_boxes, reconcile_touched, sorted_boxes, sorted_maint, tick,
  touch,
}
use excubra.State.Wellformed.{WellFormed, IsReady, BoxEntry}
use excubra.State.Preserve.{store_box, erase_window}
use excubra.State.Invariant.{
  box_entry, apply_reports-WellFormed, reconcile_box-WellFormed, reconcile_touched-WellFormed,
}

wake-IsReady : (b : Box) (at : Time) (ver : String) → IsReady b → IsReady (wake b at ver).0
unfolding wake
wake-IsReady b at ver r = elim (Bool-cases (is_silent b.status)) [
  | inl e ↦ rw e (record { interval_pos = r.interval_pos; has_status = refl })
  | inr e ↦ rw e (record { interval_pos = r.interval_pos; has_status = r.has_status })
]

wake-id : (b : Box) (at : Time) (ver : String) → (wake b at ver).0.id ≡ b.id
unfolding wake
wake-id b at ver = ground arith

pub store_beat-WellFormed :
    (m : Machine) (box_id : String) (b : Box) (at : Time) (ver : String)
    → WellFormed m
    → lookup box_id m.boxes ≡ some b
    → WellFormed (store_beat m box_id (wake b at ver).0)
unfolding store_beat
store_beat-WellFormed m box_id b at ver v e =
    let (id, ready) = box_entry v box_id e in
    store_box m v box_id (wake b at ver).0 (add box_id m.dirty_boxes)
      (wake-id b at ver ∙ id, wake-IsReady b at ver ready)

pub heartbeat-WellFormed :
    (m : Machine) (box_id : String) (at : Time) (ver : String) (reps : List HostReport)
    → WellFormed m
    → WellFormed (heartbeat m box_id at ver reps).0
unfolding heartbeat
heartbeat-WellFormed m box_id at ver reps v = elim (Option-cases (lookup box_id m.boxes)) [
  | inl e ↦ rw (e, heartbeat) v
  | inr (b, e) ↦
      let m1 = store_beat m box_id (wake b at ver).0 in
      rw (e, heartbeat)
        (reconcile_box-WellFormed (apply_reports m1 box_id reps at) box_id at (
          apply_reports-WellFormed m1 box_id reps at (store_beat-WellFormed m box_id b at ver v e)))
]

drop_window-WellFormed :
    (m : Machine) (w : Maintenance) → WellFormed m → WellFormed (drop_window m w)
unfolding drop_window
drop_window-WellFormed m w v = erase_window m v w.id

pub expire-WellFormed :
    (m : Machine) (ws : List Maintenance) (at : Time) (touched : List String)
    → WellFormed m
    → WellFormed (expire m ws at touched).0
unfolding expire
expire-WellFormed m [] at touched v = v
expire-WellFormed m (w ∷ ws) at touched v = elim (Bool-cases (after w.until at)) [
  | inl e ↦ rw (e, expire) (expire-WellFormed m ws at touched v)
  | inr e ↦
      let m1 = drop_window m w in
      rw (e, expire)
        (expire-WellFormed (drop_window m w) ws at (touch m1 w (values m1.hosts) touched)
          (drop_window-WellFormed m w v))
]

abbrev pub Ready : Box → Type 0
Ready b = BoxEntry b.id b

values-Ready : (boxes : Map Box) → Entries BoxEntry boxes → All Ready (values boxes)
values-Ready [] e = tt
values-Ready ((k, b) ∷ boxes) e = ((refl, e.0.1), values-Ready boxes e.1)

mark_silent-WellFormed :
    (m : Machine) (b : Box) → WellFormed m → Ready b → WellFormed (mark_silent m b)
unfolding mark_silent silence
mark_silent-WellFormed m b v r =
    store_box m v b.id (silence b) (add b.id m.dirty_boxes)
      (refl, record { interval_pos = r.1.interval_pos; has_status = refl })

quot_total : (a : ℤ) (n : ℕ) → (q : ℤ) × (quot a (pos (suc n)) ≡ some q)
quot_total (pos a) n = (_, refl)
quot_total (negsuc a) n = (_, refl)

-- A step of the silence loop that returns, and what it returns.
abbrev Silences : Machine → Box → Time → Type 0
Silences m b at =
    (m' : Machine) × (ev : Option Event) × (silence_box m b at ≡ some (m', ev)) × WellFormed m'

silence_box_total : (m : Machine) (b : Box) (at : Time) → WellFormed m → Ready b → Silences m b at
unfolding silence_box
silence_box_total m b at v r =
    let (n, hb) = r.1.interval_pos in
    let (q, e) = quot_total (time_sub at b.last_heartbeat) n in
    let kept = mark_silent-WellFormed m b v r in
    elim (Bool-cases (overdue b at)) [
      | inr no_news ↦ (m, none, rw no_news, v)
      | inl late ↦ elim (Bool-cases (assigned b)) [
        | inr loose ↦ (mark_silent m b, none, rw (late, loose), kept)
        | inl bound ↦
            (mark_silent m b, some (silent_event b at q), rw (late, bound) (rw hb (rw e)), kept)
      ]
    ]

pub silence_boxes_total :
    (m : Machine) (bs : List Box) (at : Time)
    → WellFormed m
    → All Ready bs
    → (m' : Machine) × (evs : List Event) × (silence_boxes m bs at ≡ some (m', evs)) × WellFormed m'
unfolding silence_boxes
silence_boxes_total m [] at v r = (m, [], refl, v)
silence_boxes_total m (b ∷ bs) at v r =
    let (m1, ev, e1, v1) = silence_box_total m b at v r.0 in
    let (m2, evs, e2, v2) = silence_boxes_total m1 bs at v1 r.1 in
    (m2, cons_event ev evs, rw (e1, silence_boxes) (rw e2), v2)

pub sorted-Ready : (m : Machine) → WellFormed m → All Ready (sorted_boxes m)
sorted-Ready m v = sort_by-All Ready _ (values m.boxes) (values-Ready m.boxes v.boxes_entries)

-- A tick of a well-formed machine never divides by an interval of zero, whatever the time: it
-- returns a machine, which is well formed again.
pub tick_total :
    (m : Machine) (at : Time)
    → WellFormed m
    → (m' : Machine) × (evs : List Event) × (tick m at ≡ some (m', evs)) × WellFormed m'
unfolding tick
tick_total m at v =
    let expired = expire m (sorted_maint m) at [] in
    let v1 = expire-WellFormed m (sorted_maint m) at [] v in
    let (m2, silenced, e, v2) =
      silence_boxes_total expired.0 (sorted_boxes expired.0) at v1 (sorted-Ready expired.0 v1) in
    let settled = reconcile_touched m2 expired.2 at in
    (
      settled.0,
      expired.1 ++ (silenced ++ settled.1),
      rw e,
      reconcile_touched-WellFormed m2 expired.2 at v2,
    )
