-- ===== src/State/Windows.antt =====
-- Maintenance windows: when they are announced and what they hold back.
use excubra.Prelude.{
  ◌≡◌, refl, sym, ap, ◌∙◌, ◌⊎◌, inl, inr, String, Bool, true, false, Option, none, some, List, [],
  ◌∷◌, arith, eq_iff, eq_refl, str_eq, if◌then◌else◌, Bool-cases, Option-cases, some_inj, contains,
  All,
}
use excubra.GoMap.{Map, lookup, erase, values, lookup-insert, lookup-erase}
use excubra.GoTime.{Time}
use excubra.Event.{Event}
use excubra.State.Types.{Box, Host, Maintenance, Machine, silent}
use excubra.State.Suppress.{window_covers, any_covers, in_maintenance, suppressed}
use excubra.State.Reconcile.{reconcile_box, reconcile_all, reconcile_id, box_hosts}
use excubra.State.Settle.{is_open, reported_host, closed_stays}
use excubra.State.Inputs.{
  maintenance_started_event, maintenance_ended_event, host_of_window, start_maintenance,
  end_maintenance, reconcile_touched, touch,
}
use excubra.State.Wellformed.{WellFormed}
use excubra.State.Isolation.{reconcile_touched_frame}
use excubra.State.Members.{contains-box_hosts}
use excubra.State.Agreement.{reconcile_box_sweep}

any_covers_found :
    (m : Machine) (h : Host) (k : String) (w : Maintenance) (maint : Map Maintenance)
    → lookup k maint ≡ some w
    → window_covers m w h ≡ true
    → any_covers m h (values maint) ≡ true
any_covers_found m h k w [] e c = cc
any_covers_found m h k w ((i, u) ∷ maint) e c = elim (Bool-cases (str_eq i k)) [
  | inl hit ↦
      let same : u ≡ w = some_inj (rw hit at e) in
      rw (ap (λ (x : Maintenance). window_covers m x h) same ∙ c)
  | inr miss ↦ rw (any_covers_found m h k w maint (rw miss at e) c) (ground arith)
]

covered_closed :
    (m : Machine) (b : Box) (h : Host) (k : String) (w : Maintenance)
    → lookup k m.maint ≡ some w
    → window_covers m w h ≡ true
    → is_open m b h ≡ false
unfolding is_open suppressed in_maintenance
covered_closed m b h k w e c = ground (arith, any_covers_found m h k w m.maint e c)

abbrev pub is_none {ℓ} : {A : Type ℓ} → Option A → Bool
is_none none = true
is_none (some a) = false

start_events :
    (m : Machine) (w : Maintenance) (at : Time)
    → (start_maintenance m w at).1 ≡ (
        if is_none (lookup w.id m.maint)
        then maintenance_started_event w (host_of_window m w) at ∷ []
        else [])
unfolding start_maintenance
start_events m w at = elim (Option-cases (lookup w.id m.maint)) [
  | inl e ↦ rw (e, start_maintenance)
  | inr (u, e) ↦ rw (e, start_maintenance)
]

start_again :
    (m : Machine) (u : Maintenance) (later : Time) (w : Maintenance)
    → lookup u.id m.maint ≡ some w
    → (start_maintenance m u later).1 ≡ []
start_again m u later w e = start_events m u later ∙ rw e

started :
    (m : Machine) (w : Maintenance) (at : Time)
    → lookup w.id (start_maintenance m w at).0.maint ≡ some w
unfolding start_maintenance
started m w at =
    let stored = lookup-insert w.id w.id w m.maint ∙ rw (eq_refl w.id) in
    elim (Option-cases (lookup w.id m.maint)) [
      | inl e ↦ rw (e, start_maintenance) stored
      | inr (u, e) ↦ rw (e, start_maintenance) stored
    ]

stays :
    (m : Machine) (box_id : String) (b : Box) (h : Host)
    → is_open m b h ≡ false
    → some (if str_eq h.box_id box_id then reported_host m b h else h) ≡ some h
unfolding reported_host
stays m box_id b h e = elim (Bool-cases (str_eq h.box_id box_id)) [
  | inl t ↦ rw (t, e)
  | inr t ↦ rw t
]

-- A start under a new id returns one event, a start under a known one none; the window is stored
-- either way, so that a second start under its id, of whatever window, is not announced again.
pub start_maintenance_once :
    (m : Machine) (w u : Maintenance) (at later : Time)
    → u.id ≡ w.id
    → ((start_maintenance m w at).1 ≡ (
        if is_none (lookup w.id m.maint)
        then maintenance_started_event w (host_of_window m w) at ∷ []
        else []))
      × (lookup w.id (start_maintenance m w at).0.maint ≡ some w)
      × ((start_maintenance (start_maintenance m w at).0 u later).1 ≡ [])
start_maintenance_once m w u at later same = (
  start_events m w at,
  started m w at,
  start_again (start_maintenance m w at).0 u later w
      (ap (λ (k : String). lookup k (start_maintenance m w at).0.maint) same ∙ started m w at),
)

-- In a well-formed machine, while a window is stored, no sweep of a stored box changes a host that
-- the window covers: what was observed of it is not reported.
pub covered_host_rests :
    (m : Machine) (box_id j k : String) (b : Box) (h : Host) (w : Maintenance) (at : Time)
    → WellFormed m
    → lookup box_id m.boxes ≡ some b
    → lookup j m.hosts ≡ some h
    → lookup k m.maint ≡ some w
    → window_covers m w h ≡ true
    → lookup j (reconcile_box m box_id at).0.hosts ≡ some h
covered_host_rests m box_id j k b h w at v found held stored covers =
    (reconcile_box_sweep m box_id b at v found).0 j h held
    ∙ stays m box_id b h (covered_closed m b h k w stored covers)

-- `EndMaintenance` of an unknown id changes nothing. The end of a stored window is announced before
-- whatever it releases; the window is gone and every other one is kept.
pub end_maintenance_releases :
    (m : Machine) (id k : String) (at : Time)
    → ((lookup id m.maint ≡ none) × (end_maintenance m id at ≡ (m, [])))
      ⊎ ((w : Maintenance) × (released : List Event) × (lookup id m.maint ≡ some w)
          × ((end_maintenance m id at).1 ≡ maintenance_ended_event w at "cleared" ∷ released)
          × (lookup k (end_maintenance m id at).0.maint
              ≡ (if str_eq id k then none else lookup k m.maint)))
unfolding end_maintenance
end_maintenance_releases m id k at = elim (Option-cases (lookup id m.maint)) [
  | inl e ↦ inl (e, rw (e, end_maintenance))
  | inr (w, e) ↦
      let m1 = record m { maint = erase id m.maint } in
      let ids = touch m1 w (values m1.hosts) [] in
      let gone = (reconcile_touched_frame m1 ids at).1 in
      inr (
        w,
        (reconcile_touched m1 ids at).1,
        e,
        rw (e, end_maintenance),
        rw (e, end_maintenance) (ap (lookup k) gone ∙ lookup-erase id k m.maint),
      )
]

-- What every member of a list has, the list has.
All-contains :
    (P : String → Type 0) (ids : List String)
    → ((j : String) → contains j ids ≡ true → P j)
    → All P ids
All-contains P [] f = tt
All-contains P (id ∷ ids) f =
    (f id (rw (eq_refl id)), All-contains P ids (λ j c. f j (rw c (ground arith))))

abbrev Closed : Machine → Box → String → Type 0
Closed m b id = (h : Host) → lookup id m.hosts ≡ some h → is_open m b h ≡ false

Closed-id :
    (m : Machine) (b : Box) (id : String) (at : Time)
    → Closed m b id
    → reconcile_id m b id at ≡ (m, none)
unfolding reconcile_id
Closed-id m b id at c = elim (Option-cases (lookup id m.hosts)) [
  | inl e ↦ rw (e, reconcile_id)
  | inr (h, e) ↦ rw (e, reconcile_id) (closed_stays m b h at (c h e))
]

Closed-sweep :
    (m : Machine) (b : Box) (ids : List String) (at : Time)
    → All (Closed m b) ids
    → reconcile_all m b ids at ≡ (m, [])
unfolding reconcile_all
Closed-sweep m b [] at c = refl
Closed-sweep m b (id ∷ ids) at c = rw (Closed-id m b id at c.0) (rw (Closed-sweep m b ids at c.1))

silent_closed :
    (m : Machine) (b : Box) (h : Host)
    → lookup h.box_id m.boxes ≡ some b
    → b.status ≡ silent
    → is_open m b h ≡ false
unfolding is_open suppressed
silent_closed m b h e s = rw (e, s) (ground arith)

-- In a well-formed machine, a sweep of a stored box that is silent does nothing at all: its hosts are neither reported nor announced.
pub silent_box_rests :
    (m : Machine) (box_id : String) (b : Box) (at : Time)
    → WellFormed m
    → lookup box_id m.boxes ≡ some b
    → b.status ≡ silent
    → reconcile_box m box_id at ≡ (m, [])
unfolding reconcile_box
silent_box_rests m box_id b at v found s =
    rw (found, reconcile_box)
      (Closed-sweep m b (box_hosts m box_id) at (
        All-contains (Closed m b) (box_hosts m box_id) (λ j c h held.
          let mine : str_eq h.box_id box_id ≡ true =
            sym (contains-box_hosts m box_id j v ∙ rw held) ∙ c in
          silent_closed m b h
            (ap (λ (k : String). lookup k m.boxes) ((eq_iff h.box_id box_id).0 mine) ∙ found) s)))
