-- ===== src/State/Agreement.antt =====
-- `reconcileBox` against the table: what is reported and what is announced, host by host.
use excubra.Prelude.{
  ◌≡◌, refl, ◌∙◌, ◌⊎◌, inl, inr, String, true, none, some, List, [], ◌∷◌, str_eq, if◌then◌else◌,
  All, Bool-cases, Option-cases,
}
use excubra.GoMap.{lookup}
use excubra.GoTime.{Time}
use excubra.Event.{Event, EventType}
use excubra.State.Types.{Box, Host, Machine}
use excubra.State.Reconcile.{host_event, box_hosts, reconcile_box}
use excubra.State.Settle.{is_open, reported_host, announced, announces}
use excubra.State.Sweep.{announcements, reconcile_all-announcements, reconcile_all-lookup}
use excubra.State.Wellformed.{WellFormed, WellFormed-Keyed}
use excubra.State.Members.{box_hosts-Once, contains-box_hosts}

-- The sweep of a box for all hosts at once.
pub reconcile_box_sweep :
    (m : Machine) (box_id : String) (b : Box) (at : Time)
    → WellFormed m
    → lookup box_id m.boxes ≡ some b
    → ((j : String) (h : Host)
        → lookup j m.hosts ≡ some h
        → lookup j (reconcile_box m box_id at).0.hosts
          ≡ some (if str_eq h.box_id box_id then reported_host m b h else h))
      × ((reconcile_box m box_id at).1 ≡ announcements m b (box_hosts m box_id) at)
unfolding reconcile_box
reconcile_box_sweep m box_id b at v found = (
  λ j h held.
      rw (found, reconcile_box)
        (reconcile_all-lookup m b (box_hosts m box_id) at j (WellFormed-Keyed m v)
            (box_hosts-Once m box_id v)
          ∙ rw (contains-box_hosts m box_id j v, held)
              (elim (Bool-cases (str_eq h.box_id box_id)) [ inl e ↦ rw e | inr e ↦ rw e ])),
  rw (found, reconcile_box)
      (reconcile_all-announcements m b (box_hosts m box_id) at (WellFormed-Keyed m v)
        (box_hosts-Once m box_id v)),
)

-- In a well-formed machine, after `reconcileBox` of a stored box every host of the box is what the
-- table makes of it in the machine before, every other host is as it was, and the events are those
-- of the table, in the order of the sweep.
pub reconcile_box_table :
    (m : Machine) (box_id : String) (b : Box) (at : Time) (j : String) (h : Host)
    → WellFormed m
    → lookup box_id m.boxes ≡ some b
    → lookup j m.hosts ≡ some h
    → (lookup j (reconcile_box m box_id at).0.hosts
        ≡ some (if str_eq h.box_id box_id then reported_host m b h else h))
      × ((reconcile_box m box_id at).1 ≡ announcements m b (box_hosts m box_id) at)
reconcile_box_table m box_id b at j h v found held =
    let (hosts, events) = reconcile_box_sweep m box_id b at v found in (hosts j h held, events)

-- An event of a sweep: the host that it is about may be heard of, and what was observed of it
-- differs from what was reported.
abbrev pub IsTransition : Machine → Box → Time → Event → Type 0
IsTransition m b at ev =
    (j : String) × (h : Host) × (t : EventType) × (lookup j m.hosts ≡ some h)
    × (is_open m b h ≡ true)
    × (announces h.observed h.reported ≡ some t)
    × (ev ≡ host_event b h t at)

announced-IsTransition :
    (m : Machine) (b : Box) (at : Time) (j : String) (h : Host)
    → lookup j m.hosts ≡ some h
    → (announced m b h at ≡ none)
      ⊎ ((ev : Event) × (announced m b h at ≡ some ev) × IsTransition m b at ev)
unfolding announced
announced-IsTransition m b at j h held = elim (Bool-cases (is_open m b h)) [
  | inr e ↦ inl (rw e)
  | inl e ↦ elim (Option-cases (announces h.observed h.reported)) [
    | inl n ↦ inl (rw (e, n))
    | inr (t, s) ↦ inr (host_event b h t at, rw (e, s), (j, h, t, held, e, s, refl))
  ]
]

announcements-All :
    (m : Machine) (b : Box) (at : Time) (ids : List String)
    → All (IsTransition m b at) (announcements m b ids at)
unfolding announcements
announcements-All m b at [] = tt
announcements-All m b at (j ∷ ids) = elim (Option-cases (lookup j m.hosts)) [
  | inl e ↦ rw e (announcements-All m b at ids)
  | inr (h, e) ↦ rw e (elim (announced-IsTransition m b at j h e) [
    | inl n ↦ rw n (announcements-All m b at ids)
    | inr (ev, s, tr) ↦ rw s (tr, announcements-All m b at ids)
  ])
]

-- Every event of `reconcileBox` of a stored box, in a well-formed machine, is a transition of a
-- stored host that nothing suppresses: one that was reported otherwise and is now observed down, or
-- was reported down and is now observed up.
pub reconcile_box_transitions :
    (m : Machine) (box_id : String) (b : Box) (at : Time)
    → WellFormed m
    → lookup box_id m.boxes ≡ some b
    → All (IsTransition m b at) (reconcile_box m box_id at).1
reconcile_box_transitions m box_id b at v found =
    rw ((reconcile_box_sweep m box_id b at v found).1)
      (announcements-All m b at (box_hosts m box_id))
