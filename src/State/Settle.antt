-- ===== src/State/Settle.antt =====
-- `reconcile` on one host, against the table of what is reported and announced.
use excubra.Prelude.{
  ◌≡◌, refl, ap, ◌∙◌, ◌⊎◌, inl, inr, Bool, true, false, ◌&&◌, Option, none, some, arith,
  if◌then◌else◌, Bool-cases,
}
use mathlib.Core.Option
use excubra.GoTime.{Time}
use excubra.Event.{Event, EventType, host_down, host_up}
use excubra.State.Types.{
  Box, Host, HostState, Machine, unset, unknown, up, down, is_unknown, assigned,
}
use excubra.State.Suppress.{suppressed, is_free}
use excubra.State.Reconcile.{store_host, host_event, settle, reconcile}

-- Whether the outside world may hear of a host.
unfoldable pub is_open : Machine → Box → Host → Bool
is_open m b h = assigned b && is_free (suppressed m h)

-- The table: what is reported after a host has been observed in a state, and what is announced.
unfoldable pub next_report : HostState → HostState → HostState
next_report up r = up
next_report down r = down
next_report _ r = r

unfoldable pub announces : HostState → HostState → Option EventType
announces up down = some host_up
announces down down = none
announces down _ = some host_down
announces _ _ = none

unfoldable pub reported_host : Machine → Box → Host → Host
unfolding next_report
reported_host m b h =
    if is_open m b h then record h { reported = next_report h.observed h.reported } else h

unfoldable pub announced : Machine → Box → Host → Time → Option Event
unfolding announces
announced m b h at =
    if is_open m b h
    then Option.map (λ t. host_event b h t at) (announces h.observed h.reported)
    else none

-- Whether the machine writes the host at all.
abbrev moves : HostState → HostState → Bool
moves up up = false
moves up _ = true
moves down down = false
moves down _ = true
moves _ _ = false

host_event-reported :
    (b : Box) (h : Host) (r : HostState) (t : EventType) (at : Time)
    → host_event b (record h { reported = r }) t at ≡ host_event b h t at
unfolding host_event
host_event-reported b h r host_down at = refl
host_event-reported b h r _ at = refl

settle_table :
    (m : Machine) (b : Box) (h : Host) (at : Time) (o r : HostState)
    → h.observed ≡ o
    → h.reported ≡ r
    → settle m b h at ≡ (
      (if moves o r then store_host m (record h { reported = next_report o r }) else m),
      Option.map (λ t. host_event b h t at) (announces o r),
    )
unfolding settle next_report announces
settle_table m b h at unset r eo er = ground arith
settle_table m b h at unknown r eo er = ground arith
settle_table m b h at up unset eo er = ground (arith, host_event-reported b h up host_up at)
settle_table m b h at up unknown eo er = ground (arith, host_event-reported b h up host_up at)
settle_table m b h at up up eo er = ground (arith, host_event-reported b h up host_up at)
settle_table m b h at up down eo er = ground (arith, host_event-reported b h up host_up at)
settle_table m b h at down unset eo er = ground (arith, host_event-reported b h down host_down at)
settle_table m b h at down unknown eo er = ground (arith, host_event-reported b h down host_down at)
settle_table m b h at down up eo er = ground (arith, host_event-reported b h down host_down at)
settle_table m b h at down down eo er = ground (arith, host_event-reported b h down host_down at)

unknown_settles :
    (m : Machine) (b : Box) (h : Host) (at : Time)
    → is_unknown h.observed ≡ true
    → settle m b h at ≡ (m, none)
unfolding settle
unknown_settles m b h at e = ground arith

open_settles :
    (m : Machine) (b : Box) (h : Host) (at : Time)
    → is_open m b h ≡ true
    → reconcile m b h at ≡ settle m b h at
unfolding reconcile is_open
open_settles m b h at e = ground (arith, unknown_settles m b h at)

pub closed_stays :
    (m : Machine) (b : Box) (h : Host) (at : Time)
    → is_open m b h ≡ false
    → reconcile m b h at ≡ (m, none)
unfolding reconcile is_open
closed_stays m b h at e = ground arith

-- The events of `reconcile`, on every branch.
pub reconcile-announced :
    (m : Machine) (b : Box) (h : Host) (at : Time) → (reconcile m b h at).1 ≡ announced m b h at
unfolding announced
reconcile-announced m b h at = elim (Bool-cases (is_open m b h)) [
  | inl e ↦ rw e (
      ap (λ (p : Machine × Option Event). p.1)
        (open_settles m b h at e ∙ settle_table m b h at h.observed h.reported refl refl))
  | inr e ↦ rw e (ap (λ (p : Machine × Option Event). p.1) (closed_stays m b h at e))
]

-- The machine that `reconcile` leaves.
abbrev pub Leaves : Machine → Box → Host → Machine → Type 0
Leaves m b h m' =
    ((m' ≡ m) × (reported_host m b h ≡ h))
    ⊎ ((r : HostState) × (m' ≡ store_host m (record h { reported = r }))
        × (reported_host m b h ≡ record h { reported = r }))

table-Leaves :
    (m : Machine) (b : Box) (h : Host) (at : Time) (o r : HostState)
    → h.observed ≡ o
    → h.reported ≡ r
    → is_open m b h ≡ true
    → Leaves m b h (if moves o r then store_host m (record h { reported = next_report o r }) else m)
unfolding reported_host next_report
table-Leaves m b h at unset r eo er e = inl (refl, ground arith)
table-Leaves m b h at unknown r eo er e = inl (refl, ground arith)
table-Leaves m b h at up up eo er e = inl (refl, ground arith)
table-Leaves m b h at down down eo er e = inl (refl, ground arith)
table-Leaves m b h at up unset eo er e = inr (up, refl, ground arith)
table-Leaves m b h at up unknown eo er e = inr (up, refl, ground arith)
table-Leaves m b h at up down eo er e = inr (up, refl, ground arith)
table-Leaves m b h at down unset eo er e = inr (down, refl, ground arith)
table-Leaves m b h at down unknown eo er e = inr (down, refl, ground arith)
table-Leaves m b h at down up eo er e = inr (down, refl, ground arith)

pub reconcile-Leaves :
    (m : Machine) (b : Box) (h : Host) (at : Time) → Leaves m b h (reconcile m b h at).0
unfolding reported_host
reconcile-Leaves m b h at = elim (Bool-cases (is_open m b h)) [
  | inl e ↦
      rw (open_settles m b h at e ∙ settle_table m b h at h.observed h.reported refl refl)
        (table-Leaves m b h at h.observed h.reported refl refl e)
  | inr e ↦ inl (ap (λ (p : Machine × Option Event). p.0) (closed_stays m b h at e), rw e)
]
