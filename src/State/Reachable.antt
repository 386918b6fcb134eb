-- ===== src/State/Reachable.antt =====
-- The machines that sequences of calls can lead to.
use excubra.Prelude.{
  ◌≡◌, refl, inl, inr, String, Bool, Option, some, List, [], ◌∷◌, ◌++◌, add, Option-cases, ◌>>=◌,
}
use excubra.GoMap.{lookup, erase, values}
use excubra.GoTime.{Time}
use excubra.Wire.{HostReport}
use excubra.Event.{Event}
use excubra.State.Types.{Box, Host, Maintenance, Machine, new}
use excubra.State.Topology.{
  put_box, remove_box, put_host, remove_host, put_maintenance, assign_box, unassign_box,
}
use excubra.State.Reconcile.{set_host_topology}
use excubra.State.Inputs.{heartbeat, tick, start_maintenance, end_maintenance, touch, drain_dirty}
use excubra.State.Wellformed.{WellFormed}
use excubra.State.Preserve.{
  put_box-WellFormed, remove_box-WellFormed, put_host-WellFormed, remove_host-WellFormed,
  put_maintenance-WellFormed, write_host, erase_window,
}
use excubra.State.Invariant.{
  host_entry, bind_box-WellFormed, reconcile_box-WellFormed, reconcile_touched-WellFormed,
}
use excubra.State.Totality.{heartbeat-WellFormed, tick_total}

-- The calls of the exported methods that change a machine.
pub data Call : Type 0 where
  puts_box : Box → Call
  removes_box : String → Call
  puts_host : Host → Call
  removes_host : String → Call
  puts_maintenance : Maintenance → Call
  assigns_box : String → String → String → Call
  unassigns_box : String → Call
  sets_topology : String → String → Bool → Time → Call
  beats : String → Time → String → List HostReport → Call
  ticks : Time → Call
  starts_maintenance : Maintenance → Time → Call
  ends_maintenance : String → Time → Call
  drains_dirty : Call

-- One call: the machine after it and the events it returns; `none` if it panics.
unfoldable pub call : Machine → Call → Option (Machine × List Event)
call m (puts_box b) = some (put_box m b, [])
call m (removes_box id) = some (remove_box m id, [])
call m (puts_host h) = some (put_host m h, [])
call m (removes_host id) = some (remove_host m id, [])
call m (puts_maintenance w) = some (put_maintenance m w, [])
call m (assigns_box id tenant site) = some (assign_box m id tenant site, [])
call m (unassigns_box id) = some (unassign_box m id, [])
call m (sets_topology id parent up at) = some (set_host_topology m id parent up at)
call m (beats id at ver reps) = some (heartbeat m id at ver reps)
call m (ticks at) = tick m at
call m (starts_maintenance w at) = some (start_maintenance m w at)
call m (ends_maintenance id at) = some (end_maintenance m id at)
call m drains_dirty = some ((drain_dirty m).0, [])

unfoldable pub run : Machine → List Call → Option (Machine × List Event)
run m [] = some (m, [])
run m (c ∷ cs) = do (m1, evs) ← call m c; (m2, more) ← run m1 cs; some (m2, evs ++ more)

pub new-WellFormed : WellFormed new
unfolding new
new-WellFormed = record {
  boxes_unique = tt;
  hosts_unique = tt;
  maint_unique = tt;
  boxes_entries = tt;
  hosts_entries = tt;
  maint_entries = tt;
}

set_host_topology-WellFormed :
    (m : Machine) (id parent : String) (up : Bool) (at : Time)
    → WellFormed m
    → WellFormed (set_host_topology m id parent up at).0
unfolding set_host_topology
set_host_topology-WellFormed m id parent up at v = elim (Option-cases (lookup id m.hosts)) [
  | inl e ↦ rw (e, set_host_topology) v
  | inr (h, e) ↦
      let (same, stored) = host_entry v id e in
      rw (e, set_host_topology)
        (reconcile_box-WellFormed _ h.box_id at (
          write_host m v id (record h { parent_id = parent; is_uplink = up }) (add id m.dirty_hosts)
            (
              same,
              record { observed_set = stored.observed_set; reported_set = stored.reported_set },
            )))
]

pub start_maintenance-WellFormed :
    (m : Machine) (w : Maintenance) (at : Time)
    → WellFormed m
    → WellFormed (start_maintenance m w at).0
unfolding start_maintenance put_maintenance
start_maintenance-WellFormed m w at v = elim (Option-cases (lookup w.id m.maint)) [
  | inl e ↦ rw (e, start_maintenance) (put_maintenance-WellFormed m v w)
  | inr (old, e) ↦ rw (e, start_maintenance) (put_maintenance-WellFormed m v w)
]

end_maintenance-WellFormed :
    (m : Machine) (id : String) (at : Time) → WellFormed m → WellFormed (end_maintenance m id at).0
unfolding end_maintenance
end_maintenance-WellFormed m id at v = elim (Option-cases (lookup id m.maint)) [
  | inl e ↦ rw (e, end_maintenance) v
  | inr (w, e) ↦
      let m1 = record m { maint = erase id m.maint } in
      rw (e, end_maintenance)
        (reconcile_touched-WellFormed m1 (touch m1 w (values m1.hosts) []) at (erase_window m v id))
]

drain_dirty-WellFormed : (m : Machine) → WellFormed m → WellFormed (drain_dirty m).0
unfolding drain_dirty
drain_dirty-WellFormed m v = record {
  boxes_unique = v.boxes_unique;
  hosts_unique = v.hosts_unique;
  maint_unique = v.maint_unique;
  boxes_entries = v.boxes_entries;
  hosts_entries = v.hosts_entries;
  maint_entries = v.maint_entries;
}

abbrev Returns : Option (Machine × List Event) → Type 0
Returns r = (m' : Machine) × (evs : List Event) × (r ≡ some (m', evs)) × WellFormed m'

call_total : (m : Machine) (c : Call) → WellFormed m → Returns (call m c)
unfolding call assign_box unassign_box
call_total m (puts_box b) v = (_, _, refl, put_box-WellFormed m v b)
call_total m (removes_box id) v = (_, _, refl, remove_box-WellFormed m v id)
call_total m (puts_host h) v = (_, _, refl, put_host-WellFormed m v h)
call_total m (removes_host id) v = (_, _, refl, remove_host-WellFormed m v id)
call_total m (puts_maintenance w) v = (_, _, refl, put_maintenance-WellFormed m v w)
call_total m (assigns_box id tenant site) v = (_, _, refl, bind_box-WellFormed m id tenant site v)
call_total m (unassigns_box id) v = (_, _, refl, bind_box-WellFormed m id "" "" v)
call_total m (sets_topology id parent up at) v =
    (_, _, refl, set_host_topology-WellFormed m id parent up at v)
call_total m (beats id at ver reps) v = (_, _, refl, heartbeat-WellFormed m id at ver reps v)
call_total m (ticks at) v = tick_total m at v
call_total m (starts_maintenance w at) v = (_, _, refl, start_maintenance-WellFormed m w at v)
call_total m (ends_maintenance id at) v = (_, _, refl, end_maintenance-WellFormed m id at v)
call_total m drains_dirty v = (_, _, refl, drain_dirty-WellFormed m v)

run_total : (m : Machine) (cs : List Call) → WellFormed m → Returns (run m cs)
unfolding run
run_total m [] v = (m, [], refl, v)
run_total m (c ∷ cs) v =
    let (m1, evs, e1, v1) = call_total m c v in
    let (m2, more, e2, v2) = run_total m1 cs v1 in (m2, evs ++ more, rw (e1, run) (rw e2), v2)

-- Any sequence of calls on a new machine returns, without a division by zero, and leaves every
-- box, host and window stored once, under its own id, each box with a positive interval.
pub run-new_total :
    (cs : List Call)
    → (m : Machine) × (evs : List Event) × (run new cs ≡ some (m, evs)) × WellFormed m
run-new_total cs = run_total new cs new-WellFormed
