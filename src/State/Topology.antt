-- ===== src/State/Topology.antt =====
-- state.go: loading boxes, hosts and windows, and binding a box to a site.
use excubra.Prelude.{String, none, some, List, [], ◌∷◌, pos, str_eq, if◌then◌else◌, add}
use excubra.GoMap.{Map, lookup, insert, erase, erase_if, map_values}
use excubra.GoTime.{zero_time}
use excubra.State.Types.{
  Box, Host, Maintenance, Machine, unknown, online, is_unset, has_no_status, positive_interval,
}

-- The defaults that `PutBox` fills in.
unfoldable pub with_defaults : Box → Box
with_defaults b = record b {
  status = if has_no_status b.status then online else b.status;
  heartbeat_interval = pos (positive_interval b.heartbeat_interval);
}

unfoldable pub put_box : Machine → Box → Machine
unfolding with_defaults
put_box m b = record m { boxes = insert b.id (with_defaults b) m.boxes }

unfoldable pub remove_box : Machine → String → Machine
remove_box m id = record m {
  boxes = erase id m.boxes;
  hosts = erase_if (λ h. str_eq h.box_id id) m.hosts;
}

unfoldable pub host_with_defaults : Host → Host
host_with_defaults h = record h {
  observed = if is_unset h.observed then unknown else h.observed;
  reported = if is_unset h.reported then unknown else h.reported;
}

unfoldable pub put_host : Machine → Host → Machine
unfolding host_with_defaults
put_host m h = record m { hosts = insert h.id (host_with_defaults h) m.hosts }

unfoldable pub remove_host : Machine → String → Machine
remove_host m id = record m { hosts = erase id m.hosts }

unfoldable pub put_maintenance : Machine → Maintenance → Machine
put_maintenance m w = record m { maint = insert w.id w m.maint }

unfoldable pub reset_host : Host → Host
reset_host h = record h {
  observed = unknown;
  reported = unknown;
  failures = 0;
  successes = 0;
  since = zero_time;
  run_start = zero_time;
  down_since = zero_time;
  last_failed_checks = [];
  last_checks = [];
  last_box_time = zero_time;
}

-- The ids that the loop over the hosts of a box marks.
abbrev pub mark_hosts : String → Map Host → List String → List String
mark_hosts box_id [] dirty = dirty
mark_hosts box_id ((k, h) ∷ hosts) dirty =
    mark_hosts box_id hosts (if str_eq h.box_id box_id then add h.id dirty else dirty)

-- The loop of `AssignBox` and `UnassignBox` over the hosts of the box.
unfoldable pub reset_hosts : Machine → String → Machine
unfolding reset_host
reset_hosts m box_id = record m {
  hosts = map_values (λ h. if str_eq h.box_id box_id then reset_host h else h) m.hosts;
  dirty_hosts = mark_hosts box_id m.hosts m.dirty_hosts;
}

-- Binding and detaching differ in the ids they write.
unfoldable pub bind_box : Machine → String → String → String → Machine
unfolding reset_hosts
bind_box m box_id tenant_id site_id = elim (lookup box_id m.boxes) [
  | none ↦ m
  | some b ↦
      reset_hosts
        (record m {
          boxes = insert box_id (record b { tenant_id = tenant_id; site_id = site_id }) m.boxes;
          dirty_boxes = add box_id m.dirty_boxes;
        })
        box_id
]

unfoldable pub assign_box : Machine → String → String → String → Machine
unfolding bind_box
assign_box = bind_box

unfoldable pub unassign_box : Machine → String → Machine
unfolding bind_box
unassign_box m box_id = bind_box m box_id "" ""
