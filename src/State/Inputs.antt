-- ===== src/State/Inputs.antt =====
-- state.go: heartbeats, ticks and maintenance windows. The loop over a Go map takes its entries in
-- the order of the list that stands for the map.
use excubra.Prelude.{
  String, Bool, true, false, not, ◌&&◌, Option, none, some, List, [], ◌∷◌, ◌++◌, ℤ, str_eq, str_lt,
  ltb_ℤ, quot, if◌then◌else◌, add, sort_by, ◌>>=◌,
}
use excubra.GoMap.{lookup, insert, erase, values}
use excubra.GoTime.{Time, zero_time, is_zero, after, time_sub, seconds}
use excubra.Wire.{HostReport}
use excubra.Event.{
  Event, EventType, MaintenanceRef, Value, box_silent, box_back, maintenance_started,
  maintenance_ended, source_state, source_maintenance, number, text, instant,
}
use excubra.Event
use excubra.State.Types.{
  Box, Host, Maintenance, Machine, online, silent, is_silent, is_online, assigned, silence_after,
  is_host_scope, scope_text,
}
use excubra.State.Suppress.{Suppression, free, window_covers, in_maintenance, suppressed}
use excubra.State.Round.{apply_rounds}
use excubra.State.Reconcile.{cons_event, reconcile_box}

-- What a heartbeat does to its box, and the event of a silent box that is back.
unfoldable pub back_event : Box → Time → String → Event
unfolding Event.new
back_event b at agent_version = record (Event.new box_back at) {
  source = source_state;
  tenant_id = b.tenant_id;
  site_id = b.site_id;
  box_id = b.id;
  since = some b.silent_since;
  details =
      ("silent_for_s", number (seconds (time_sub at b.silent_since)))
      ∷ ("agent_version", text agent_version)
      ∷ [];
}

unfoldable pub wake : Box → Time → String → Box × Option Event
unfolding back_event assigned
wake b at agent_version =
    let beat = record b { last_heartbeat = at; agent_version = agent_version } in
    if is_silent b.status
    then (
      record beat { status = online; silent_since = zero_time },
      if assigned b then some (back_event b at agent_version) else none,
    )
    else (beat, none)

unfoldable pub apply_report : Machine → String → HostReport → Time → Machine
apply_report m box_id rep at = elim (lookup rep.host_id m.hosts) [
  | none ↦ m
  | some h ↦ if str_eq h.box_id box_id then apply_rounds m h rep.rounds at else m
]

unfoldable pub apply_reports : Machine → String → List HostReport → Time → Machine
apply_reports m box_id [] at = m
apply_reports m box_id (rep ∷ reps) at = apply_reports (apply_report m box_id rep at) box_id reps at

unfoldable pub store_beat : Machine → String → Box → Machine
store_beat m box_id b = record m {
  boxes = insert box_id b m.boxes;
  dirty_boxes = add box_id m.dirty_boxes;
}

unfoldable pub heartbeat : Machine → String → Time → String → List HostReport → Machine × List Event
heartbeat m box_id at agent_version reports = elim (lookup box_id m.boxes) [
  | none ↦ (m, [])
  | some b ↦
      let (b1, ev) = wake b at agent_version in
      let (m2, evs) =
        reconcile_box (apply_reports (store_beat m box_id b1) box_id reports at) box_id at in
      (m2, cons_event ev evs)
]

unfoldable pub maintenance_ended_event : Maintenance → Time → String → Event
unfolding Event.new
maintenance_ended_event w at how = record (Event.new maintenance_ended at) {
  source = source_maintenance;
  tenant_id = w.tenant_id;
  site_id = w.site_id;
  host_id = if is_host_scope w.scope then w.target_id else "";
  maintenance = some (record {
    scope = scope_text w.scope;
    until = none;
    reason = w.reason;
    set_by = "";
    ended = how;
  });
}

-- The boxes of the hosts that a window covers, added to a set.
abbrev pub touch : Machine → Maintenance → List Host → List String → List String
touch m w [] touched = touched
touch m w (h ∷ hs) touched =
    touch m w hs (if window_covers m w h then add h.box_id touched else touched)

unfoldable pub drop_window : Machine → Maintenance → Machine
drop_window m w = record m { maint = erase w.id m.maint }

-- The loop over the windows: what is left of the machine, the events and the boxes touched.
unfoldable pub expire :
    Machine → List Maintenance → Time → List String → Machine × List Event × List String
expire m [] at touched = (m, [], touched)
expire m (w ∷ ws) at touched = elim (after w.until at) [
  | true ↦ expire m ws at touched
  | false ↦
      let m1 = drop_window m w in
      let (m2, evs, touched2) = expire m1 ws at (touch m1 w (values m1.hosts) touched) in
      (m2, maintenance_ended_event w at "expired" ∷ evs, touched2)
]

unfoldable pub overdue : Box → Time → Bool
unfolding silence_after
overdue b at =
    (is_online b.status && not (is_zero b.last_heartbeat))
    && not (ltb_ℤ (time_sub at b.last_heartbeat) (silence_after b))

unfoldable pub silent_event : Box → Time → ℤ → Event
unfolding Event.new
silent_event b at missed = record (Event.new box_silent at) {
  source = source_state;
  tenant_id = b.tenant_id;
  site_id = b.site_id;
  box_id = b.id;
  since = some b.last_heartbeat;
  details =
      ("missed_heartbeats", number missed) ∷ ("last_heartbeat_at", instant b.last_heartbeat) ∷ [];
}

unfoldable pub silence : Box → Box
silence b = record b { status = silent; silent_since = b.last_heartbeat }

unfoldable pub mark_silent : Machine → Box → Machine
mark_silent m b = record m {
  boxes = insert b.id (silence b) m.boxes;
  dirty_boxes = add b.id m.dirty_boxes;
}

-- One round of the silence loop; `none` is the panic of a division by an interval of 0.
unfoldable pub silence_box : Machine → Box → Time → Option (Machine × Option Event)
silence_box m b at =
    if not (overdue b at)
    then some (m, none)
    else if not (assigned b)
    then some (mark_silent m b, none)
    else do
      missed ← quot (time_sub at b.last_heartbeat) b.heartbeat_interval
      some (mark_silent m b, some (silent_event b at missed))

unfoldable pub silence_boxes : Machine → List Box → Time → Option (Machine × List Event)
silence_boxes m [] at = some (m, [])
silence_boxes m (b ∷ bs) at = do
  (m1, ev) ← silence_box m b at
  (m2, evs) ← silence_boxes m1 bs at
  some (m2, cons_event ev evs)

unfoldable pub reconcile_touched : Machine → List String → Time → Machine × List Event
reconcile_touched m [] at = (m, [])
reconcile_touched m (id ∷ ids) at =
    let (m1, evs) = reconcile_box m id at in
    let (m2, more) = reconcile_touched m1 ids at in (m2, evs ++ more)

abbrev pub sorted_maint : Machine → List Maintenance
sorted_maint m = sort_by (λ x y. str_lt x.id y.id) (values m.maint)

abbrev pub sorted_boxes : Machine → List Box
sorted_boxes m = sort_by (λ x y. str_lt x.id y.id) (values m.boxes)

unfoldable pub tick : Machine → Time → Option (Machine × List Event)
tick m at = do
  let expired = expire m (sorted_maint m) at []
  (m2, silenced) ← silence_boxes expired.0 (sorted_boxes expired.0) at
  let settled = reconcile_touched m2 expired.2 at
  some (settled.0, expired.1 ++ (silenced ++ settled.1))

unfoldable pub host_of_window : Machine → Maintenance → Option Host
host_of_window m w = if is_host_scope w.scope then lookup w.target_id m.hosts else none

unfoldable pub maintenance_started_event : Maintenance → Option Host → Time → Event
unfolding Event.new
maintenance_started_event w h at = record (Event.new maintenance_started at) {
  source = source_maintenance;
  tenant_id = w.tenant_id;
  site_id = w.site_id;
  host_id = if is_host_scope w.scope then w.target_id else "";
  box_id = elim h [ none ↦ "" | some h ↦ h.box_id ];
  host = elim h [ none ↦ none | some h ↦ some h.ref ];
  maintenance = some (record {
    scope = scope_text w.scope;
    until = some w.until;
    reason = w.reason;
    set_by = w.set_by;
    ended = "";
  });
}

unfoldable pub start_maintenance : Machine → Maintenance → Time → Machine × List Event
start_maintenance m w at =
    let m1 = record m { maint = insert w.id w m.maint } in
    elim (lookup w.id m.maint) [
      | some old ↦ (m1, [])
      | none ↦ (m1, maintenance_started_event w (host_of_window m w) at ∷ [])
    ]

unfoldable pub end_maintenance : Machine → String → Time → Machine × List Event
end_maintenance m id at = elim (lookup id m.maint) [
  | none ↦ (m, [])
  | some w ↦
      let m1 = record m { maint = erase id m.maint } in
      let (m2, evs) = reconcile_touched m1 (touch m1 w (values m1.hosts) []) at in
      (m2, maintenance_ended_event w at "cleared" ∷ evs)
]

-- Reading the machine.
unfoldable pub find_box : Machine → String → Option Box
find_box m id = lookup id m.boxes

unfoldable pub find_host : Machine → String → Option Host
find_host m id = lookup id m.hosts

unfoldable pub maintenances : Machine → List Maintenance
maintenances = sorted_maint

unfoldable pub in_maintenance_id : Machine → String → Bool
in_maintenance_id m host_id = elim (lookup host_id m.hosts) [
  | none ↦ false
  | some h ↦ in_maintenance m h
]

unfoldable pub suppressed_id : Machine → String → Suppression
suppressed_id m host_id = elim (lookup host_id m.hosts) [ none ↦ free | some h ↦ suppressed m h ]

unfoldable pub hosts : Machine → List Host
hosts m = sort_by (λ x y. str_lt x.id y.id) (values m.hosts)

unfoldable pub drain_dirty : Machine → Machine × List String × List String
drain_dirty m = (
  record m { dirty_hosts = []; dirty_boxes = [] },
  sort_by str_lt m.dirty_hosts,
  sort_by str_lt m.dirty_boxes,
)
