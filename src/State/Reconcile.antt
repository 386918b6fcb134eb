-- ===== src/State/Reconcile.antt =====
-- state.go: reporting what was observed, one host and one box at a time.
use excubra.Prelude.{
  String, Bool, not, ◌&&◌, ◌||◌, Option, none, some, List, [], ◌∷◌, ◌==◌, ltb, ℤ, pos, str_eq,
  str_lt, if◌then◌else◌, add, select, sort_by, map,
}
use excubra.GoMap.{lookup, insert, values}
use excubra.GoTime.{Time, is_zero, time_sub, seconds}
use excubra.Event.{
  Event, EventType, Value, host_down, host_up, source_state, number, texts, instant,
}
use excubra.Event
use excubra.State.Types.{Box, Host, Machine, up, down, is_up, is_down, is_unknown, assigned}
use excubra.State.Suppress.{suppressed, is_free, depth}

abbrev pub down_for : Host → ℤ
down_for h = if is_zero h.down_since then pos 0 else seconds (time_sub h.since h.down_since)

unfoldable pub host_details : Host → EventType → List (String × Value)
host_details h host_down =
    ("checks_failed", texts h.last_failed_checks)
    ∷ ("consecutive_failures", number (pos h.failures))
    ∷ ("box_time", instant h.last_box_time)
    ∷ []
host_details h host_up =
    ("down_for_s", number (down_for h))
    ∷ ("consecutive_successes", number (pos h.successes))
    ∷ ("box_time", instant h.last_box_time)
    ∷ []
host_details h _ = []

unfoldable pub host_event : Box → Host → EventType → Time → Event
unfolding host_details Event.new
host_event b h t at = record (Event.new t at) {
  source = source_state;
  tenant_id = b.tenant_id;
  site_id = b.site_id;
  box_id = b.id;
  host_id = h.id;
  host = some h.ref;
  since = some h.since;
  details = host_details h t;
}

-- Writes the host and marks it.
unfoldable pub store_host : Machine → Host → Machine
store_host m h = record m { hosts = insert h.id h m.hosts; dirty_hosts = add h.id m.dirty_hosts }

-- The `switch` of `reconcile`.
unfoldable pub settle : Machine → Box → Host → Time → Machine × Option Event
settle m b h at =
    let raised = record h { reported = up } in
    let lowered = record h { reported = down } in
    if is_up h.observed && is_down h.reported
    then (store_host m raised, some (host_event b raised host_up at))
    else if is_up h.observed
    then (if not (is_up h.reported) then store_host m raised else m, none)
    else if is_down h.observed && not (is_down h.reported)
    then (store_host m lowered, some (host_event b lowered host_down at))
    else (m, none)

unfoldable pub reconcile : Machine → Box → Host → Time → Machine × Option Event
reconcile m b h at =
    if (not (assigned b) || not (is_free (suppressed m h))) || is_unknown h.observed
    then (m, none)
    else settle m b h at

-- Ancestors first, and by id among equals.
unfoldable pub host_before : Machine → Host → Host → Bool
unfolding depth
host_before m x y =
    let dx = depth m x in let dy = depth m y in if dx == dy then str_lt x.id y.id else ltb dx dy

abbrev pub host_ids : List Host → List String
host_ids = map (λ h. h.id)

-- The hosts of a box in the order of `reconcileBox`, by id: a pointer is followed by a lookup.
unfoldable pub box_hosts : Machine → String → List String
box_hosts m box_id =
    host_ids (sort_by (host_before m) (select (λ h. str_eq h.box_id box_id) (values m.hosts)))

abbrev pub cons_event : Option Event → List Event → List Event
cons_event none evs = evs
cons_event (some ev) evs = ev ∷ evs

unfoldable pub reconcile_id : Machine → Box → String → Time → Machine × Option Event
reconcile_id m b id at = elim (lookup id m.hosts) [ none ↦ (m, none) | some h ↦ reconcile m b h at ]

unfoldable pub reconcile_all : Machine → Box → List String → Time → Machine × List Event
reconcile_all m b [] at = (m, [])
reconcile_all m b (id ∷ ids) at =
    let (m1, ev) = reconcile_id m b id at in
    let (m2, evs) = reconcile_all m1 b ids at in (m2, cons_event ev evs)

unfoldable pub reconcile_box : Machine → String → Time → Machine × List Event
reconcile_box m box_id at = elim (lookup box_id m.boxes) [
  | none ↦ (m, [])
  | some b ↦ reconcile_all m b (box_hosts m box_id) at
]

unfoldable pub set_host_topology : Machine → String → String → Bool → Time → Machine × List Event
set_host_topology m host_id parent_id is_uplink at = elim (lookup host_id m.hosts) [
  | none ↦ (m, [])
  | some h ↦
      reconcile_box
        (record m {
          hosts =
              insert host_id (record h { parent_id = parent_id; is_uplink = is_uplink }) m.hosts;
          dirty_hosts = add host_id m.dirty_hosts;
        })
        h.box_id at
]
