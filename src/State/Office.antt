-- ===== src/State/Office.antt =====
-- A machine for the tests: a box with a gateway that is down and what hangs on it, and another box.
use excubra.Prelude.{ℕ, refl, String, Bool, true, false, none, List, [], ◌∷◌, pos, ◌*◌}
use excubra.GoTime.{Time, second, zero_time}
use excubra.Wire.{Round, HostReport}
use excubra.State.Types.{Box, Host, HostState, Maintenance, Machine, up, down, online, host}
use excubra.State.Wellformed.{WellFormed}

abbrev pub clock : ℕ → Time
clock n = n * second

abbrev pub box_of : String → Box
box_of id = record {
  id = id;
  tenant_id = "acme";
  site_id = "berlin";
  heartbeat_interval = pos (60 * second);
  status = online;
  last_heartbeat = clock 1000;
  silent_since = zero_time;
  agent_version = "0.9.0";
}

abbrev pub host_of : String → String → String → HostState → HostState → Host
host_of id box_id parent_id observed reported = record {
  id = id;
  box_id = box_id;
  parent_id = parent_id;
  is_uplink = false;
  ref = record { name = id; ip = "10.0.0.1"; mac = ""; vendor = "" };
  observed = observed;
  reported = reported;
  failures = 0;
  successes = 0;
  since = clock 900;
  run_start = clock 900;
  down_since = clock 900;
  last_failed_checks = [];
  last_checks = [];
  last_box_time = clock 900;
}

abbrev pub gateway : Host
gateway = host_of "gateway" "north" "" down up

abbrev pub printer : Host
printer = host_of "printer" "north" "gateway" down up

abbrev pub camera : Host
camera = host_of "camera" "south" "" up down

abbrev pub repair : Maintenance
repair = record {
  id = "mnt_1";
  scope = host;
  target_id = "camera";
  tenant_id = "acme";
  site_id = "berlin";
  until = clock 2000;
  reason = "lens";
  set_by = "ops";
}

abbrev pub office : Machine
office = record {
  boxes = ("north", box_of "north") ∷ ("south", box_of "south") ∷ [];
  hosts = ("printer", printer) ∷ ("gateway", gateway) ∷ ("camera", camera) ∷ [];
  maint = ("mnt_1", repair) ∷ [];
  dirty_hosts = [];
  dirty_boxes = [];
}

pub office-WellFormed : WellFormed office
office-WellFormed = record {
  boxes_unique = ((refl, tt), (tt, tt));
  hosts_unique = ((refl, (refl, tt)), ((refl, tt), (tt, tt)));
  maint_unique = (tt, tt);
  boxes_entries = (
    (refl, record { interval_pos = (59_999_999_999, refl); has_status = refl }),
    ((refl, record { interval_pos = (59_999_999_999, refl); has_status = refl }), tt),
  );
  hosts_entries = (
    (refl, record { observed_set = refl; reported_set = refl }),
    (
      (refl, record { observed_set = refl; reported_set = refl }),
      ((refl, record { observed_set = refl; reported_set = refl }), tt),
    ),
  );
  maint_entries = (refl, tt);
}

abbrev pub round_of : ℕ → Bool → Round
round_of n ok = record {
  at = clock n;
  ok = ok;
  checks = record { type = "ping"; ok = ok; error = ""; latency_ms = none; status = pos 0 } ∷ [];
}

abbrev pub reports : List HostReport
reports =
    record { host_id = "printer"; rounds = round_of 1001 true ∷ round_of 1002 true ∷ [] }
    ∷ record { host_id = "camera"; rounds = round_of 1001 false ∷ [] }
    ∷ []
