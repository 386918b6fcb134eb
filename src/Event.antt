-- ===== src/Event.antt =====
-- internal/event/event.go: the event envelope. The event's id is random and is read by nothing in
-- the modelled code; the record leaves it out.
use excubra.Prelude.{String, Bool, true, false, Option, none, List, [], ℤ}
use excubra.GoTime.{Time}

pub data EventType : Type 0 where
  box_silent box_back host_down host_up device_new device_gone : EventType
  maintenance_started maintenance_ended test_ping security_alert : EventType
  other : String → EventType

pub data Severity : Type 0 where
  info warning critical : Severity

unfoldable pub default_severity : EventType → Severity
default_severity box_silent = critical
default_severity host_down = warning
default_severity security_alert = warning
default_severity _ = info

unfoldable pub is_valid : EventType → Bool
is_valid (other s) = false
is_valid _ = true

pub data Source : Type 0 where
  no_source source_state source_maintenance source_discovery : Source
  source_signals source_app source_console : Source

pub record HostRef : Type 0 where
  pub name : String
  pub ip : String
  pub mac : String
  pub vendor : String

pub record DeviceRef : Type 0 where
  pub ip : String
  pub mac : String
  pub vendor : String
  pub hostname : String
  pub first_seen : Option Time
  pub last_seen : Option Time

pub record MaintenanceRef : Type 0 where
  pub scope : String
  pub until : Option Time
  pub reason : String
  pub set_by : String
  pub ended : String

-- The values that `details` holds under its keys.
pub data Value : Type 0 where
  number : ℤ → Value
  text : String → Value
  texts : List String → Value
  instant : Time → Value

pub record Event : Type 0 where
  pub type : EventType
  pub severity : Severity
  pub occurred_at : Time
  pub received_at : Time
  pub since : Option Time
  pub tenant_id : String
  pub site_id : String
  pub box_id : String
  pub host_id : String
  pub device_id : String
  pub source : Source
  pub host : Option HostRef
  pub device : Option DeviceRef
  pub maintenance : Option MaintenanceRef
  pub details : List (String × Value)
  pub link : String

-- `New`; an instant is the same in every time zone, so `UTC()` keeps it.
unfoldable pub new : EventType → Time → Event
unfolding default_severity
new t at = record {
  type = t;
  severity = default_severity t;
  occurred_at = at;
  received_at = at;
  since = none;
  tenant_id = "";
  site_id = "";
  box_id = "";
  host_id = "";
  device_id = "";
  source = no_source;
  host = none;
  device = none;
  maintenance = none;
  details = [];
  link = "";
}
