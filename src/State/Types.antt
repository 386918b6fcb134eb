-- ===== src/State/Types.antt =====
-- internal/server/state/state.go: the data of the state machine. A Go string type with named
-- constants is a data type; its empty string is `unset`.
use excubra.Prelude.{
  ℕ, suc, ◌+◌, ◌*◌, String, Bool, true, false, not, ◌&&◌, List, [], pos, int64, str_eq,
}
use excubra.GoMap.{Map}
use excubra.GoTime.{Time, Duration, second}
use excubra.Wire.{CheckResult}
use excubra.Event.{HostRef}

pub data HostState : Type 0 where
  unset unknown up down : HostState

abbrev pub is_unset : HostState → Bool
is_unset unset = true
is_unset _ = false

abbrev pub is_unknown : HostState → Bool
is_unknown unknown = true
is_unknown _ = false

abbrev pub is_up : HostState → Bool
is_up up = true
is_up _ = false

abbrev pub is_down : HostState → Bool
is_down down = true
is_down _ = false

pub data BoxStatus : Type 0 where
  no_status online silent : BoxStatus

abbrev pub is_silent : BoxStatus → Bool
is_silent silent = true
is_silent _ = false

abbrev pub is_online : BoxStatus → Bool
is_online online = true
is_online _ = false

abbrev pub has_no_status : BoxStatus → Bool
has_no_status no_status = true
has_no_status _ = false

abbrev pub failures_to_down : ℕ
failures_to_down = 3

abbrev pub successes_to_up : ℕ
successes_to_up = 2

abbrev pub missed_heartbeats_to_silent : ℕ
missed_heartbeats_to_silent = 3

abbrev pub silence_grace : ℕ
silence_grace = 30 * second

abbrev pub default_heartbeat_interval : ℕ
default_heartbeat_interval = 60 * second

pub record Box : Type 0 where
  pub id : String
  pub tenant_id : String
  pub site_id : String
  pub heartbeat_interval : Duration
  pub status : BoxStatus
  pub last_heartbeat : Time
  pub silent_since : Time
  pub agent_version : String

unfoldable pub assigned : Box → Bool
assigned b = not (str_eq b.site_id "") && not (str_eq b.tenant_id "")

-- `hb <= 0` is replaced by the default, so what is left is positive.
abbrev pub positive_interval : Duration → ℕ
positive_interval (pos (suc n)) = suc n
positive_interval _ = default_heartbeat_interval

-- The product and the sum are those of int64.
unfoldable pub silence_after : Box → Duration
silence_after b =
    int64 (missed_heartbeats_to_silent * positive_interval b.heartbeat_interval + silence_grace)

pub record Host : Type 0 where
  pub id : String
  pub box_id : String
  pub parent_id : String
  pub is_uplink : Bool
  pub ref : HostRef
  pub observed : HostState
  pub reported : HostState
  pub failures : ℕ  -- an int: 2 ^ 63 rounds do not happen
  pub successes : ℕ
  pub since : Time
  pub run_start : Time
  pub down_since : Time
  pub last_failed_checks : List String
  pub last_checks : List CheckResult
  pub last_box_time : Time

pub data Scope : Type 0 where
  tenant site host : Scope
  other : String → Scope

abbrev pub scope_text : Scope → String
scope_text tenant = "tenant"
scope_text site = "site"
scope_text host = "host"
scope_text (other s) = s

abbrev pub is_host_scope : Scope → Bool
is_host_scope host = true
is_host_scope _ = false

pub record Maintenance : Type 0 where
  pub id : String
  pub scope : Scope
  pub target_id : String
  pub tenant_id : String
  pub site_id : String
  pub until : Time
  pub reason : String
  pub set_by : String

pub record Machine : Type 0 where
  pub boxes : Map Box
  pub hosts : Map Host
  pub maint : Map Maintenance
  pub dirty_hosts : List String
  pub dirty_boxes : List String

unfoldable pub new : Machine
new = record { boxes = []; hosts = []; maint = []; dirty_hosts = []; dirty_boxes = [] }
