-- ===== src/State/Wellformed.antt =====
-- What holds of every machine that the operations build.
use excubra.Prelude.{ℕ, suc, ◌≡◌, String, false, pos}
use excubra.GoMap.{Unique, Entries, Entries-lookup}
use excubra.State.Types.{Box, Host, Maintenance, Machine, is_unset, has_no_status}
use excubra.State.Sweep.{Keyed}

-- A stored box has a status and an interval that a duration may be divided by.
pub record IsReady (b : Box) : Type 0 where
  pub interval_pos : (n : ℕ) × (b.heartbeat_interval ≡ pos (suc n))
  pub has_status : has_no_status b.status ≡ false

pub record IsStored (h : Host) : Type 0 where
  pub observed_set : is_unset h.observed ≡ false
  pub reported_set : is_unset h.reported ≡ false

abbrev pub BoxEntry : String → Box → Type 0
BoxEntry k b = (b.id ≡ k) × IsReady b

abbrev pub HostEntry : String → Host → Type 0
HostEntry k h = (h.id ≡ k) × IsStored h

abbrev pub WindowEntry : String → Maintenance → Type 0
WindowEntry k w = w.id ≡ k

-- Every entry stands once, under its own id.
pub record WellFormed (m : Machine) : Type 0 where
  pub boxes_unique : Unique m.boxes
  pub hosts_unique : Unique m.hosts
  pub maint_unique : Unique m.maint
  pub boxes_entries : Entries BoxEntry m.boxes
  pub hosts_entries : Entries HostEntry m.hosts
  pub maint_entries : Entries WindowEntry m.maint

pub WellFormed-Keyed : (m : Machine) → WellFormed m → Keyed m
WellFormed-Keyed m v k h e = (Entries-lookup HostEntry k m.hosts h v.hosts_entries e).0
