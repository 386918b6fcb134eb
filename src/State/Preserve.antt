-- ===== src/State/Preserve.antt =====
-- The loading operations and the parts of the inputs keep a machine well formed.
use excubra.Prelude.{
  ℕ, zero, suc, ◌≡◌, refl, String, List, arith, str_eq, if◌then◌else◌, pos, negsuc,
}
use excubra.GoMap.{
  Map, insert, erase, map_values, Unique, Entries, insert-Unique, insert-Entries, erase-Unique,
  erase-Entries, erase_if-Unique, erase_if-Entries, map_values-Unique, map_values-Entries,
}
use excubra.GoTime.{Time, Duration}
use excubra.Wire.{Round}
use excubra.State.Types.{Box, Host, Maintenance, Machine, positive_interval}
use excubra.State.Topology.{
  put_box, remove_box, put_host, remove_host, put_maintenance, with_defaults, host_with_defaults,
  reset_host, reset_hosts,
}
use excubra.State.Round.{round_host}
use excubra.State.Wellformed.{WellFormed, IsReady, IsStored, BoxEntry, HostEntry, WindowEntry}

module _ (m : Machine) (v : WellFormed m) where
  pub with_hosts :
      (hosts : Map Host) (dirty : List String)
      → Unique hosts
      → Entries HostEntry hosts
      → WellFormed (record m { hosts = hosts; dirty_hosts = dirty })
  with_hosts hosts dirty u e = record {
    boxes_unique = v.boxes_unique;
    hosts_unique = u;
    maint_unique = v.maint_unique;
    boxes_entries = v.boxes_entries;
    hosts_entries = e;
    maint_entries = v.maint_entries;
  }

  pub with_boxes :
      (boxes : Map Box) (dirty : List String)
      → Unique boxes
      → Entries BoxEntry boxes
      → WellFormed (record m { boxes = boxes; dirty_boxes = dirty })
  with_boxes boxes dirty u e = record {
    boxes_unique = u;
    hosts_unique = v.hosts_unique;
    maint_unique = v.maint_unique;
    boxes_entries = e;
    hosts_entries = v.hosts_entries;
    maint_entries = v.maint_entries;
  }

  pub with_maint :
      (maint : Map Maintenance)
      → Unique maint
      → Entries WindowEntry maint
      → WellFormed (record m { maint = maint })
  with_maint maint u e = record {
    boxes_unique = v.boxes_unique;
    hosts_unique = v.hosts_unique;
    maint_unique = u;
    boxes_entries = v.boxes_entries;
    hosts_entries = v.hosts_entries;
    maint_entries = e;
  }

  pub store_box :
      (k : String) (b : Box) (dirty : List String)
      → BoxEntry k b
      → WellFormed (record m { boxes = insert k b m.boxes; dirty_boxes = dirty })
  store_box k b dirty e =
      with_boxes (insert k b m.boxes) dirty (insert-Unique k b m.boxes v.boxes_unique)
        (insert-Entries BoxEntry k b m.boxes e v.boxes_entries)

  pub write_host :
      (k : String) (h : Host) (dirty : List String)
      → HostEntry k h
      → WellFormed (record m { hosts = insert k h m.hosts; dirty_hosts = dirty })
  write_host k h dirty e =
      with_hosts (insert k h m.hosts) dirty (insert-Unique k h m.hosts v.hosts_unique)
        (insert-Entries HostEntry k h m.hosts e v.hosts_entries)

  pub erase_window : (k : String) → WellFormed (record m { maint = erase k m.maint })
  erase_window k =
      with_maint (erase k m.maint) (erase-Unique k m.maint v.maint_unique)
        (erase-Entries WindowEntry k m.maint v.maint_entries)

  pub put_maintenance-WellFormed : (w : Maintenance) → WellFormed (put_maintenance m w)
  unfolding put_maintenance
  put_maintenance-WellFormed w =
      with_maint (insert w.id w m.maint) (insert-Unique w.id w m.maint v.maint_unique)
        (insert-Entries WindowEntry w.id w m.maint refl v.maint_entries)

positive_interval_pos : (d : Duration) → (n : ℕ) × (pos (positive_interval d) ≡ pos (suc n))
positive_interval_pos (pos zero) = (59_999_999_999, refl)
positive_interval_pos (pos (suc n)) = (n, refl)
positive_interval_pos (negsuc n) = (59_999_999_999, refl)

with_defaults-IsReady : (b : Box) → IsReady (with_defaults b)
unfolding with_defaults
with_defaults-IsReady b = record {
  interval_pos = positive_interval_pos b.heartbeat_interval;
  has_status = ground arith;
}

host_with_defaults-IsStored : (h : Host) → IsStored (host_with_defaults h)
unfolding host_with_defaults
host_with_defaults-IsStored h = ground arith

pub round_host-HostEntry :
    (k : String) (h : Host) (r : Round) (at : Time)
    → HostEntry k h
    → HostEntry k (round_host h r at)
unfolding round_host
round_host-HostEntry k h r at e = ground arith

module _ (m : Machine) (v : WellFormed m) where
  pub put_box-WellFormed : (b : Box) → WellFormed (put_box m b)
  unfolding put_box with_defaults
  put_box-WellFormed b =
      store_box m v b.id (with_defaults b) m.dirty_boxes (refl, with_defaults-IsReady b)

  pub put_host-WellFormed : (h : Host) → WellFormed (put_host m h)
  unfolding put_host host_with_defaults
  put_host-WellFormed h =
      write_host m v h.id (host_with_defaults h) m.dirty_hosts (refl, host_with_defaults-IsStored h)

  pub remove_host-WellFormed : (id : String) → WellFormed (remove_host m id)
  unfolding remove_host
  remove_host-WellFormed id =
      with_hosts m v (erase id m.hosts) m.dirty_hosts (erase-Unique id m.hosts v.hosts_unique)
        (erase-Entries HostEntry id m.hosts v.hosts_entries)

  pub remove_box-WellFormed : (id : String) → WellFormed (remove_box m id)
  unfolding remove_box
  remove_box-WellFormed id = record {
    boxes_unique = erase-Unique id m.boxes v.boxes_unique;
    hosts_unique = erase_if-Unique (λ h. str_eq h.box_id id) m.hosts v.hosts_unique;
    maint_unique = v.maint_unique;
    boxes_entries = erase-Entries BoxEntry id m.boxes v.boxes_entries;
    hosts_entries = erase_if-Entries HostEntry (λ h. str_eq h.box_id id) m.hosts v.hosts_entries;
    maint_entries = v.maint_entries;
  }

  pub reset_hosts-WellFormed : (box_id : String) → WellFormed (reset_hosts m box_id)
  unfolding reset_hosts
  reset_hosts-WellFormed box_id =
      let reset = λ (h : Host). if str_eq h.box_id box_id then reset_host h else h in
      with_hosts m v (map_values reset m.hosts) _ (map_values-Unique reset m.hosts v.hosts_unique)
        (map_values-Entries HostEntry reset m.hosts (λ k h e. ground arith) v.hosts_entries)
