-- ===== src/State/Tests.antt =====
-- Runs of the state machine on the test machine.
use excubra.Prelude.{
  ℕ, ◌≡◌, ◌≢◌, refl, inr, String, true, false, none, some, List, [], ◌∷◌, All, eq_iff,
}
use excubra.GoMap.{lookup}
use excubra.Event.{Event}
use excubra.State.Types.{Host, Machine, down, silent, assigned, new}
use excubra.State.Suppress.{
  window_covers, down_ancestor, in_maintenance, suppressed, uplink, maintenance, free, walk, climb,
}
use excubra.State.Round.{round_host}
use excubra.State.Reconcile.{reconcile_box, box_hosts}
use excubra.State.Inputs.{heartbeat, tick}
use excubra.State.Topology.{reset_host}
use excubra.State.Settle.{reported_host, is_open}
use excubra.State.Sweep.{announcements}
use excubra.State.Ancestors.{first_down, walks_end}
use excubra.State.Uplinks.{down_ancestor_sound, down_ancestor_complete}
use excubra.State.Hysteresis.{play, verdict, History, play-verdict}
use excubra.State.Wellformed.{WellFormed}
use excubra.State.Totality.{tick_total}
use excubra.State.Isolation.{heartbeat_isolated}
use excubra.State.Silence.{silenced}
use excubra.State.Ticks.{tick_table}
use excubra.State.Quiet.{tick_twice}
use excubra.State.Windows.{covered_host_rests}
use excubra.State.Resting.{reconcile_box_agrees}
use excubra.State.Agreement.{IsTransition, reconcile_box_table, reconcile_box_transitions}
use excubra.State.Reachable.{Call, puts_box, puts_host, ticks, beats, run, run-new_total}
use excubra.State.Office.{
  clock, box_of, gateway, printer, camera, repair, office, office-WellFormed, round_of, reports,
}

-- The printer is held back by its gateway, the camera by a window.
held_back :
    (suppressed office printer ≡ uplink "gateway")
    × (suppressed office camera ≡ maintenance)
    × (suppressed office gateway ≡ free)
unfolding suppressed down_ancestor in_maintenance window_covers
held_back = (refl, refl, refl)

reconcile_box_table_example :
    (lookup "gateway" (reconcile_box office "north" (clock 1003)).0.hosts
      ≡ some (reported_host office (box_of "north") gateway))
    × ((reconcile_box office "north" (clock 1003)).1
        ≡ announcements office (box_of "north") (box_hosts office "north") (clock 1003))
reconcile_box_table_example =
    reconcile_box_table office "north" (box_of "north") (clock 1003) "gateway" gateway
      office-WellFormed refl refl

gateway_open : is_open office (box_of "north") gateway ≡ true
unfolding is_open assigned suppressed down_ancestor in_maintenance window_covers
gateway_open = refl

reconcile_box_agrees_example :
    (lookup "gateway" (reconcile_box office "north" (clock 1003)).0.hosts
      ≡ some (record gateway { reported = down }))
    × ((reconcile_box (reconcile_box office "north" (clock 1003)).0 "north" (clock 1004)).1 ≡ [])
    × (lookup "gateway"
          (reconcile_box (reconcile_box office "north" (clock 1003)).0 "north" (clock 1004)).0.hosts
        ≡ some (record gateway { reported = down }))
reconcile_box_agrees_example =
    reconcile_box_agrees office "north" (box_of "north") (clock 1003) (clock 1004) "gateway" gateway
      office-WellFormed refl refl refl gateway_open (inr refl)

reconcile_box_transitions_example :
    All
      (IsTransition office (box_of "north") (clock 1003))
      (reconcile_box office "north" (clock 1003)).1
reconcile_box_transitions_example =
    reconcile_box_transitions office "north" (box_of "north") (clock 1003) office-WellFormed refl

abbrev calls : List Call
calls =
    puts_box (box_of "north")
    ∷ puts_host gateway
    ∷ beats "north" (clock 1001) "0.9.0" reports
    ∷ ticks (clock 2000)
    ∷ []

run-new_total_example :
    (m : Machine) × (evs : List Event) × (run new calls ≡ some (m, evs)) × WellFormed m
run-new_total_example = run-new_total calls

abbrev history : History
history =
    (round_of 5 false, clock 5)
    ∷ (round_of 4 false, clock 4)
    ∷ (round_of 3 false, clock 3)
    ∷ (round_of 2 true, clock 2)
    ∷ (round_of 1 true, clock 1)
    ∷ []

play-verdict_example :
    (play (reset_host printer) history).observed
    ≡ verdict (false ∷ false ∷ false ∷ true ∷ true ∷ [])
play-verdict_example = play-verdict printer history

abbrev earlier : History
earlier =
    (round_of 4 false, clock 4)
    ∷ (round_of 3 false, clock 3)
    ∷ (round_of 2 true, clock 2)
    ∷ (round_of 1 true, clock 1)
    ∷ []

changed :
    (play (reset_host printer) history).observed ≢ (play (reset_host printer) earlier).observed
unfolding play round_host reset_host
changed e = cc

held : down_ancestor office printer ≢ ""
unfolding down_ancestor
held e = cc

down_ancestor_sound_example :
    (n : ℕ) × (p : Host) × (first_down office.hosts n "gateway" ≡ some p)
    × (p.id ≡ down_ancestor office printer)
down_ancestor_sound_example = down_ancestor_sound office printer held

first_step_down : first_down office.hosts 1 "gateway" ≡ some gateway
unfolding first_down
first_step_down = refl

apart : gateway.id ≢ printer.id
apart e = cc ((eq_iff gateway.id printer.id).1 e)

down_ancestor_complete_example : down_ancestor office printer ≡ "gateway"
down_ancestor_complete_example =
    down_ancestor_complete office printer gateway 1 refl first_step_down apart

tick_total_example :
    (m : Machine) × (evs : List Event) × (tick office (clock 1210) ≡ some (m, evs)) × WellFormed m
tick_total_example = tick_total office (clock 1210) office-WellFormed

abbrev Ticked : Type 0
Ticked =
    (m : Machine) × (evs : List Event) × (tick office (clock 1210) ≡ some (m, evs)) × WellFormed m

abbrev ticked : Ticked
ticked = tick_total office (clock 1210) office-WellFormed

tick_table_example :
    (lookup "north" ticked.0.boxes ≡ some (silenced (clock 1210) (box_of "north")))
    × (lookup "north" ticked.0.maint ≡ none)
tick_table_example =
    tick_table office ticked.0 (clock 1210) ticked.1 "north" office-WellFormed ticked.2

tick_twice_example : tick ticked.0 (clock 1210) ≡ some (ticked.0, [])
tick_twice_example = tick_twice office ticked.0 (clock 1210) ticked.1 office-WellFormed ticked.2

heartbeat_isolated_example :
    (lookup "camera" (heartbeat office "north" (clock 1003) "0.9.1" reports).0.hosts ≡ some camera)
    × (lookup "south" (heartbeat office "north" (clock 1003) "0.9.1" reports).0.boxes
        ≡ some (box_of "south"))
heartbeat_isolated_example =
    heartbeat_isolated office "north" (clock 1003) "0.9.1" reports "camera" camera "south"
      office-WellFormed refl refl refl

covers_camera : window_covers office repair camera ≡ true
unfolding window_covers
covers_camera = refl

covered_host_rests_example :
    lookup "camera" (reconcile_box office "south" (clock 1003)).0.hosts ≡ some camera
covered_host_rests_example =
    covered_host_rests office "south" "camera" "mnt_1" (box_of "south") camera repair (clock 1003)
      office-WellFormed refl refl refl covers_camera

-- The test machine after the boxes have gone silent.
abbrev asleep : Machine
asleep = record office {
  boxes = ("north", record (box_of "north") { status = silent }) ∷ ("south", box_of "south") ∷ [];
}

asleep-WellFormed : WellFormed asleep
asleep-WellFormed = record {
  boxes_unique = ((refl, tt), (tt, tt));
  hosts_unique = office-WellFormed.hosts_unique;
  maint_unique = office-WellFormed.maint_unique;
  hosts_entries = office-WellFormed.hosts_entries;
  maint_entries = office-WellFormed.maint_entries;
  boxes_entries = (
    (refl, record { interval_pos = (59_999_999_999, refl); has_status = refl }),
    ((refl, record { interval_pos = (59_999_999_999, refl); has_status = refl }), tt),
  );
}

walks_end_example :
    ((id : String) × (walk office.hosts 4 ("printer" ∷ []) "gateway" ≡ some id))
    × ((d : ℕ) × (climb office.hosts 4 ("printer" ∷ []) "gateway" 0 ≡ some d))
walks_end_example = walks_end office printer
