-- ===== src/Agent/Tests.antt =====
-- Runs of the agent, and the theorems at concrete agents.
use excubra.Prelude.{
  ◌<◌, ◌⊎◌, length, ◌*◌, ◌≡◌, refl, String, true, false, none, some, List, [], ◌∷◌, map, arith, All,
  Once, contains, pos,
}
use excubra.GoTime.{Time, hour, minute}
use excubra.Wire.{Round}
use excubra.Netip.{Netip}
use excubra.Sentinel.Types
use excubra.Sentinel.Types.{Sentinel}
use excubra.Dnswatch.Watch.{no_report}
use excubra.Update.Files.{complete, Disk}
use excubra.Agent.Rounds.{rounds_of, take_rounds, put_rounds, add_round, keep_newest}
use excubra.Agent.Tasks.{Task, start_tasks, choose_fresh}
use excubra.Agent.Heartbeat.{Agent, failed, Surroundings, add_rounds, heartbeat}
use excubra.Agent.Once.{task_id, start_tasks-Once}
use excubra.Agent.Buffer.{put_rounds-take}
use excubra.Agent.Lost.{AtRest, KeepsAll, lost_heartbeat_keeps}

abbrev plain : Netip
plain = record {
  Addr = String;
  Prefix = String;
  parse_addr = some;
  parse_prefix = some;
  is_4 = λ a. true;
  is_private = λ a. false;
  is_loopback = λ a. false;
  is_link_local = λ a. false;
  text = λ a. a;
  address = λ p. p;
  bits = λ p. pos 24;
  masked = λ p. p;
  contains = λ p a. false;
  single = λ a. a;
  quote = λ s. s;
}

abbrev around : Surroundings
around = record {
  vendor_of = λ m. "vendor";
  name_of = λ i. "name";
  platform = record {
    version = "1.0.0";
    now = hour;
    fetch = λ u. none;
    sha256 = λ b. b;
    verify = none;
    trial = λ c. false;
    write = λ f b. complete;
    rename_fails = λ f g. false;
    remove_fails = λ f. false;
    marshal = λ p. none;
    unmarshal = λ b. none;
  };
  hp = record { split = λ s. none; join = λ h p. h };
}

abbrev round_at : Time → Round
round_at t = record { at = t; ok = true; checks = [] }

abbrev nothing_there : Disk
nothing_there f = none

abbrev agent : Agent plain
agent = record {
  config_version = "7";
  config_errors = [];
  config_pulled_at = hour;
  config_max_age = pos (15 * minute);
  operator_pending = false;
  buffer = record { rounds = ("printer", round_at minute ∷ []) ∷ []; dropped = 0 };
  notes = "said" ∷ [];
  tasks = record { done = "t1" ∷ []; done_set = "t1" ∷ []; results = []; saved = ("t1" ∷ [], []) };
  disc = record { entries = []; dirty = []; inflight = [] };
  scan = record {
    cfg = record {
      enabled = true;
      interval = pos hour;
      max_pps = pos 20;
      ports = pos 22 ∷ [];
      exclude = [];
      external = [];
    };
    round = "scan_1";
    started = minute;
    scanned = 1;
    errors = 0;
    pending = record { ip = "10.0.0.3"; mac = ""; site_id = ""; services = [] } ∷ [];
    inflight = [];
    sent = 0;
    running = false;
  };
  sent = Types.new;
  dns = record {
    cfg = record { enabled = true; block = true; upstreams = []; list_version = ""; local = [] };
    list = [];
    list_ver = "";
    bound = "10.0.0.1";
    err_text = "";
    up_idx = 0;
    upstream = "";
    clients = [];
    pending = no_report;
    seen = [];
    inflight = none;
    loop_noted = [];
    signals = [];
    notes = [];
  };
  disk = nothing_there;
  update_asked = false;
}

resting : AtRest plain agent
unfolding Types.new
resting = record {
  unique = (tt, tt);
  scan = refl;
  sent = refl;
  tidy = record { once = tt; agrees = λ k. refl };
}

abbrev meanwhile : List (String × Round)
meanwhile = ("printer", round_at (2 * minute)) ∷ ("router", round_at (3 * minute)) ∷ []

lost_heartbeat_keeps_example :
    KeepsAll agent (heartbeat around (λ hb. failed) agent meanwhile hour).0 meanwhile "printer"
lost_heartbeat_keeps_example =
    lost_heartbeat_keeps around (λ hb. failed) agent meanwhile hour "printer" resting (omega arith)
      (λ version e. cc e)

put_rounds-take_example :
    let back =
      put_rounds (add_rounds (take_rounds agent.buffer).1 meanwhile) (take_rounds agent.buffer).0 in
    rounds_of "printer" back.rounds ≡ rounds_of "printer" (add_rounds agent.buffer meanwhile).rounds
put_rounds-take_example = put_rounds-take agent.buffer meanwhile "printer" (tt, tt) (omega arith)

both_rounds :
    rounds_of "printer" (add_rounds agent.buffer meanwhile).rounds
    ≡ round_at minute ∷ round_at (2 * minute) ∷ []
unfolding add_round keep_newest
both_rounds = refl

abbrev task_of : String → Task
task_of id = record { id = id; kind = "sweep"; issued_at = hour }

abbrev asked : List Task
asked = task_of "t1" ∷ task_of "t2" ∷ task_of "" ∷ task_of "t2" ∷ task_of "t3" ∷ []

-- Of five tasks four are looked at, and one of them is new.
runs_one : map task_id (start_tasks agent.tasks asked).1 ≡ "t2" ∷ []
unfolding start_tasks choose_fresh
runs_one = refl

start_tasks-Once_example :
    Once (map task_id (start_tasks agent.tasks asked).1)
    × All (λ (t : Task). contains t.id ("t1" ∷ []) ≡ false) (start_tasks agent.tasks asked).1
    × ((196 < length agent.tasks.done)
        ⊎ ((start_tasks (start_tasks agent.tasks asked).0 asked).1 ≡ []))
start_tasks-Once_example = start_tasks-Once agent.tasks asked
