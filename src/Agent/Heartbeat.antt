-- ===== src/Agent/Heartbeat.antt =====
-- loop.go: `heartbeat`, over the parts that it empties and that get back what the server did not
-- take. What the box says of itself (versions, addresses, overlays) is left out.
use excubra.Prelude.{
  ℕ, ◌+◌, String, Bool, true, ◌||◌, not, Option, List, [], ◌∷◌, ◌++◌, ltb, ltb_ℤ, if◌then◌else◌,
  length, str_eq, ℤ,
}
use excubra.GoTime.{Time, time_sub}
use excubra.Wire.{Round, HostReport, Signal}
use excubra.Netip.{Netip}
use excubra.Agent.Rounds.{Buffer, add_round, take_rounds, put_rounds}
use excubra.Agent.Tasks.{Memory, TaskResult, take_task_results, put_task_results, save_tasks}
use excubra.Discovery.Table.{Table, Sighting}
use excubra.Discovery.Table
use excubra.Scan.Types.{Scanner, ScanReport}
use excubra.Scan.Chunks
use excubra.Sentinel.Types.{Sentinel}
use excubra.Sentinel.Pending
use excubra.Dnswatch.Watch.{Watch, DnsReport}
use excubra.Dnswatch.Forward.{HostPort}
use excubra.Dnswatch.Report
use excubra.Update.Files.{Disk, Platform}
use excubra.Update.Install

pub record Heartbeat : Type 0 where
  pub config_version : String
  pub config_errors : List String
  pub notes : List String
  pub hosts : List HostReport
  pub seen : List Sighting
  pub queued : ℕ
  pub dropped : ℕ
  pub task_results : List TaskResult
  pub scan : Option ScanReport
  pub signals : List Signal
  pub dns : Option DnsReport

pub record Agent (n : Netip) : Type 0 where
  pub config_version : String
  pub config_errors : List String
  pub config_pulled_at : Time
  pub config_max_age : ℤ
  pub operator_pending : Bool
  pub buffer : Buffer
  pub notes : List String
  pub tasks : Memory
  pub disc : Table
  pub scan : Scanner n
  pub sent : Sentinel
  pub dns : Watch n
  pub disk : Disk
  pub update_asked : Bool

-- What comes of the request: the answer's version of the configuration, or an error.
pub data Answer : Type 0 where
  taken : String → Answer
  upgrade_required : Answer
  revoked : Answer
  failed : Answer

-- What the agent does next.
pub data Next : Type 0 where
  wait : Next
  pull_config : Next
  claim_operator : Next

-- The lookups of `Sightings`, the machine, and `net.JoinHostPort`.
pub record Surroundings : Type 0 where
  pub vendor_of : String → String
  pub name_of : String → String
  pub platform : Platform
  pub hp : HostPort

abbrev pub count_rounds : List HostReport → ℕ
count_rounds [] = 0
count_rounds (r ∷ rs) = length r.rounds + count_rounds rs

abbrev pub add_rounds : Buffer → List (String × Round) → Buffer
add_rounds b [] = b
add_rounds b ((host, r) ∷ xs) = add_rounds (add_round b host r) xs

module _ {n : Netip} where
  -- The heartbeat that is sent, and the agent with what it carries in flight.
  unfoldable pub collect : Surroundings → Agent n → Heartbeat × Agent n
  collect o a =
      let (reports, buffer) = take_rounds a.buffer in
      let (disc, seen) = Table.drain (Table.annotate o.vendor_of o.name_of a.disc) in
      let (results, tasks) = take_task_results a.tasks in
      let (scan, scanned) = Chunks.drain a.scan in
      let (sent, signals) = Pending.drain a.sent in
      let (dns, report) = Report.drain o.hp a.dns in
      (
        record {
          config_version = a.config_version;
          config_errors = a.config_errors;
          notes = a.notes;
          hosts = reports;
          seen = seen;
          queued = count_rounds reports;
          dropped = buffer.dropped;
          task_results = results;
          scan = scanned;
          signals = signals;
          dns = report;
        },
        record a {
          buffer = buffer;
          notes = [];
          tasks = tasks;
          disc = disc;
          scan = scan;
          sent = sent;
          dns = dns;
        },
      )

  -- The server did not get it: everything goes back.
  unfoldable pub give_back : Agent n → Heartbeat → Agent n
  give_back a hb = record a {
    buffer = put_rounds a.buffer hb.hosts;
    disc = Table.nack a.disc;
    scan = Chunks.nack a.scan;
    sent = Pending.nack a.sent;
    dns = Report.nack a.dns;
    tasks = put_task_results a.tasks hb.task_results;
    notes = if ltb 0 (length hb.notes) then hb.notes ++ a.notes else a.notes;
  }

  -- The server has it.
  unfoldable pub forget : Surroundings → Agent n → Heartbeat → Agent n
  forget o a hb = record a {
    disc = Table.ack a.disc;
    scan = Chunks.ack a.scan;
    sent = Pending.ack a.sent;
    dns = Report.ack a.dns;
    disk = Install.confirm o.platform a.disk;
    tasks = if ltb 0 (length hb.task_results) then save_tasks a.tasks else a.tasks;
  }

  unfoldable pub next_step : Agent n → String → Time → Next
  next_step a version now =
      if not (str_eq version a.config_version)
        || ltb_ℤ a.config_max_age (time_sub now a.config_pulled_at)
      then pull_config
      else if a.operator_pending
      then claim_operator
      else wait

  -- `server` answers the request, during which the checks add these rounds.
  unfoldable pub heartbeat :
      Surroundings → (Heartbeat → Answer) → Agent n → List (String × Round) → Time → Agent n × Next
  heartbeat o server a meanwhile now =
      let (hb, sending) = collect o a in
      let waiting = record sending { buffer = add_rounds sending.buffer meanwhile } in
      elim (server hb) [
        | taken version ↦ (forget o waiting hb, next_step waiting version now)
        | upgrade_required ↦ (record (give_back waiting hb) { update_asked = true }, wait)
        | revoked ↦ (give_back waiting hb, wait)
        | failed ↦ (give_back waiting hb, wait)
      ]
