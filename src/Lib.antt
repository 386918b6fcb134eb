-- ===== src/Lib.antt =====
-- excubra: boxes in customers' networks watch hosts and send heartbeats to a server, which decides
-- what is silent, down or back and says so in events.
--
-- The modelled parts, and how they interact:
-- * internal/server/state/state.go, in State and its children. `Machine` holds boxes, hosts and
-- maintenance windows. A heartbeat (State/Inputs) records the rounds of its reports on the hosts
-- (State/Round: applyRound) and reconciles the box (State/Reconcile: reconcileBox, reconcile,
-- hostEvent), which asks State/Suppress whether a host is held back (suppressed, downAncestor,
-- inMaintenance). A tick (State/Inputs) ends windows and declares boxes silent. State/Topology loads
-- the tables and binds boxes to sites. `State.Reachable.Call` lists the calls of the machine.
-- * internal/event/event.go, in Event: the envelope of an event and its severity. The random id of an
-- event is left out: nothing modelled reads it.
-- * internal/wire/v1.go, in Wire: what a box reports.
-- * internal/agent/sentinel/sentinel.go, in Sentinel and its children: the box's live detection.
-- Sentinel/Observe has the sensors (ObserveARP, observeFrame, observeSYN, touch), which count in the
-- windows of Sentinel/Counters and file signals in Sentinel/Pending (record, recordScan, Record); there
-- a heartbeat takes them (Drain) and forgets them (Ack) or gives them back (Nack). Sentinel/Config is
-- ParseConfig and Apply, Sentinel/Frames parseSYN. `file` is the source's record.
-- * internal/version/version.go in Version, and internal/server/selfupdate/fleet.go, which uses it, in
-- Fleet.
-- * internal/agent/dnswatch/detect.go and message.go in Dnswatch/Detect and Dnswatch/Message.
-- * internal/server/blocklist/blocklist.go in Blocklist: the list of domains (Refresh, applyExtra,
-- Contains) and what it takes from a hosts file (parseHosts, cleanDomain).
-- * internal/id/id.go in Id: the characters of random identifiers (New, Secret, encode).
-- * internal/agent/dnswatch/dnswatch.go in Dnswatch/Watch, Config (ParseConfig; its two loops are one
-- function, `choose_items`), Forward (upstreams, forward, exchange, the
-- framing over TCP), Sensors (listed, clientFor, dga, tunnel), Handle (handle, servedAddress) and Report
-- (Drain, Ack, Nack). `relay` and `judge` are the later parts of handle.
-- * internal/agent/update/update.go in Update: Install has Apply, in the parts check, install and
-- swap_in, and the rollback; Files has the files and the machine (Platform) that it runs on.
-- * internal/agent/scan/scan.go in Scan: Config (ParseConfig), Round (targets, Round) and Chunks (Drain,
-- Ack, Nack).
-- * internal/agent/discovery/discovery.go and arp.go in Discovery: the table of sightings in Table, the
-- cache of names in Names, ParseConfig in Config, the parsers in Frames.
-- * internal/agent/loop.go in Agent: Rounds (addRound, takeRounds, putRounds), Tasks (startTasks, the
-- results, saveTasks) and Heartbeat. `collect`, `give_back`, `forget` and `next_step` are the parts of
-- heartbeat; the rounds that come in while the request runs are a list.
-- * internal/server/rules/scan.go and wan.go in Rules: Inside (EvaluateScan), Outside
-- (EvaluateExternal) and, from signal.go, Signals (EvaluateSignal). The parts of tlsFindings are three
-- functions, and so are the parts of the loops.
-- * internal/auth/auth.go in Auth: passwords and one-time codes.
-- * Netip has package net/netip as a record that the configurations take as a parameter.
-- * GoText has the functions of packages strings and strconv that these use.
--
-- Shared: Prelude passes on the library's names and has Boolean tests, insertion sort, sets as lists
-- and the integers; GoMap has Go's maps; GoTime has package time.
--
-- Conventions. A Go map is an association list. A loop over a map takes the order of the list, which
-- stands for the order that Go draws; where the code sorts, the model sorts. An instant is the number
-- of nanoseconds since the year 1, an unsigned number, and zero is Go's zero time; a duration saturates
-- as Time.Sub does, and the span after which a box is silent wraps as int64 does. Counters of rounds
-- are not bounded: 2 ^ 63 rounds do not happen. A panic is `none`. Pointers into a map are followed by
-- a lookup of the key; `apply_rounds` writes the host back after every round.
--
-- Fuel. The walks along the uplinks get one round more than there are hosts. Every round marks another
-- host as seen, so they never run out. The loop over the labels of a DNS message gets one round more
-- than there are bytes; every round goes on by one at least. A byte completes at most two
-- groups of five bits. A number is written with at most twenty
-- digits, one more than an int has. The loop over the upstreams runs once for each of them.
--
-- Not modelled: storage, HTTP, the console, the web interface, sockets and other I/O, cryptography, and
-- the locks (each exported call is one step; `Table.Annotate`, which lets others in between, too). Methods
-- on a nil scanner or sensor, which do nothing, are left out. Lower case is that of ASCII letters, and a
-- byte that is no UTF-8 stays as it is. Of Sentinel.rebind only the address of the box is modelled
-- (`learn_self`), not the listeners; of Engine.absorbSignals only what it hands to EvaluateSignal (`to_judge`).
pub mod Prelude
pub mod Agent
pub mod Auth
pub mod Blocklist
pub mod Discovery
pub mod Dnswatch
pub mod Event
pub mod Fleet
pub mod GoMap
pub mod GoText
pub mod GoTime
pub mod Id
pub mod Netip
pub mod Rules
pub mod Scan
pub mod Sentinel
pub mod State
pub mod Tests
pub mod Update
pub mod Version
pub mod Wire
