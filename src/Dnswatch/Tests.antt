-- ===== src/Dnswatch/Tests.antt =====
-- Runs of the DNS sensor, and the theorems at concrete queries.
use excubra.Prelude.{
  ℕ, ◌+◌, ◌≤◌, All, ◌≡◌, ◌≢◌, ◌==◌, eq_iff, refl, String, true, false, ◌&&◌, none, some, List, [],
  ◌∷◌, length, if◌then◌else◌, str_eq, drop, pos,
}
use excubra.GoMap.Named.{is_some}
use excubra.GoTime.{minute}
use excubra.Netip.{Netip}
use excubra.Dnswatch.Config.{DnsConfig, parse_config, choose_items, choose_local}
use excubra.Dnswatch.Resolver.{IsUpstream, IsLan, parse_config_resolver}
use excubra.Dnswatch.Message.{Question, parse_question, read_labels, rcode}
use excubra.Dnswatch.Watch.{Watch, no_report}
use excubra.Dnswatch.Forward.{
  udp, Upstreams, upstreams, own_resolvers, is_upstream, first_reply, exchange, try_upstreams,
  forward,
}
use excubra.Dnswatch.Sensors.{listed, listed_labels}
use excubra.Dnswatch.Handle.{rcode_nx, served_address, Outside, handle}
use excubra.Dnswatch.Rotation.{answered, first_answer, forward_rotates}
use excubra.Dnswatch.Answers.{handle-answers, blocked_stays_inside}

abbrev plain : Netip
plain = record {
  Addr = String;
  Prefix = String;
  parse_addr = some;
  parse_prefix = some;
  is_4 = λ a. true;
  is_private = λ a. str_eq a "10.0.0.7";
  is_loopback = λ a. false;
  is_link_local = λ a. false;
  text = λ a. a;
  address = λ p. p;
  bits = λ p. pos 24;
  masked = λ p. p;
  contains = str_eq;
  single = λ a. a;
  quote = λ s. s;
}

-- A query for `a.bc`, of type A.
abbrev query : List ℕ
query =
    18 ∷ 52 ∷ 1 ∷ 0 ∷ 0 ∷ 1 ∷ 0 ∷ 0 ∷ 0 ∷ 0 ∷ 0 ∷ 0 ∷ 1 ∷ 97 ∷ 2 ∷ 98 ∷ 99 ∷ 0 ∷ 0 ∷ 1 ∷ 0 ∷ 1 ∷ []

abbrev asked : Question
asked = record { id = 4660; name = 97 ∷ 46 ∷ 98 ∷ 99 ∷ []; type = 1; end = 22; flags = 256 }

-- Nobody is reached.
abbrev no_replies : Upstreams
no_replies = record { datagrams = λ u m. none; stream = λ u m. none }

-- The second upstream sends a datagram of another query, and then the answer.
abbrev second_answers : Upstreams
second_answers = record {
  datagrams = λ u m. if str_eq u "1.1.1.1:53" then some ((1 ∷ drop 1 query) ∷ query ∷ []) else none;
  stream = λ u m. none;
}

abbrev outside : Outside plain
outside = record {
  hp = record { split = λ s. some (s, "53"); join = λ h p. h };
  unmap = λ a. a;
  name_of = λ bs. if length bs == 4 then "a.bc" else "";
  system = [];
  ups = second_answers;
}

abbrev sensor : Watch plain
sensor = record {
  cfg = record { enabled = true; block = true; upstreams = []; list_version = "1"; local = [] };
  list = "a.bc" ∷ [];
  list_ver = "1";
  bound = "10.0.0.1";
  err_text = "";
  up_idx = 0;
  upstream = "";
  clients = [];
  pending = no_report;
  seen = [];
  inflight = none;
  loop_noted = [];
  signals = [];
  notes = [];
}

abbrev unlisted : Watch plain
unlisted = record sensor { list = [] }

reads : parse_question query ≡ some asked
unfolding parse_question read_labels
reads = refl

-- The answer of the second upstream is passed on, and the next query starts there.
passes_on :
    (forward (exchange second_answers query udp) unlisted ("9.9.9.9:53" ∷ "1.1.1.1:53" ∷ []))
    ≡ some (record { answer = query; upstream = "1.1.1.1:53"; index = 1 })
unfolding forward try_upstreams exchange first_reply
passes_on = refl

forward_rotates_example :
    answered
      (forward (exchange second_answers query udp) unlisted ("9.9.9.9:53" ∷ "1.1.1.1:53" ∷ []))
    ≡ first_answer (exchange second_answers query udp) ("9.9.9.9:53" ∷ "1.1.1.1:53" ∷ [])
forward_rotates_example =
    forward_rotates plain (exchange second_answers query udp) unlisted
      ("9.9.9.9:53" ∷ "1.1.1.1:53" ∷ [])

handle-answers_example :
    is_some (handle plain outside unlisted query "10.0.0.7" udp minute).0
    ≡ (served_address plain (λ a. a) "10.0.0.7" [] && is_some (parse_question query))
handle-answers_example = handle-answers plain outside unlisted query "10.0.0.7" udp minute

served : served_address plain (λ a. a) "10.0.0.7" [] ≡ true
unfolding served_address
served = refl

on_list : listed sensor.list "a.bc" ≢ ""
unfolding listed listed_labels
on_list e = cc ((eq_iff "a.bc" "").1 e)

no_loop :
    is_upstream outside.hp (upstreams plain outside.hp sensor.cfg outside.system) "10.0.0.7" ≡ false
unfolding is_upstream upstreams own_resolvers
no_loop = refl

blocked_stays_inside_example :
    (handle plain (record outside { ups = no_replies }) sensor query "10.0.0.7" udp minute
      ≡ handle plain outside sensor query "10.0.0.7" udp minute)
    × (r : List ℕ) × ((handle plain outside sensor query "10.0.0.7" udp minute).0 ≡ some r)
    × (rcode r ≡ pos rcode_nx)
    × ((handle plain outside sensor query "10.0.0.7" udp minute).1.pending.blocked ≡ 0 + 1)
blocked_stays_inside_example =
    blocked_stays_inside plain outside sensor query "10.0.0.7" udp minute asked no_replies served
      reads no_loop on_list refl

abbrev asked_for : DnsConfig
asked_for = record {
  enabled = true;
  block = true;
  upstreams = "9.9.9.9" ∷ " 1.1.1.1 " ∷ [];
  list_version = "2";
  local = "10.1.0.0/16" ∷ [];
}

refused_test : (parse_config plain outside.hp (record asked_for { upstreams = [] })).1 ≡ []
unfolding parse_config choose_items choose_local
refused_test = refl

parse_config_resolver_example :
    (length (parse_config plain outside.hp asked_for).0.upstreams ≤ 4)
    × All (IsUpstream plain outside.hp) (parse_config plain outside.hp asked_for).0.upstreams
    × (length (parse_config plain outside.hp asked_for).0.local ≤ 8)
    × All (IsLan plain outside.hp) (parse_config plain outside.hp asked_for).0.local
parse_config_resolver_example = parse_config_resolver plain outside.hp asked_for
