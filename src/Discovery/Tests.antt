-- ===== src/Discovery/Tests.antt =====
-- Runs of the discovery, and the theorems at concrete tables.
use Prim.Native.Char.{code}
use Prim.Native.String.{[] as empty, ◌∷◌ as ◌:>◌, ◌++◌ as ◌<>◌}
use text.Mathlib.TextLemmas.{cons-append}
use excubra.Prelude.{
  All, Once, ℕ, ◌≤◌, ◌*◌, ◌+◌, inl, inr, ap, eq_iff, Bool-cases, ◌≡◌, refl, String, Bool, true,
  false, not, none, some, List, [], ◌∷◌, map, arith, ltb, str_eq, if◌then◌else◌, length, contains,
  pos, negsuc,
}
use excubra.GoTime.{minute, hour}
use excubra.Netip.{Netip}
use excubra.Discovery.Table.{
  Table, see, is_device, note_device, seen_entry, annotate, annotate_keys, annotate_entry, drain,
  ack, nack, sightings, max_sightings, new_table,
}
use excubra.Discovery.Names.{get_name, cached}
use excubra.Discovery.Config.{DiscoveryConfig}
use excubra.Discovery.Keys.{WellFormed, NoIp}
use excubra.Discovery.Acked.{IsReport, ack_forgets}
use excubra.Discovery.Reports.{
  reported_key, waiting, Step, seen, annotated, lost_heartbeat, step, steps, seen_device_reported,
}

abbrev plain : Netip
plain = record {
  Addr = String;
  Prefix = String;
  parse_addr = some;
  parse_prefix = λ s. if str_eq s "lan" then none else some s;
  is_4 = λ a. not (str_eq a "::1");
  is_private = λ a. false;
  is_loopback = λ a. false;
  is_link_local = λ a. str_eq a "169.254.0.1";
  text = λ a. a;
  address = λ p. p;
  bits = λ p. if str_eq p "10.0.0.0/8" then pos 8 else pos 24;
  masked = λ p. p;
  contains = str_eq;
  single = λ a. a;
  quote = λ s. s;
}

abbrev head_code : String → ℕ
head_code empty = 0
head_code (c :> s) = code c

abbrev reads : String → Bool
reads s = str_eq s "aa:bb:cc:00:00:01"

reads-NoIp : NoIp reads
reads-NoIp s = elim (Bool-cases (reads ("ip:" <> s))) [
  | inr miss ↦ miss
  | inl hit ↦
      let first : head_code ("ip:" <> s) ≡ 105 = ap head_code (cons-append "i" "p:" s) in
      absurd (omega (arith, first, ap head_code ((eq_iff ("ip:" <> s) "aa:bb:cc:00:00:01").0 hit)))
]

abbrev empty_table : Table
empty_table = new_table

empty-WellFormed : WellFormed empty_table
empty-WellFormed = record { unique = tt; named = tt; known = λ k h. cc h }

abbrev one : Table
one = record {
  entries =
      (
        "ip:10.0.0.9",
        record {
          mac = "";
          ip = "10.0.0.9";
          ipv6 = [];
          hostname = "";
          vendor = "";
          last_seen = hour;
        },
      )
      ∷ [];
  dirty = "ip:10.0.0.9" ∷ [];
  inflight = [];
}

one-WellFormed : WellFormed one
one-WellFormed = record { unique = (tt, tt); named = (refl, tt); known = λ k h. ground (arith, h) }

-- A device of which first only the address is known, and then nothing but a link-local address.
sees :
    (drain (see plain reads one " AA:BB:CC:00:00:01 " "10.0.0.7" "fe80::1" (2 * hour))).1
    ≡ record {
      mac = "aa:bb:cc:00:00:01";
      ip = "10.0.0.7";
      ipv6 = "fe80::1" ∷ [];
      vendor = "";
      hostname = "";
      last_seen = 2 * hour;
    }
      ∷ record {
        mac = "";
        ip = "10.0.0.9";
        ipv6 = [];
        vendor = "";
        hostname = "";
        last_seen = hour;
      }
      ∷ []
unfolding see is_device note_device seen_entry drain sightings
sees = refl

ignores : see plain reads one "" "169.254.0.1" "" hour ≡ one
unfolding see is_device
ignores = refl

names_once :
    (get_name
      (λ ip. ip <> ".lan")
      (("10.0.0.9", record { name = "nas"; at = hour }) ∷ [])
      "10.0.0.9"
      (hour + 59 * minute)
      (2 * hour)).1
    ≡ "nas"
unfolding get_name cached
names_once = refl

abbrev meanwhile : List Step
meanwhile = lost_heartbeat ∷ annotated ∷ seen "" "10.0.0.7" "" hour ∷ lost_heartbeat ∷ []

few_wait :
    waiting (
      steps plain reads
        (λ m. "vendor")
        (λ i. "name")
        (see plain reads one "AA:BB:CC:00:00:01" "" "" hour)
        meanwhile)
    ≤ max_sightings
unfolding waiting steps step see is_device note_device seen_entry annotate annotate_keys
    annotate_entry drain nack
few_wait = omega arith

fits : is_device plain reads "aa:bb:cc:00:00:01" "" ≡ true
unfolding is_device
fits = refl

seen_device_reported_example :
    contains "aa:bb:cc:00:00:01" (
      map reported_key
        (drain (
          steps plain reads
            (λ m. "vendor")
            (λ i. "name")
            (see plain reads one "AA:BB:CC:00:00:01" "" "" hour)
            meanwhile)).1)
    ≡ true
seen_device_reported_example =
    seen_device_reported plain reads (λ m. "vendor") (λ i. "name") one "AA:BB:CC:00:00:01" "" ""
      hour meanwhile reads-NoIp one-WellFormed fits few_wait

ack_forgets_example :
    (length (drain one).1 ≡ (if ltb 2000 (waiting one) then 2000 else waiting one))
    × All (IsReport one) (drain one).1
    × Once (map reported_key (drain one).1)
    × (waiting (ack (drain one).0) ≡ 0)
    × ((drain (ack (drain one).0)).1 ≡ [])
ack_forgets_example = ack_forgets one one-WellFormed tt

abbrev wide : DiscoveryConfig
wide = record {
  mode = "sweep";
  subnets = "lan" ∷ "10.0.0.0/8" ∷ "10.1.2.0/24" ∷ [];
  sweep_interval_s = pos 10;
  max_pps = negsuc 4;
}
