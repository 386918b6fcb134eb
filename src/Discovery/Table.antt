-- ===== src/Discovery/Table.antt =====
-- discovery.go: the table of sightings. The set of the keys that wait, and of those in flight, is a
-- list, whose order stands for the order of `range`.
use Prim.Native.String.{◌++◌ as ◌<>◌}
use excubra.Prelude.{
  ℕ, String, Bool, false, not, ◌&&◌, ◌||◌, Option, none, some, List, [], ◌∷◌, ltb, if◌then◌else◌,
  length, take, str_eq, str_lt, sort_by, add,
}
use excubra.GoMap.{Map, lookup, insert, values}
use excubra.GoTime.{Time}
use excubra.GoText.{to_lower, trim_space}
use excubra.Netip.{Netip}

abbrev pub max_sightings : ℕ
max_sightings = 2000

pub record Sighting : Type 0 where
  pub mac : String
  pub ip : String
  pub ipv6 : List String
  pub vendor : String
  pub hostname : String
  pub last_seen : Time

pub record Entry : Type 0 where
  pub mac : String
  pub ip : String
  pub ipv6 : List String
  pub hostname : String
  pub vendor : String
  pub last_seen : Time

-- The key of a device with these addresses.
abbrev pub key_of : String → String → String
key_of mac ip = if str_eq mac "" then "ip:" <> ip else mac

abbrev pub key : Entry → String
key e = key_of e.mac e.ip

pub record Table : Type 0 where
  pub entries : Map Entry
  pub dirty : List String
  pub inflight : List String

abbrev pub new_table : Table
new_table = record { entries = []; dirty = []; inflight = [] }

abbrev pub clean_mac : String → String
clean_mac mac = to_lower (trim_space mac)

-- What `See` takes for a device; `mac_reads` is whether `net.ParseMAC` takes the text.
unfoldable pub is_device : Netip → (String → Bool) → String → String → Bool
is_device n mac_reads mac ip =
    let linked : Bool = elim (n.parse_addr ip) [ none ↦ false | some a ↦ n.is_link_local a ] in
    not (str_eq mac "" && str_eq ip "") && not linked && (str_eq mac "" || mac_reads mac)

-- The entry under the key, or a new one, with what is seen now.
unfoldable pub seen_entry : Option Entry → String → String → String → Time → Entry
seen_entry none mac ip ip6 now = record {
  mac = mac;
  ip = ip;
  ipv6 = if str_eq ip6 "" then [] else ip6 ∷ [];
  hostname = "";
  vendor = "";
  last_seen = now;
}
seen_entry (some cur) mac ip ip6 now = record cur {
  ip = if str_eq ip "" then cur.ip else ip;
  ipv6 = if str_eq ip6 "" then cur.ipv6 else add ip6 cur.ipv6;
  last_seen = now;
}

unfoldable pub note_device : Table → String → String → String → Time → Table
note_device t mac ip ip6 now =
    let k = key_of mac ip in
    let e = seen_entry (lookup k t.entries) mac ip ip6 now in
    record t { entries = insert k e t.entries; dirty = add (key e) t.dirty }

unfoldable pub see : Netip → (String → Bool) → Table → String → String → String → Time → Table
see n mac_reads t mac ip ip6 now =
    if is_device n mac_reads (clean_mac mac) ip then note_device t (clean_mac mac) ip ip6 now else t

-- What `Annotate` makes of one entry; `vendor_of` and `name_of` are the lookups it is given.
unfoldable pub annotate_entry : (String → String) → (String → String) → Entry → Entry
annotate_entry vendor_of name_of e = record e {
  vendor = if str_eq e.vendor "" && not (str_eq e.mac "") then vendor_of e.mac else e.vendor;
  hostname = if str_eq e.hostname "" && not (str_eq e.ip "") then name_of e.ip else e.hostname;
}

unfoldable pub annotate_keys :
    (String → String) → (String → String) → List String → Map Entry → Map Entry
annotate_keys vendor_of name_of [] m = m
annotate_keys vendor_of name_of (k ∷ ks) m = elim (lookup k m) [
  | none ↦ annotate_keys vendor_of name_of ks m
  | some e ↦ annotate_keys vendor_of name_of ks (
      if str_eq e.vendor "" || str_eq e.hostname ""
      then insert k (annotate_entry vendor_of name_of e) m
      else m)
]

unfoldable pub annotate : (String → String) → (String → String) → Table → Table
annotate vendor_of name_of t = record t {
  entries = annotate_keys vendor_of name_of t.dirty t.entries;
}

abbrev pub sighting : Entry → Sighting
sighting e = record {
  mac = e.mac;
  ip = e.ip;
  ipv6 = sort_by str_lt e.ipv6;
  vendor = e.vendor;
  hostname = e.hostname;
  last_seen = e.last_seen;
}

unfoldable pub sightings : List String → Map Entry → List Sighting
sightings [] m = []
sightings (k ∷ ks) m = elim (lookup k m) [
  | none ↦ sightings ks m
  | some e ↦ sighting e ∷ sightings ks m
]

abbrev pub more_recent : Sighting → Sighting → Bool
more_recent a b = ltb b.last_seen a.last_seen

-- for k := range from { to[k] = struct{}{} }
abbrev pub add_all : List String → List String → List String
add_all [] to = to
add_all (k ∷ from) to = add k (add_all from to)

unfoldable pub drain : Table → Table × List Sighting
drain t =
    let flying = add_all t.dirty t.inflight in
    let out = sort_by more_recent (sightings flying t.entries) in
    (
      record t { dirty = []; inflight = flying },
      if ltb max_sightings (length out) then take max_sightings out else out,
    )

unfoldable pub ack : Table → Table
ack t = record t { inflight = [] }

unfoldable pub nack : Table → Table
nack t = record t { dirty = add_all t.inflight t.dirty; inflight = [] }

pub record Address : Type 0 where
  pub ip : String
  pub mac : String

abbrev pub addresses_of : List Entry → List Address
addresses_of [] = []
addresses_of (e ∷ es) =
    let rest = addresses_of es in
    if str_eq e.ip "" then rest else record { ip = e.ip; mac = e.mac } ∷ rest

unfoldable pub addresses : Table → List Address
addresses t = sort_by (λ a b. str_lt a.ip b.ip) (addresses_of (values t.entries))
