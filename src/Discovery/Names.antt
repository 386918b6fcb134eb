-- ===== src/Discovery/Names.antt =====
-- discovery.go: the cache of host names, the pace of the sweeps and the backoff of the listener.
use excubra.Prelude.{
  ℕ, ◌/◌, String, Bool, Option, none, some, List, [], ◌∷◌, ltb, if◌then◌else◌, length, take, str_eq,
  sort_by, ltb_ℤ, pos,
}
use excubra.GoMap.{Map, lookup, insert, erase}
use excubra.GoTime.{Time, hour, time_sub}

abbrev pub name_ttl : ℕ
name_ttl = hour

abbrev pub max_names : ℕ
max_names = 4096

pub record NameEntry : Type 0 where
  pub name : String
  pub at : Time

abbrev pub older : String × NameEntry → String × NameEntry → Bool
older a b = ltb a.1.at b.1.at

abbrev pub erase_keys : List (String × NameEntry) → Map NameEntry → Map NameEntry
erase_keys [] m = m
erase_keys ((k, e) ∷ ks) m = erase_keys ks (erase k m)

-- The oldest half goes.
unfoldable pub trim_cache : Map NameEntry → Map NameEntry
trim_cache m =
    if ltb max_names (length m) then erase_keys (take (length m / 2) (sort_by older m)) m else m

-- The name in the cache, if it is no older than an hour.
unfoldable pub cached : Map NameEntry → String → Time → Option String
cached m ip now = elim (lookup ip m) [
  | none ↦ none
  | some e ↦ if ltb_ℤ (time_sub now e.at) (pos name_ttl) then some e.name else none
]

-- `Get` when it is not cut short: `resolve` is the lookup, which ends at the second time.
unfoldable pub get_name :
    (String → String) → Map NameEntry → String → Time → Time → Map NameEntry × String
get_name resolve m ip now later = if str_eq ip "" then (m, "") else elim (cached m ip now) [
  | some name ↦ (m, name)
  | none ↦ (trim_cache (insert ip (record { name = resolve ip; at = later }) m), resolve ip)
]
