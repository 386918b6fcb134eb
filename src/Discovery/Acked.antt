-- ===== src/Discovery/Acked.antt =====
-- What a heartbeat carries of the table, and what is left once it has arrived.
use excubra.Prelude.{
  str_lt, zero, suc, ℕ, ◌≡◌, inl, inr, refl, sym, ap, ◌∙◌, subst, String, true, false, some, List,
  [], ◌∷◌, arith, eq_refl, if◌then◌else◌, contains, Once, Once-sort, All, sort_by, sort_by-All,
  take, Bool-cases, Option-cases, length, ltb, map,
}
use excubra.GoMap.{Map, lookup, Entries-lookup}
use excubra.GoMap.Named.{is_some, Named}
use excubra.Discovery.Table.{
  Entry, key, Table, Sighting, add_all, sightings, more_recent, max_sightings, drain, ack,
}
use excubra.Discovery.Keys.{unreported, WellFormed, contains-add_all}
use excubra.Discovery.Reports.{reported_key, waiting, drain_counts}

-- What the table holds of a device that waits.
abbrev pub IsReport : Table → Sighting → Type 0
IsReport t s =
    (e : Entry) × (lookup (reported_key s) t.entries ≡ some e)
    × (unreported t (reported_key s) ≡ true)
    × (s.mac ≡ e.mac)
    × (s.ip ≡ e.ip)
    × (s.ipv6 ≡ sort_by str_lt e.ipv6)
    × (s.vendor ≡ e.vendor)
    × (s.hostname ≡ e.hostname)
    × (s.last_seen ≡ e.last_seen)

Once-add_all : (xs ys : List String) → Once ys → Once (add_all xs ys)
Once-add_all [] ys o = o
Once-add_all (x ∷ xs) ys o = elim (Bool-cases (contains x (add_all xs ys))) [
  | inl in_it ↦ rw in_it (Once-add_all xs ys o)
  | inr new ↦ rw new (new, Once-add_all xs ys o)
]

sightings-keys :
    (ks : List String) (m : Map Entry)
    → Named key m
    → ((j : String) → contains j ks ≡ true → is_some (lookup j m) ≡ true)
    → map reported_key (sightings ks m) ≡ ks
unfolding sightings
sightings-keys [] m e known = refl
sightings-keys (j ∷ ks) m e known = elim (Option-cases (lookup j m)) [
  | inl miss ↦ cc (sym (known j (ground (arith, eq_refl j))) ∙ ap is_some miss)
  | inr (x, hit) ↦
      let name : key x ≡ j = Entries-lookup (λ i v. key v ≡ i) j m x e hit in
      let rest = sightings-keys ks m e (λ i h. known i (ground (arith, h))) in
      rw (hit, sightings) (rw (name, rest) refl)
]

module _ (t : Table) where
  sightings-IsReport :
      (ks : List String)
      → Named key t.entries
      → ((j : String) → contains j ks ≡ true → unreported t j ≡ true)
      → All (IsReport t) (sightings ks t.entries)
  unfolding sightings
  sightings-IsReport [] e waits = tt
  sightings-IsReport (j ∷ ks) e waits = elim (Option-cases (lookup j t.entries)) [
    | inl miss ↦ rw (miss, sightings) (sightings-IsReport ks e (λ i h. waits i (ground (arith, h))))
    | inr (x, hit) ↦
        let name : key x ≡ j = Entries-lookup (λ i v. key v ≡ i) j t.entries x e hit in
        let here : unreported t (key x) ≡ true = rw name (waits j (ground (arith, eq_refl j))) in
        let found : lookup (key x) t.entries ≡ some x = rw name hit in
        rw (hit, sightings)
          (
            (x, found, here, refl, refl, refl, refl, refl, refl),
            sightings-IsReport ks e (λ i h. waits i (ground (arith, h))),
          )
  ]

take-All : (P : Sighting → Type 0) (n : ℕ) (xs : List Sighting) → All P xs → All P (take n xs)
take-All P zero xs a = tt
take-All P (suc n) [] a = tt
take-All P (suc n) (x ∷ xs) a = (a.0, take-All P n xs a.1)

contains-take :
    (k : String) (n : ℕ) (xs : List Sighting)
    → contains k (map reported_key xs) ≡ false
    → contains k (map reported_key (take n xs)) ≡ false
contains-take k zero xs c = refl
contains-take k (suc n) [] c = refl
contains-take k (suc n) (x ∷ xs) c = ground (arith, c, contains-take k n xs)

take-Once :
    (n : ℕ) (xs : List Sighting) → Once (map reported_key xs) → Once (map reported_key (take n xs))
take-Once zero xs o = tt
take-Once (suc n) [] o = tt
take-Once (suc n) (x ∷ xs) o = (contains-take (reported_key x) n xs o.0, take-Once n xs o.1)

forgets : (t : Table) → (waiting (ack (drain t).0) ≡ 0) × ((drain (ack (drain t).0)).1 ≡ [])
unfolding drain ack waiting sightings
forgets t = (refl, refl)

carried :
    (t : Table)
    → WellFormed t
    → Once t.inflight
    → All (IsReport t) (drain t).1 × Once (map reported_key (drain t).1)
unfolding drain
carried t w o =
    let flying = add_all t.dirty t.inflight in
    let all = sightings flying t.entries in
    let waits : (j : String) → contains j flying ≡ true → unreported t j ≡ true =
      λ j h. sym (contains-add_all j t.dirty t.inflight) ∙ h in
    let good =
      sort_by-All (IsReport t) more_recent all (sightings-IsReport t flying w.named waits) in
    let keys = sightings-keys flying t.entries w.named (λ j h. w.known j (waits j h)) in
    let once =
      Once-sort reported_key more_recent all
        (subst Once (sym keys) (Once-add_all t.dirty t.inflight o)) in
    elim (Bool-cases (ltb max_sightings (length (sort_by more_recent all)))) [
      | inl many ↦
          rw (many, drain)
            (take-All (IsReport t) max_sightings _ good, take-Once max_sightings _ once)
      | inr few ↦ rw (few, drain) (good, once)
    ]

-- In a well-formed table with no key in flight twice, a heartbeat carries all the devices that wait but no more than 2000, each once, and of
-- each what the table holds, the IPv6 addresses in order; and once it has arrived nothing waits and the next one carries nothing: those
-- beyond the 2000 are not kept.
pub ack_forgets :
    (t : Table)
    → WellFormed t
    → Once t.inflight
    → (length (drain t).1 ≡ (if ltb 2000 (waiting t) then 2000 else waiting t))
      × All (IsReport t) (drain t).1
      × Once (map reported_key (drain t).1)
      × (waiting (ack (drain t).0) ≡ 0)
      × ((drain (ack (drain t).0)).1 ≡ [])
ack_forgets t w o =
    let (good, once) = carried t w o in
    ((drain_counts t "" w).0, good, once, (forgets t).0, (forgets t).1)
