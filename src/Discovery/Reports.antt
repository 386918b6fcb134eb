-- ===== src/Discovery/Reports.antt =====
-- What a heartbeat carries of the devices that wait.
use excubra.Prelude.{
  ℕ, suc, ◌≤◌, ◌≡◌, inl, inr, refl, sym, ap, ◌∙◌, String, Bool, true, List, [], ◌∷◌, arith, eq_refl,
  if◌then◌else◌, contains, Bool-cases, Option-cases, length, length-take, ltb, map, contains-sort,
  sort_by, length-sort_by,
}
use excubra.GoMap.{Map, lookup, Entries-lookup}
use excubra.GoMap.Named.{is_some, Named}
use excubra.GoTime.{Time}
use excubra.Netip.{Netip}
use excubra.Discovery.Table.{
  Entry, key_of, key, Table, Sighting, clean_mac, is_device, see, annotate, add_all, sightings,
  more_recent, max_sightings, drain, nack,
}
use excubra.Discovery.Keys.{
  unreported, WellFormed, NoIp, contains-add_all, see-WellFormed, annotate-WellFormed, drain-waits,
  drain-WellFormed, nack-waits, nack-WellFormed,
}

abbrev pub reported_key : Sighting → String
reported_key s = key_of s.mac s.ip

sightings-known :
    (ks : List String) (m : Map Entry) (k : String)
    → Named key m
    → ((j : String) → contains j ks ≡ true → is_some (lookup j m) ≡ true)
    → (contains k (map reported_key (sightings ks m)) ≡ contains k ks)
      × (length (sightings ks m) ≡ length ks)
unfolding sightings
sightings-known [] m k e known = (refl, refl)
sightings-known (j ∷ ks) m k e known =
    let (there, size) = sightings-known ks m k e (λ i h. known i (ground (arith, h))) in
    elim (Option-cases (lookup j m)) [
      | inl miss ↦ cc (sym (known j (ground (arith, eq_refl j))) ∙ ap is_some miss)
      | inr (x, hit) ↦
          let name : key x ≡ j = Entries-lookup (λ i v. key v ≡ i) j m x e hit in
          rw (hit, sightings) (rw (name, there) refl, ap suc size)
    ]

-- How many devices the next heartbeat is to report.
unfoldable pub waiting : Table → ℕ
waiting t = length (add_all t.dirty t.inflight)

pub drain_counts :
    (t : Table) (k : String)
    → WellFormed t
    → (length (drain t).1 ≡ (if ltb max_sightings (waiting t) then max_sightings else waiting t))
      × (waiting t ≤ max_sightings → contains k (map reported_key (drain t).1) ≡ unreported t k)
unfolding drain waiting
drain_counts t k w =
    let flying = add_all t.dirty t.inflight in
    let (there, size) =
      sightings-known flying t.entries k w.named
        (λ j h. w.known j (sym (contains-add_all j t.dirty t.inflight) ∙ h)) in
    let out = sort_by more_recent (sightings flying t.entries) in
    let all = length-sort_by more_recent (sightings flying t.entries) ∙ size in
    let same =
      contains-sort reported_key more_recent k (sightings flying t.entries)
      ∙ there
      ∙ contains-add_all k t.dirty t.inflight in
    elim (Bool-cases (ltb max_sightings (length flying))) [
      | inl many ↦
          rw (all, many, drain)
            (length-take max_sightings out (ground (arith, all)), λ few. absurd (ground arith))
      | inr few ↦ rw (all, few, drain) (all, λ h. same)
    ]

-- In a well-formed table in which no more than 2000 devices wait, `Drain` hands over exactly those
-- that wait, each under its key.
pub drain_reports :
    (t : Table) (k : String)
    → WellFormed t
    → waiting t ≤ max_sightings
    → contains k (map reported_key (drain t).1) ≡ unreported t k
drain_reports t k w few = (drain_counts t k w).1 few

-- What a table meets between two heartbeats that arrive.
pub data Step : Type 0 where
  seen : String → String → String → Time → Step
  annotated : Step
  lost_heartbeat : Step

module _ (n : Netip) (mac_reads : String → Bool) (vendor_of name_of : String → String) where
  unfoldable pub step : Table → Step → Table
  step t (seen mac ip ip6 now) = see n mac_reads t mac ip ip6 now
  step t annotated = annotate vendor_of name_of t
  step t lost_heartbeat = nack (drain t).0

  unfoldable pub steps : Table → List Step → Table
  steps t [] = t
  steps t (x ∷ xs) = steps (step t x) xs

  step-waits :
      (t : Table) (x : Step) (k : String)
      → NoIp mac_reads
      → WellFormed t
      → WellFormed (step t x) × (unreported t k ≡ true → unreported (step t x) k ≡ true)
  unfolding step annotate
  step-waits t (seen mac ip ip6 now) k apart w =
      let (w1, s) = see-WellFormed n mac_reads t mac ip ip6 now apart w in
      (w1, λ h. s k ∙ rw h (ground arith))
  step-waits t annotated k apart w = (annotate-WellFormed vendor_of name_of t w, λ h. h)
  step-waits t lost_heartbeat k apart w = (
    nack-WellFormed (drain t).0 (drain-WellFormed t w),
    λ h. nack-waits (drain t).0 k ∙ drain-waits t k ∙ h,
  )

  steps-waits :
      (t : Table) (xs : List Step) (k : String)
      → NoIp mac_reads
      → WellFormed t
      → WellFormed (steps t xs) × (unreported t k ≡ true → unreported (steps t xs) k ≡ true)
  unfolding steps
  steps-waits t [] k apart w = (w, λ h. h)
  steps-waits t (x ∷ xs) k apart w =
      let (w1, s1) = step-waits t x k apart w in
      let (w2, s2) = steps-waits (step t x) xs k apart w1 in (w2, λ h. s2 (s1 h))

  -- A device that is seen is reported by the next heartbeat that arrives, however many are lost before it and
  -- whatever else is seen, as long as no more than 2000 devices wait then. The table is well-formed at first, and MAC addresses are told from keys of addresses.
  pub seen_device_reported :
      (t : Table) (mac ip ip6 : String) (now : Time) (xs : List Step)
      → NoIp mac_reads
      → WellFormed t
      → is_device n mac_reads (clean_mac mac) ip ≡ true
      → waiting (steps (see n mac_reads t mac ip ip6 now) xs) ≤ max_sightings
      → contains
          (key_of (clean_mac mac) ip)
          (map reported_key (drain (steps (see n mac_reads t mac ip ip6 now) xs)).1)
        ≡ true
  seen_device_reported t mac ip ip6 now xs apart w fits few =
      let k = key_of (clean_mac mac) ip in
      let (w1, s1) = see-WellFormed n mac_reads t mac ip ip6 now apart w in
      let (w2, s2) = steps-waits (see n mac_reads t mac ip ip6 now) xs k apart w1 in
      let later = steps (see n mac_reads t mac ip ip6 now) xs in
      drain_reports later k w2 few ∙ s2 (s1 k ∙ rw (fits, eq_refl k) refl)
