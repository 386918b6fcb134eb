-- ===== src/Scan/Hosts.antt =====
-- What a round finds: the hosts that it was to scan, each once, with no more services than a host may have.
use excubra.Prelude.{
  ◌≤◌, ◌<◌, ◌≡◌, inl, inr, refl, sym, ap, ◌∙◌, String, false, ◌||◌, List, [], ◌∷◌, arith, ltb, ◌==◌,
  length, length-append, Bool-cases, Option-cases, All, Once, contains, map, length-sort_by, Rising,
  sort_by-Rising, subst, contains-sort, Once-sort, sort_by-All, eq_iff,
}
use excubra.GoMap.{
  Map, lookup, insert, values, Unique, Entries, lookup-insert, insert-Unique, insert-Entries,
  Entries-lookup,
}
use excubra.GoMap.Named.{is_some, Named, contains-values, Once-values}
use excubra.GoTime.{Time}
use excubra.Netip.{Netip}
use excubra.Scan.Types.{max_scan_services, ScanService, ScanHost, Target, Config, Scanner}
use excubra.Scan.Round.{
  targets, Probe, failed, closed, listening, Results, blank, blanks, add_service, arrive,
  arrive_all, port_earlier, host_earlier, sort_services, sorted_hosts, scan_round,
}

abbrev pub host_ip : ScanHost → String
host_ip h = h.ip

-- A table of hosts under their addresses, none with too many services.
record Table (m : Map ScanHost) : Type 0 where
  unique : Unique m
  named : Named host_ip m
  few : Entries (λ k h. length h.services ≤ max_scan_services) m

insert-Table :
    (k : String) (h : ScanHost) (m : Map ScanHost)
    → h.ip ≡ k
    → length h.services ≤ max_scan_services
    → Table m
    → Table (insert k h m)
insert-Table k h m name few t = record {
  unique = insert-Unique k h m t.unique;
  named = insert-Entries (λ j v. host_ip v ≡ j) k h m name t.named;
  few = insert-Entries (λ j v. length v.services ≤ max_scan_services) k h m few t.few;
}

blanks-Table : (ts : List Target) (m : Map ScanHost) → Table m → Table (blanks ts m)
unfolding blanks
blanks-Table [] m t = t
blanks-Table (x ∷ ts) m t =
    blanks-Table ts (insert x.ip (blank x) m) (insert-Table x.ip (blank x) m refl (omega arith) t)

blanks-lookup :
    (ts : List Target) (m : Map ScanHost) (k : String)
    → is_some (lookup k (blanks ts m))
      ≡ (contains k (map (λ (u : Target). u.ip) ts) || is_some (lookup k m))
unfolding blanks
blanks-lookup [] m k = refl
blanks-lookup (x ∷ ts) m k =
    blanks-lookup ts (insert x.ip (blank x) m) k ∙ ground (arith, lookup-insert x.ip k (blank x) m)

add_service_lem :
    (svc : ScanService) (h : ScanHost)
    → ((add_service svc h).ip ≡ h.ip)
      × (length h.services ≤ max_scan_services
          → length (add_service svc h).services ≤ max_scan_services)
unfolding add_service
add_service_lem svc h = elim (Bool-cases (ltb (length h.services) max_scan_services)) [
  | inl room ↦ rw room (refl, λ few. ground (arith, length-append h.services (svc ∷ [])))
  | inr full ↦ rw full (refl, λ few. few)
]

-- A probe adds no host and takes none.
Same : Map ScanHost → Map ScanHost → Type 0
Same m m' = (k : String) → is_some (lookup k m') ≡ is_some (lookup k m)

arrive-Table :
    (r : Results) (x : String × Probe)
    → Table r.hosts
    → Table (arrive r x).hosts × Same r.hosts (arrive r x).hosts
unfolding arrive Same
arrive-Table r (ip, failed) t = (t, λ k. refl)
arrive-Table r (ip, closed) t = (t, λ k. refl)
arrive-Table r (ip, listening svc) t = elim (Option-cases (lookup ip r.hosts)) [
  | inl e ↦ rw (e, arrive) (t, λ k. refl)
  | inr (h, e) ↦
      let name : h.ip ≡ ip = Entries-lookup (λ j v. host_ip v ≡ j) ip r.hosts h t.named e in
      let few =
        Entries-lookup (λ j v. length v.services ≤ max_scan_services) ip r.hosts h t.few e in
      let (name1, few1) = add_service_lem svc h in
      rw (e, arrive)
        (
          insert-Table ip (add_service svc h) r.hosts (name1 ∙ name) (few1 few) t,
          λ k.
              ap is_some (lookup-insert ip k (add_service svc h) r.hosts)
              ∙ ground (arith, eq_iff ip k, ap is_some e),
        )
]

arrive_all-Table :
    (r : Results) (xs : List (String × Probe))
    → Table r.hosts
    → Table (arrive_all r xs).hosts × Same r.hosts (arrive_all r xs).hosts
unfolding arrive_all Same
arrive_all-Table r [] t = (t, λ k. refl)
arrive_all-Table r (x ∷ xs) t =
    let (t1, s1) = arrive-Table r x t in
    let (t2, s2) = arrive_all-Table (arrive r x) xs t1 in (t2, λ k. s2 k ∙ s1 k)

-- What a host of the report is: its services in the order of their ports, and not too many.
abbrev pub IsTidy : ScanHost → Type 0
IsTidy h =
    (length h.services ≤ max_scan_services) × Rising (λ (svc : ScanService). svc.port) h.services

sort_services-IsTidy :
    (h : ScanHost) → length h.services ≤ max_scan_services → IsTidy (sort_services h)
unfolding sort_services
sort_services-IsTidy h few = (
  rw (length-sort_by port_earlier h.services) few,
  sort_by-Rising (λ (svc : ScanService). svc.port) h.services,
)

sorted-ips : (hs : List ScanHost) → map host_ip (map sort_services hs) ≡ map host_ip hs
unfolding sort_services
sorted-ips [] = refl
sorted-ips (h ∷ hs) = ap (λ l. h.ip ∷ l) (sorted-ips hs)

values-IsTidy :
    (m : Map ScanHost)
    → Entries (λ k h. length h.services ≤ max_scan_services) m
    → All IsTidy (map sort_services (values m))
values-IsTidy [] e = tt
values-IsTidy ((k, h) ∷ m) e = (sort_services-IsTidy h e.0, values-IsTidy m e.1)

-- The report of a table.
sorted_hosts-Table :
    (m : Map ScanHost)
    → Table m
    → All IsTidy (sorted_hosts m)
      × Once (map host_ip (sorted_hosts m))
      × ((k : String) → contains k (map host_ip (sorted_hosts m)) ≡ is_some (lookup k m))
unfolding sorted_hosts
sorted_hosts-Table m t =
    let hs = map sort_services (values m) in
    (
      sort_by-All IsTidy host_earlier hs (values-IsTidy m t.few),
      Once-sort host_ip host_earlier hs
          (subst Once (sym (sorted-ips (values m))) (Once-values host_ip m t.unique t.named)),
      λ k.
          contains-sort host_ip host_earlier k hs
          ∙ ap (contains k) (sorted-ips (values m))
          ∙ contains-values host_ip k m t.unique t.named,
    )

-- A round that has targets and is not cut short reports exactly their addresses, each once, whatever the
-- probes give and in whichever order they come back; a host has at most 64 services, in the order of their ports, and
-- the number of scanned hosts is that of the report.
pub scan_round_hosts :
    (n : Netip) (s : Scanner n) (cfg : Config n) (known : List Target) (started : Time)
    (probes : List (String × Probe)) (ip : String)
    → 0 < length (targets n cfg known)
    → let after = scan_round n s cfg known started probes false in
      All IsTidy after.pending
      × Once (map host_ip after.pending)
      × (contains ip (map host_ip after.pending)
          ≡ contains ip (map (λ (t : Target). t.ip) (targets n cfg known)))
      × (after.scanned ≡ length after.pending)
unfolding scan_round Same
scan_round_hosts n s cfg known started probes ip some_targets =
    let chosen = targets n cfg known in
    let busy : (length chosen == 0) ≡ false = ground arith in
    let start : Table [] = record { unique = tt; named = tt; few = tt } in
    let (t, same) =
      arrive_all-Table (record { hosts = blanks chosen []; errs = 0 }) probes
        (blanks-Table chosen [] start) in
    let (tidy, once, addresses) =
      sorted_hosts-Table (arrive_all (record { hosts = blanks chosen []; errs = 0 }) probes).hosts
        t in
    rw (busy, scan_round)
      (tidy, once, addresses ip ∙ same ip ∙ blanks-lookup chosen [] ip ∙ ground arith, refl)
