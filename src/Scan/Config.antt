-- ===== src/Scan/Config.antt =====
-- scan.go: `ParseConfig`.
use Prim.Native.String.{◌++◌ as ◌<>◌}
use excubra.Prelude.{
  ◌*◌, String, Bool, true, false, not, ◌&&◌, ◌||◌, Option, none, some, List, [], ◌∷◌, ◌++◌, ltb,
  leb, if◌then◌else◌, length, ℤ, pos, negsuc, ltb_ℤ, int64, str_eq, ◌==◌,
}
use excubra.GoTime.{Duration, second}
use excubra.GoText.{itoa, trim_space}
use excubra.Netip.{Netip}
use excubra.Scan.Types.{
  default_interval, min_interval, default_max_pps, hard_max_pps, most_ports, max_targets,
  ScanTarget, ScanConfig, Target, Config,
}

abbrev pub default_ports : List ℤ
default_ports =
    pos 21
    ∷ pos 22
    ∷ pos 23
    ∷ pos 25
    ∷ pos 53
    ∷ pos 80
    ∷ pos 110
    ∷ pos 111
    ∷ pos 135
    ∷ pos 139
    ∷ pos 143
    ∷ pos 389
    ∷ pos 443
    ∷ pos 445
    ∷ pos 465
    ∷ pos 515
    ∷ pos 548
    ∷ pos 554
    ∷ pos 587
    ∷ pos 631
    ∷ pos 636
    ∷ pos 873
    ∷ pos 993
    ∷ pos 995
    ∷ pos 1433
    ∷ pos 1521
    ∷ pos 1723
    ∷ pos 2049
    ∷ pos 2375
    ∷ pos 3000
    ∷ pos 3306
    ∷ pos 3389
    ∷ pos 4443
    ∷ pos 5000
    ∷ pos 5060
    ∷ pos 5061
    ∷ pos 5432
    ∷ pos 5900
    ∷ pos 5985
    ∷ pos 5986
    ∷ pos 6379
    ∷ pos 7443
    ∷ pos 8000
    ∷ pos 8006
    ∷ pos 8080
    ∷ pos 8081
    ∷ pos 8090
    ∷ pos 8181
    ∷ pos 8443
    ∷ pos 8444
    ∷ pos 8888
    ∷ pos 9000
    ∷ pos 9090
    ∷ pos 9100
    ∷ pos 9200
    ∷ pos 9443
    ∷ pos 10000
    ∷ pos 10443
    ∷ pos 11443
    ∷ pos 27017
    ∷ pos 62078
    ∷ []

abbrev pub default_external_ports : List ℤ
default_external_ports =
    pos 21
    ∷ pos 22
    ∷ pos 23
    ∷ pos 25
    ∷ pos 53
    ∷ pos 80
    ∷ pos 110
    ∷ pos 111
    ∷ pos 135
    ∷ pos 139
    ∷ pos 143
    ∷ pos 389
    ∷ pos 443
    ∷ pos 445
    ∷ pos 465
    ∷ pos 587
    ∷ pos 631
    ∷ pos 636
    ∷ pos 873
    ∷ pos 993
    ∷ pos 995
    ∷ pos 1194
    ∷ pos 1433
    ∷ pos 1521
    ∷ pos 1723
    ∷ pos 2049
    ∷ pos 2375
    ∷ pos 3306
    ∷ pos 3389
    ∷ pos 4443
    ∷ pos 5000
    ∷ pos 5060
    ∷ pos 5061
    ∷ pos 5432
    ∷ pos 5900
    ∷ pos 5985
    ∷ pos 5986
    ∷ pos 6379
    ∷ pos 7443
    ∷ pos 8000
    ∷ pos 8006
    ∷ pos 8080
    ∷ pos 8081
    ∷ pos 8090
    ∷ pos 8181
    ∷ pos 8443
    ∷ pos 8444
    ∷ pos 8888
    ∷ pos 9000
    ∷ pos 9090
    ∷ pos 9100
    ∷ pos 9200
    ∷ pos 9443
    ∷ pos 10000
    ∷ pos 10443
    ∷ pos 11443
    ∷ pos 27017
    ∷ []

-- The interval of the configuration; a product that does not fit in an int64 wraps around.
unfoldable pub choose_interval : ℤ → Duration × List String
choose_interval (negsuc s) = (pos default_interval, [])
choose_interval (pos s) =
    let asked = int64 (s * second) in
    if not (ltb 0 s)
    then (pos default_interval, [])
    else if ltb_ℤ asked (pos min_interval)
    then (pos min_interval, "scan: interval below an hour, using an hour" ∷ [])
    else (asked, [])

unfoldable pub choose_pps : ℤ → ℤ × List String
choose_pps (negsuc p) = (pos default_max_pps, [])
choose_pps (pos p) =
    if not (ltb 0 p)
    then (pos default_max_pps, [])
    else if ltb hard_max_pps p
    then (pos hard_max_pps, ("scan: max_pps above " <> (itoa hard_max_pps <> ", capped")) ∷ [])
    else (pos p, [])

abbrev pub same_ℤ : ℤ → ℤ → Bool
same_ℤ (pos a) (pos b) = a == b
same_ℤ (pos a) (negsuc b) = false
same_ℤ (negsuc a) (pos b) = false
same_ℤ (negsuc a) (negsuc b) = a == b

abbrev pub seen_port : ℤ → List ℤ → Bool
seen_port p [] = false
seen_port p (q ∷ qs) = same_ℤ q p || seen_port p qs

-- The loop over the configured ports, which keeps what it has kept; the `seen` ports are those.
unfoldable pub choose_ports : List ℤ → List ℤ → List ℤ × List String
choose_ports [] kept = (kept, [])
choose_ports (p ∷ ps) kept =
    let skip = choose_ports ps kept in
    let more = choose_ports ps (kept ++ (p ∷ [])) in
    if ltb_ℤ p (pos 1) || ltb_ℤ (pos 65535) p || seen_port p kept
    then skip
    else if leb most_ports (length (kept ++ (p ∷ [])))
    then (
      kept ++ (p ∷ []),
      ("scan: more than " <> (itoa most_ports <> " ports, ignoring the rest")) ∷ [],
    )
    else more

-- The ports that a round tries: those configured, if any is usable, else the built-in ones.
unfoldable pub effective_ports : List ℤ → List ℤ → List Target → List ℤ
effective_ports configured kept external =
    if ltb 0 (length external) && length configured == 0
    then default_external_ports
    else if ltb 0 (length kept)
    then kept
    else default_ports

module _ (n : Netip) where
  -- The address of a target, if it is a public IPv4 address of a site.
  unfoldable pub public_target : ScanTarget → Option n.Addr
  public_target t = elim (n.parse_addr (trim_space t.ip)) [
    | none ↦ none
    | some a ↦
        if not (n.is_4 a) || n.is_private a || n.is_loopback a || str_eq t.site_id ""
        then none
        else some a
  ]

  -- The loop over the external targets.
  unfoldable pub choose_external : List ScanTarget → List Target → List Target × List String
  choose_external [] kept = (kept, [])
  choose_external (t ∷ ts) kept = elim (public_target t) [
    | none ↦
        let (targets, errs) = choose_external ts kept in
        (
          targets,
          ("scan: external target "
                <> (n.quote t.ip
                    <> (" for " <> (n.quote t.site_id <> " is not a public IPv4 address"))))
              ∷ errs,
        )
    | some a ↦
        let kept1 = kept ++ (record { ip = n.text a; mac = ""; site_id = t.site_id } ∷ []) in
        elim (leb max_targets (length kept1)) [
          | true ↦ (
            kept1,
            ("scan: more than " <> (itoa max_targets <> " external targets, ignoring the rest"))
                ∷ [],
          )
          | false ↦ choose_external ts kept1
        ]
  ]

  -- The loop over what is never touched.
  unfoldable pub choose_exclude : List String → List n.Prefix × List String
  choose_exclude [] = ([], [])
  choose_exclude (x ∷ xs) =
      let (ps, errs) = choose_exclude xs in
      let bad =
        "scan: exclude " <> (n.quote (trim_space x) <> " is neither an address nor a network") in
      elim (n.parse_prefix (trim_space x)) [
        | some p ↦ (p ∷ ps, errs)
        | none ↦ elim (n.parse_addr (trim_space x)) [
          | some a ↦ (n.single a ∷ ps, errs)
          | none ↦ (ps, bad ∷ errs)
        ]
      ]

  unfoldable pub parse_config : ScanConfig → Config n × List String
  parse_config c =
      let (interval, e1) = choose_interval c.interval_s in
      let (pps, e2) = choose_pps c.max_pps in
      let (ports, e3) = choose_ports c.ports [] in
      let (external, e4) = choose_external c.external [] in
      let (exclude, e5) = choose_exclude c.exclude in
      (
        record {
          enabled = c.enabled;
          interval = interval;
          max_pps = pps;
          ports = effective_ports c.ports ports external;
          exclude = exclude;
          external = external;
        },
        e1 ++ e2 ++ e3 ++ e4 ++ e5,
      )
