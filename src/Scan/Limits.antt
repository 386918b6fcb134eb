-- ===== src/Scan/Limits.antt =====
-- The bounds that `ParseConfig` keeps, whatever the server sends.
use excubra.Prelude.{
  ◌*◌, ◌≤◌, ◌<◌, ◌≡◌, inl, inr, refl, Bool, true, false, ◌||◌, ◌&&◌, not, List, [], ◌∷◌, ◌++◌,
  arith, ltb, leb, ◌==◌, length, length-append, Bool-cases, Option-cases, ltb_ℤ, ℤ, pos, negsuc,
  int64,
}
use excubra.GoTime.{second}
use excubra.Netip.{Netip}
use excubra.Scan.Types.{
  min_interval, hard_max_pps, most_ports, max_targets, ScanTarget, ScanConfig, Target,
}
use excubra.Scan.Config.{
  choose_interval, choose_pps, choose_ports, seen_port, same_ℤ, public_target, choose_external,
  effective_ports, parse_config,
}

choose_interval_min : (s : ℤ) → ltb_ℤ (choose_interval s).0 (pos min_interval) ≡ false
unfolding choose_interval
choose_interval_min (negsuc s) = refl
choose_interval_min (pos s) = elim (Bool-cases (ltb 0 s)) [
  | inr off ↦ rw off refl
  | inl on ↦ elim (Bool-cases (ltb_ℤ (int64 (s * second)) (pos min_interval))) [
    | inl short ↦ rw (on, short) refl
    | inr long ↦ rw (on, long) long
  ]
]

-- A rate between 1 and the greatest allowed.
abbrev pub IsRate : ℤ → Type 0
IsRate (pos p) = (1 ≤ p) × (p ≤ hard_max_pps)
IsRate (negsuc p) = ⊥

choose_pps-IsRate : (p : ℤ) → IsRate (choose_pps p).0
unfolding choose_pps
choose_pps-IsRate (negsuc p) = (omega arith, omega arith)
choose_pps-IsRate (pos p) = elim (Bool-cases (ltb 0 p)) [
  | inr off ↦ rw off (omega arith, omega arith)
  | inl on ↦ elim (Bool-cases (ltb hard_max_pps p)) [
    | inl fast ↦ rw (on, fast) (omega arith, omega arith)
    | inr slow ↦ rw (on, slow) (ground arith, ground arith)
  ]
]

-- Ports in range, none twice.
abbrev pub distinct : List ℤ → Bool
distinct [] = true
distinct (p ∷ ps) = not (ltb_ℤ p (pos 1) || ltb_ℤ (pos 65535) p || seen_port p ps) && distinct ps

same_sym : (p q : ℤ) → same_ℤ p q ≡ same_ℤ q p
same_sym (pos a) (pos b) = ground arith
same_sym (pos a) (negsuc b) = refl
same_sym (negsuc a) (pos b) = refl
same_sym (negsuc a) (negsuc b) = ground arith

seen-last : (q p : ℤ) (ps : List ℤ) → seen_port q (ps ++ (p ∷ [])) ≡ (seen_port q ps || same_ℤ p q)
seen-last q p [] = ground arith
seen-last q p (r ∷ ps) = ground (arith, seen-last q p ps)

distinct-last :
    (p : ℤ) (ps : List ℤ)
    → (ltb_ℤ p (pos 1) || ltb_ℤ (pos 65535) p || seen_port p ps) ≡ false
    → distinct ps ≡ true
    → distinct (ps ++ (p ∷ [])) ≡ true
distinct-last p [] new d = ground arith
distinct-last p (q ∷ ps) new d =
    ground (arith, distinct-last p ps (ground arith) (ground arith), seen-last q p ps, same_sym q p)

-- What is left of a list of ports or targets that never grows past a bound.
choose_ports_bounds :
    (ps kept : List ℤ)
    → length kept < most_ports
    → distinct kept ≡ true
    → (length (choose_ports ps kept).0 ≤ most_ports) × (distinct (choose_ports ps kept).0 ≡ true)
unfolding choose_ports
choose_ports_bounds [] kept few d = (omega (arith, few), d)
choose_ports_bounds (p ∷ ps) kept few d =
    elim (Bool-cases (ltb_ℤ p (pos 1) || ltb_ℤ (pos 65535) p || seen_port p kept)) [
      | inl bad ↦ rw (bad, choose_ports) (choose_ports_bounds ps kept few d)
      | inr new ↦
          let grown = distinct-last p kept new d in
          let size = length-append kept (p ∷ []) in
          elim (Bool-cases (leb most_ports (length (kept ++ (p ∷ []))))) [
            | inl full ↦ rw (new, full, choose_ports) (omega (arith, size, few), grown)
            | inr room ↦
                rw (new, room, choose_ports)
                  (choose_ports_bounds ps (kept ++ (p ∷ [])) (ground arith) grown)
          ]
    ]

effective_ports_bounds :
    (configured kept : List ℤ) (external : List Target)
    → length kept ≤ most_ports
    → distinct kept ≡ true
    → let ports = effective_ports configured kept external in
      (0 < length ports) × (length ports ≤ most_ports) × (distinct ports ≡ true)
unfolding effective_ports
effective_ports_bounds configured kept external few d =
    elim (Bool-cases (ltb 0 (length external) && length configured == 0)) [
      | inl outside ↦ rw outside (omega arith, omega arith, refl)
      | inr inside ↦ elim (Bool-cases (ltb 0 (length kept))) [
        | inl some_left ↦ rw (inside, some_left) (ground arith, few, d)
        | inr none_left ↦ rw (inside, none_left) (omega arith, omega arith, refl)
      ]
    ]

module _ (n : Netip) where
  choose_external_bound :
      (ts : List ScanTarget) (kept : List Target)
      → length kept < max_targets
      → length (choose_external n ts kept).0 ≤ max_targets
  unfolding choose_external
  choose_external_bound [] kept few = omega (arith, few)
  choose_external_bound (t ∷ ts) kept few = elim (Option-cases (public_target n t)) [
    | inl bad ↦ rw (bad, choose_external) (choose_external_bound ts kept few)
    | inr (a, good) ↦
        let more = kept ++ (record { ip = n.text a; mac = ""; site_id = t.site_id } ∷ []) in
        let size =
          length-append kept (record { ip = n.text a; mac = ""; site_id = t.site_id } ∷ []) in
        elim (Bool-cases (leb max_targets (length more))) [
          | inl full ↦ rw (good, full, choose_external) (omega (arith, size, few))
          | inr room ↦
              rw (good, room, choose_external) (choose_external_bound ts more (ground arith))
        ]
  ]

-- Whatever the server sends, even an interval that wraps around, the configuration that comes of it scans at most once
-- an hour and at 1 to 50 attempts a second, on 1 to 128 different ports in 1..65535, and at most 1024 external targets.
pub parse_config_limits :
    (n : Netip) (c : ScanConfig)
    → let cfg = (parse_config n c).0 in
      (ltb_ℤ cfg.interval (pos min_interval) ≡ false)
      × IsRate cfg.max_pps
      × (0 < length cfg.ports)
      × (length cfg.ports ≤ most_ports)
      × (distinct cfg.ports ≡ true)
      × (length cfg.external ≤ max_targets)
unfolding parse_config
parse_config_limits n c =
    let (few, d) = choose_ports_bounds c.ports [] (omega arith) refl in
    let ports =
      effective_ports_bounds c.ports (choose_ports c.ports []).0 (choose_external n c.external []).0
        few d in
    (
      choose_interval_min c.interval_s,
      choose_pps-IsRate c.max_pps,
      ports.0,
      ports.1,
      ports.2,
      choose_external_bound n c.external [] (omega arith),
    )
