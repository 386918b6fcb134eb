-- ===== src/Discovery/Limits.antt =====
-- The bounds that `ParseConfig` keeps, whatever the server sends.
use excubra.Prelude.{
  ℕ, ◌+◌, ◌-◌, ◌*◌, ◌≤◌, ◌≡◌, inl, inr, refl, String, true, false, Option, none, some, List, [],
  ◌∷◌, arith, ltb, leb, length, Bool-cases, Option-cases, ltb_ℤ, ℤ, pos, negsuc, int64, All,
}
use excubra.GoTime.{minute, second}
use excubra.GoText.{trim_space}
use excubra.Netip.{Netip}
use excubra.Discovery.Config.{
  max_subnets, max_prefix_bits, hard_max_pps, DiscoveryConfig, choose_subnet, choose_subnets,
  choose_interval, choose_pps, parse_config,
}

choose_interval_min : (s : ℤ) → ltb_ℤ (choose_interval s).0 (pos (5 * minute)) ≡ false
unfolding choose_interval
choose_interval_min (negsuc s) = refl
choose_interval_min (pos s) = elim (Bool-cases (ltb 0 s)) [
  | inr off ↦ rw off refl
  | inl on ↦ elim (Bool-cases (ltb_ℤ (int64 (s * second)) (pos (5 * minute)))) [
    | inl short ↦ rw (on, short) refl
    | inr long ↦ rw (on, long) long
  ]
]

-- A rate between 1 and the greatest allowed.
abbrev pub IsSweepRate : ℤ → Type 0
IsSweepRate (pos p) = (1 ≤ p) × (p ≤ hard_max_pps)
IsSweepRate (negsuc p) = ⊥

choose_pps-IsSweepRate : (p : ℤ) → IsSweepRate (choose_pps p).0
unfolding choose_pps
choose_pps-IsSweepRate (negsuc p) = (omega arith, omega arith)
choose_pps-IsSweepRate (pos p) = elim (Bool-cases (ltb 0 p)) [
  | inr off ↦ rw off (omega arith, omega arith)
  | inl on ↦ elim (Bool-cases (ltb hard_max_pps p)) [
    | inl fast ↦ rw (on, fast) (omega arith, omega arith)
    | inr slow ↦ rw (on, slow) (ground arith, ground arith)
  ]
]

module _ (n : Netip) where
  -- The base of an IPv4 network that is no larger than a /22.
  abbrev pub IsSmall : n.Prefix → Type 0
  IsSmall q =
      (p : n.Prefix) × (q ≡ n.masked p)
      × (n.is_4 (n.address p) ≡ true)
      × (ltb_ℤ (n.bits p) (pos max_prefix_bits) ≡ false)

  -- None, or a small one.
  abbrev AreSmall : Option n.Prefix → Type 0
  AreSmall none = Unit
  AreSmall (some q) = IsSmall q

  choose_subnet-IsSmall : (s : String) → AreSmall (choose_subnet n s).0
  unfolding choose_subnet
  choose_subnet-IsSmall s = elim (Option-cases (n.parse_prefix (trim_space s))) [
    | inl bad ↦ rw (bad, AreSmall) tt
    | inr (p, e) ↦ elim (Bool-cases (n.is_4 (n.address p))) [
      | inr six ↦ rw (e, six, AreSmall) tt
      | inl four ↦ elim (Bool-cases (ltb_ℤ (n.bits p) (pos max_prefix_bits))) [
        | inl large ↦ rw (e, four, large, AreSmall) tt
        | inr small ↦ rw (e, four, small, AreSmall) (p, refl, four, small)
      ]
    ]
  ]

  choose_subnets-IsSmall :
      (ss : List String) (i : ℕ)
      → All IsSmall (choose_subnets n ss i).0 × (length (choose_subnets n ss i).0 ≤ max_subnets - i)
  unfolding choose_subnets
  choose_subnets-IsSmall [] i = (tt, omega arith)
  choose_subnets-IsSmall (s ∷ ss) i =
      let (small, few) = choose_subnets-IsSmall ss (i + 1) in
      let one = choose_subnet-IsSmall s in
      elim (Bool-cases (leb max_subnets i)) [
        | inl over ↦ rw (over, choose_subnets) (tt, omega arith)
        | inr room ↦ elim (Option-cases (choose_subnet n s).0) [
          | inl refused ↦ rw (room, refused, choose_subnets) (small, omega (arith, few))
          | inr (q, taken) ↦
              rw (room, taken, choose_subnets) ((rw taken at one, small), ground (arith, few))
        ]
      ]

-- Whatever the server sends, even an interval that wraps around, the configuration that comes of it sweeps at
-- most every five minutes, at 1 to 100 packets a second, and at most eight further subnets, each the base of an IPv4 network no larger than a /22.
pub discovery_limits :
    (n : Netip) (c : DiscoveryConfig)
    → let cfg = (parse_config n c).0 in
      (ltb_ℤ cfg.interval (pos (5 * minute)) ≡ false)
      × IsSweepRate cfg.max_pps
      × All (IsSmall n) cfg.subnets
      × (length cfg.subnets ≤ max_subnets)
unfolding parse_config
discovery_limits n c =
    let (small, few) = choose_subnets-IsSmall n c.subnets 0 in
    (
      choose_interval_min c.sweep_interval_s,
      choose_pps-IsSweepRate c.max_pps,
      small,
      omega (arith, few),
    )
