-- ===== src/Discovery/Config.antt =====
-- discovery.go: the limits and `ParseConfig`.
use Prim.Native.String.{◌++◌ as ◌<>◌}
use excubra.Prelude.{
  ℕ, ◌+◌, ◌*◌, String, not, ◌||◌, Option, none, some, List, [], ◌∷◌, ◌++◌, ltb, leb, if◌then◌else◌,
  str_eq, ℤ, pos, negsuc, ltb_ℤ, int64,
}
use excubra.GoTime.{Duration, minute, second}
use excubra.GoText.{itoa, trim_space}
use excubra.Netip.{Netip}

abbrev pub max_subnets : ℕ
max_subnets = 8

abbrev pub max_prefix_bits : ℕ
max_prefix_bits = 22

abbrev pub default_max_pps : ℕ
default_max_pps = 50

abbrev pub hard_max_pps : ℕ
hard_max_pps = 100

abbrev pub default_interval : ℕ
default_interval = 15 * minute

abbrev pub discovery_passive : String
discovery_passive = "passive"

abbrev pub discovery_sweep : String
discovery_sweep = "sweep"

pub record DiscoveryConfig : Type 0 where
  pub mode : String
  pub subnets : List String
  pub sweep_interval_s : ℤ
  pub max_pps : ℤ

pub record Config (n : Netip) : Type 0 where
  pub mode : String
  pub subnets : List n.Prefix
  pub interval : Duration
  pub max_pps : ℤ

module _ (n : Netip) where
  unfoldable pub choose_mode : String → String × List String
  choose_mode mode =
      if str_eq mode discovery_passive || str_eq mode ""
      then (discovery_passive, [])
      else if str_eq mode discovery_sweep
      then (discovery_sweep, [])
      else (
        discovery_passive,
        ("discovery: unknown mode " <> (n.quote mode <> ", using passive")) ∷ [],
      )

  -- One subnet: the network to sweep, or why it is refused.
  unfoldable pub choose_subnet : String → Option n.Prefix × List String
  choose_subnet s =
      let bad = ("discovery: subnet " <> (n.quote s <> " is not an IPv4 CIDR")) ∷ [] in
      elim (n.parse_prefix (trim_space s)) [
        | none ↦ (none, bad)
        | some p ↦
            if not (n.is_4 (n.address p))
            then (none, bad)
            else if ltb_ℤ (n.bits p) (pos max_prefix_bits)
            then (
              none,
              ("discovery: subnet "
                    <> (s <> (" is larger than a /" <> (itoa max_prefix_bits <> ", ignored"))))
                  ∷ [],
            )
            else (some (n.masked p), [])
      ]

  -- The loop over the subnets.
  unfoldable pub choose_subnets : List String → ℕ → List n.Prefix × List String
  choose_subnets [] i = ([], [])
  choose_subnets (s ∷ ss) i =
      let (ps, errs) = choose_subnets ss (i + 1) in
      let (p, why) = choose_subnet s in
      let chosen : List n.Prefix = elim p [ none ↦ ps | some q ↦ q ∷ ps ] in
      if leb max_subnets i
      then (
        [],
        ("discovery: more than " <> (itoa max_subnets <> " subnets, ignoring the rest")) ∷ [],
      )
      else (chosen, why ++ errs)

-- The interval of the configuration; a product that does not fit in an int64 wraps around.
unfoldable pub choose_interval : ℤ → Duration × List String
choose_interval (negsuc s) = (pos default_interval, [])
choose_interval (pos s) =
    let asked = int64 (s * second) in
    if not (ltb 0 s)
    then (pos default_interval, [])
    else if ltb_ℤ asked (pos (5 * minute))
    then (pos (5 * minute), "discovery: sweep interval below 5 minutes, using 5 minutes" ∷ [])
    else (asked, [])

unfoldable pub choose_pps : ℤ → ℤ × List String
choose_pps (negsuc p) = (pos default_max_pps, [])
choose_pps (pos p) =
    if not (ltb 0 p)
    then (pos default_max_pps, [])
    else if ltb hard_max_pps p
    then (pos hard_max_pps, ("discovery: max_pps above " <> (itoa hard_max_pps <> ", capped")) ∷ [])
    else (pos p, [])

unfoldable pub parse_config : (n : Netip) → DiscoveryConfig → Config n × List String
parse_config n c =
    let (mode, e1) = choose_mode n c.mode in
    let (interval, e2) = choose_interval c.sweep_interval_s in
    let (pps, e3) = choose_pps c.max_pps in
    let (subnets, e4) = choose_subnets n c.subnets 0 in
    (
      record { mode = mode; subnets = subnets; interval = interval; max_pps = pps },
      e1 ++ e2 ++ e3 ++ e4,
    )
