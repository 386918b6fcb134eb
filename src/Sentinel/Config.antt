-- ===== src/Sentinel/Config.antt =====
-- sentinel.go: `ParseConfig` and `Apply`.
use Prim.Native.String.{◌++◌ as ◌<>◌}
use excubra.Prelude.{
  ℕ, ◌+◌, String, Bool, true, false, Option, none, some, List, [], ◌∷◌, ltb, leb, ◌==◌, not, ◌&&◌,
  ◌||◌, if◌then◌else◌, ℤ, pos, negsuc, sort_by,
}
use excubra.GoText.{itoa_ℤ}
use excubra.Wire.{CanaryConfig}
use excubra.Sentinel.Types.{Config, Self, Sentinel, max_ports}

abbrev pub default_ports : List ℕ
default_ports = 445 ∷ 3389 ∷ 23 ∷ 1433 ∷ 5900 ∷ []

abbrev pub has_port : ℕ → List ℕ → Bool
has_port p [] = false
has_port p (q ∷ qs) = q == p || has_port p qs

-- The number, if it is one of a port.
unfoldable pub port_of : ℤ → Option ℕ
port_of (pos p) = if leb 1 p && leb p 65535 then some p else none
port_of (negsuc p) = none

-- The loop over the configured ports; `seen` holds the ports taken so far.
unfoldable pub parse_ports : List ℤ → ℕ → List ℕ → List ℕ × List String
parse_ports [] i seen = ([], [])
parse_ports (p ∷ ps) i seen = elim (leb max_ports i) [
  | true ↦ ([], "canary: more than 16 ports, ignoring the rest" ∷ [])
  | false ↦ elim (port_of p) [
    | none ↦
        let (ports, errs) = parse_ports ps (i + 1) seen in
        (ports, ("canary: port " <> (itoa_ℤ p <> " is not a port")) ∷ errs)
    | some q ↦ elim (q == 22) [
      | true ↦
          let (ports, errs) = parse_ports ps (i + 1) seen in
          (ports, "canary: port 22 is never a decoy (real SSH may live there)" ∷ errs)
      | false ↦ elim (has_port q seen) [
        | true ↦ parse_ports ps (i + 1) seen
        | false ↦ let (ports, errs) = parse_ports ps (i + 1) (q ∷ seen) in (q ∷ ports, errs)
      ]
    ]
  ]
]

unfoldable pub parse_config : CanaryConfig → Config × List String
parse_config c =
    let parsed : List ℕ × List String = elim c.ports [
      | [] ↦ (default_ports, [])
      | p ∷ ps ↦ parse_ports (p ∷ ps) 0 []
    ] in
    (record { enabled = c.enabled; ports = sort_by ltb parsed.0 }, parsed.1)

abbrev pub same_ports : List ℕ → List ℕ → Bool
same_ports [] [] = true
same_ports [] (q ∷ qs) = false
same_ports (p ∷ ps) [] = false
same_ports (p ∷ ps) (q ∷ qs) = p == q && same_ports ps qs

abbrev same_bool : Bool → Bool → Bool
same_bool true b = b
same_bool false b = not b

unfoldable pub apply : Sentinel → Config → Sentinel
apply s c = record s {
  cfg = c;
  decoys = c.ports;
  failed =
      if not (same_bool c.enabled s.cfg.enabled) || not (same_ports c.ports s.cfg.ports)
      then []
      else s.failed;
}

-- What `rebind` learns of the box itself; the listeners that it opens and closes are left out.
unfoldable pub learn_self : Sentinel → Self → Sentinel
learn_self s self = record s { self = self }
