-- ===== src/Sentinel/Ports.antt =====
-- What `ParseConfig` lets through.
use excubra.Prelude.{
  ℕ, suc, ◌+◌, ◌≤◌, ◌≡◌, ◌≢◌, refl, ◌∙◌, inl, inr, true, false, ◌||◌, some, List, [], ◌∷◌, String,
  arith, ltb, leb, ◌==◌, ℤ, pos, negsuc, length, All, place, sort_by, sort_by-All, Bool-cases,
  Option-cases,
}
use excubra.Wire.{CanaryConfig}
use excubra.Sentinel.Types.{max_ports}
use excubra.Sentinel.Config.{default_ports, has_port, port_of, parse_ports, parse_config}

-- A number that a decoy may listen on.
abbrev pub IsDecoy : ℕ → Type 0
IsDecoy p = (1 ≤ p) × (p ≤ 65535) × (p ≢ 22)

abbrev pub Distinct : List ℕ → Type 0
Distinct [] = Unit {0}
Distinct (p ∷ ps) = (has_port p ps ≡ false) × Distinct ps

port_of-range : (p : ℤ) (q : ℕ) → port_of p ≡ some q → (1 ≤ q) × (q ≤ 65535)
unfolding port_of
port_of-range (pos n) q e = ground arith
port_of-range (negsuc n) q e = cc

-- What the loop returns, from the ports it has seen.
record Parsed (i : ℕ) (seen ports : List ℕ) : Type 0 where
  decoys : All IsDecoy ports
  few : length ports + i ≤ max_ports
  fresh : (q : ℕ) → has_port q seen ≡ true → has_port q ports ≡ false
  distinct : Distinct ports

nothing : (i : ℕ) (seen : List ℕ) → i ≤ max_ports → Parsed i seen []
nothing i seen le = record { decoys = tt; few = omega arith; fresh = λ q h. refl; distinct = tt }

later : (i : ℕ) (seen ports : List ℕ) → Parsed (i + 1) seen ports → Parsed i seen ports
later i seen ports p = record {
  decoys = p.decoys;
  few = omega (arith, p.few);
  fresh = p.fresh;
  distinct = p.distinct;
}

taken :
    (i q : ℕ) (seen ports : List ℕ)
    → IsDecoy q
    → has_port q seen ≡ false
    → Parsed (i + 1) (q ∷ seen) ports
    → Parsed i seen (q ∷ ports)
taken i q seen ports d new p = record {
  decoys = (d, p.decoys);
  few = omega (arith, p.few);
  fresh = λ r h. ground (arith, p.fresh r);
  distinct = (p.fresh q (ground arith), p.distinct);
}

parse_ports-Parsed :
    (ps : List ℤ) (i : ℕ) (seen : List ℕ) → i ≤ max_ports → Parsed i seen (parse_ports ps i seen).0
unfolding parse_ports
parse_ports-Parsed [] i seen le = nothing i seen le
parse_ports-Parsed (p ∷ ps) i seen le = elim (Bool-cases (leb max_ports i)) [
  | inl full ↦ rw (full, parse_ports) (nothing i seen le)
  | inr room ↦
      let next : i + 1 ≤ max_ports = ground arith in
      elim (Option-cases (port_of p)) [
        | inl e ↦
            rw (room, e, parse_ports) (later i seen _ (parse_ports-Parsed ps (i + 1) seen next))
        | inr (q, e) ↦ elim (Bool-cases (q == 22)) [
          | inl ssh ↦
              rw (room, e, ssh, parse_ports)
                (later i seen _ (parse_ports-Parsed ps (i + 1) seen next))
          | inr other ↦ elim (Bool-cases (has_port q seen)) [
            | inl old ↦
                rw (room, e, other, old, parse_ports)
                  (later i seen _ (parse_ports-Parsed ps (i + 1) seen next))
            | inr new ↦
                let (low, high) = port_of-range p q e in
                rw (room, e, other, new, parse_ports)
                  (taken i q seen _ (low, high, ground arith) new
                    (parse_ports-Parsed ps (i + 1) (q ∷ seen) next))
          ]
        ]
      ]
]

has_port-place : (q p : ℕ) (ps : List ℕ) → has_port q (place ltb p ps) ≡ (p == q || has_port q ps)
has_port-place q p [] = refl
has_port-place q p (r ∷ ps) = ground (arith, has_port-place q p ps)

Distinct-place :
    (p : ℕ) (ps : List ℕ) → has_port p ps ≡ false → Distinct ps → Distinct (place ltb p ps)
Distinct-place p [] new d = (refl, tt)
Distinct-place p (r ∷ ps) new d = elim (Bool-cases (ltb r p)) [
  | inr low ↦ rw low (new, d)
  | inl high ↦
      rw high (has_port-place r p ps ∙ ground arith, Distinct-place p ps (ground arith) d.1)
]

length-place : (p : ℕ) (ps : List ℕ) → length (place ltb p ps) ≡ suc (length ps)
length-place p [] = refl
length-place p (r ∷ ps) = ground (arith, length-place p ps)

has_port-sort : (q : ℕ) (ps : List ℕ) → has_port q (sort_by ltb ps) ≡ has_port q ps
has_port-sort q [] = refl
has_port-sort q (p ∷ ps) = has_port-place q p (sort_by ltb ps) ∙ rw (has_port-sort q ps)

Distinct-sort : (ps : List ℕ) → Distinct ps → Distinct (sort_by ltb ps)
Distinct-sort [] d = tt
Distinct-sort (p ∷ ps) d =
    Distinct-place p (sort_by ltb ps) (has_port-sort p ps ∙ d.0) (Distinct-sort ps d.1)

length-sort : (ps : List ℕ) → length (sort_by ltb ps) ≡ length ps
length-sort [] = refl
length-sort (p ∷ ps) = omega (arith, length-place p (sort_by ltb ps), length-sort ps)

abbrev SafePorts : List ℕ → Type 0
SafePorts ps = All IsDecoy ps × (length ps ≤ max_ports) × Distinct ps

sorted_SafePorts : (ps : List ℕ) → SafePorts ps → SafePorts (sort_by ltb ps)
sorted_SafePorts ps s =
    (sort_by-All IsDecoy ltb ps s.0, omega (arith, length-sort ps, s.1), Distinct-sort ps s.2)

configured_SafePorts :
    (ps : List ℤ)
    → SafePorts (
        sort_by ltb
          (elim ps as (λ _. List ℕ × List String) [
            | [] ↦ (default_ports, [])
            | q ∷ qs ↦ parse_ports (q ∷ qs) 0 []
          ]).0)
configured_SafePorts [] = (
  (
    (omega arith, omega arith, omega arith),
    (
      (omega arith, omega arith, omega arith),
      (
        (omega arith, omega arith, omega arith),
        ((omega arith, omega arith, omega arith), ((omega arith, omega arith, omega arith), tt)),
      ),
    ),
  ),
  omega arith,
  (refl, (refl, (refl, (refl, (refl, tt))))),
)
configured_SafePorts (p ∷ ps) =
    let parsed = parse_ports-Parsed (p ∷ ps) 0 [] (omega arith) in
    sorted_SafePorts (parse_ports (p ∷ ps) 0 []).0
      (parsed.decoys, omega (arith, parsed.few), parsed.distinct)

-- Whatever configuration is pulled, the decoys are at most sixteen different ports between 1 and
-- 65535, and 22 is none of them.
pub parse_config_safe :
    (c : CanaryConfig)
    → All IsDecoy (parse_config c).0.ports
      × (length (parse_config c).0.ports ≤ max_ports)
      × Distinct (parse_config c).0.ports
unfolding parse_config
parse_config_safe c = configured_SafePorts c.ports
