-- ===== src/Dnswatch/Resolver.antt =====
-- What the sensor will do, whatever configuration it is sent.
use excubra.Prelude.{
  refl, not, ◌&&◌, ltb_ℤ, ℤ, pos, negsuc, ℕ, ◌+◌, ◌-◌, ◌≤◌, ◌≡◌, inl, inr, sym, String, true, some,
  List, [], ◌∷◌, arith, leb, length, Bool-cases, Option-cases, some_inj, All,
}
use excubra.GoText.{trim_space, natural, after_plus}
use excubra.Netip.{Netip}
use excubra.Dnswatch.Forward.{HostPort}
use excubra.Dnswatch.Config.{
  max_upstreams, max_local, DnsConfig, Choice, parts_of, port_reads, choose_upstream, is_lan,
  choose_local, choose_items, parse_config,
}

module _ {A : Type 0} (choose : String → Choice A) (most : ℕ) (why : String) where
  choose_items-length :
      (ss : List String) (i : ℕ) → length (choose_items choose most why ss i).0 ≤ most - i
  unfolding choose_items
  choose_items-length [] i = omega arith
  choose_items-length (s ∷ ss) i = elim (Bool-cases (leb most i)) [
    | inl full ↦ rw full (omega arith)
    | inr room ↦
        let rest = choose_items-length ss (i + 1) in
        elim (Option-cases (choose s).0) [
          | inl refused ↦ rw (room, refused) (ground (arith, rest))
          | inr (x, taken) ↦ rw (room, taken) (ground (arith, rest, room))
        ]
  ]

  choose_items-All :
      (P : A → Type 0)
      → ((s : String) (x : A) → (choose s).0 ≡ some x → P x)
      → (ss : List String) (i : ℕ) → All P (choose_items choose most why ss i).0
  unfolding choose_items
  choose_items-All P good [] i = tt
  choose_items-All P good (s ∷ ss) i = elim (Bool-cases (leb most i)) [
    | inl full ↦ rw full tt
    | inr room ↦
        let rest = choose_items-All P good ss (i + 1) in
        elim (Option-cases (choose s).0) [
          | inl refused ↦ rw (room, refused) rest
          | inr (x, taken) ↦ rw (room, taken) (good s x taken, rest)
        ]
  ]

module _ (n : Netip) (hp : HostPort) where
  -- An address with a port from 1 to 65535.
  abbrev pub IsUpstream : String → Type 0
  IsUpstream u =
      (a : n.Addr) × (port : String) × (p : ℕ) × (u ≡ hp.join (n.text a) port)
      × (natural (after_plus port) ≡ some p)
      × (1 ≤ p)
      × (p ≤ 65_535)

  -- The base of an IPv4 network with 8 to 30 bits.
  abbrev pub IsLan : n.Prefix → Type 0
  IsLan q =
      (p : n.Prefix) × (b : ℕ) × (q ≡ n.masked p)
      × (n.is_4 (n.address p) ≡ true)
      × (n.bits p ≡ pos b)
      × (8 ≤ b)
      × (b ≤ 30)

  port_reads-bounds :
      (port : String)
      → port_reads port ≡ true
      → (p : ℕ) × (natural (after_plus port) ≡ some p) × (1 ≤ p) × (p ≤ 65_535)
  port_reads-bounds port e = elim (Option-cases (natural (after_plus port))) [
    | inl bad ↦ cc (rw (bad, port_reads) at e)
    | inr (p, good) ↦
        let e1 : (leb 1 p && leb p 65_535) ≡ true = rw (good, port_reads) at e in
        (p, good, ground (arith, e1), ground (arith, e1))
  ]

  bits_between :
      (z : ℤ)
      → (not (ltb_ℤ z (pos 8)) && not (ltb_ℤ (pos 30) z)) ≡ true
      → (b : ℕ) × (z ≡ pos b) × (8 ≤ b) × (b ≤ 30)
  bits_between (pos b) e = (b, refl, ground (arith, e), ground (arith, e))
  bits_between (negsuc b) e = cc e

  choose_upstream-IsUpstream : (s u : String) → (choose_upstream n hp s).0 ≡ some u → IsUpstream u
  unfolding choose_upstream
  choose_upstream-IsUpstream s u e =
      let host = (parts_of n hp (trim_space s)).0 in
      let port = (parts_of n hp (trim_space s)).1 in
      elim (Option-cases (n.parse_addr host)) [
        | inl bad ↦ cc (rw (bad, choose_upstream) at e)
        | inr (a, reads) ↦ elim (Bool-cases (port_reads port)) [
          | inr unusable ↦ cc (rw (reads, unusable, choose_upstream) at e)
          | inl usable ↦
              (let (p, number, low, high) = port_reads-bounds port usable in
                (
                  a,
                  port,
                  p,
                  sym (some_inj (rw (reads, usable, choose_upstream) at e)),
                  number,
                  low,
                  high,
                ))
        ]
      ]

  choose_local-IsLan : (s : String) (q : n.Prefix) → (choose_local n hp s).0 ≡ some q → IsLan q
  unfolding choose_local
  choose_local-IsLan s q e = elim (Option-cases (n.parse_prefix (trim_space s))) [
    | inl bad ↦ cc (rw (bad, choose_local) at e)
    | inr (p, reads) ↦ elim (Bool-cases (is_lan n hp p)) [
      | inr wide ↦ cc (rw (reads, wide, choose_local) at e)
      | inl lan ↦
          let (b, bits, low, high) = bits_between (n.bits p) (ground (arith, lan)) in
          (
            p,
            b,
            sym (some_inj (rw (reads, lan, choose_local) at e)),
            ground (arith, lan),
            bits,
            low,
            high,
          )
    ]
  ]

-- Whatever the server sends, `ParseConfig` takes from it as upstreams four addresses at most, each with a port from 1 to 65535, and as the LAN
-- eight networks at most, each the base of an IPv4 network with 8 to 30 bits.
pub parse_config_resolver :
    (n : Netip) (hp : HostPort) (c : DnsConfig)
    → (length (parse_config n hp c).0.upstreams ≤ 4)
      × All (IsUpstream n hp) (parse_config n hp c).0.upstreams
      × (length (parse_config n hp c).0.local ≤ 8)
      × All (IsLan n hp) (parse_config n hp c).0.local
unfolding parse_config
parse_config_resolver n hp c = (
  choose_items-length (choose_upstream n hp) max_upstreams _ c.upstreams 0,
  choose_items-All (choose_upstream n hp) max_upstreams _ (IsUpstream n hp)
      (choose_upstream-IsUpstream n hp) c.upstreams 0,
  choose_items-length (choose_local n hp) max_local _ c.local 0,
  choose_items-All (choose_local n hp) max_local _ (IsLan n hp) (choose_local-IsLan n hp) c.local 0,
)
