-- ===== src/Dnswatch/Config.antt =====
-- dnswatch.go: `ParseConfig` and `Apply`.
use Prim.Native.String.{◌++◌ as ◌<>◌}
use excubra.Prelude.{
  ℕ, ◌+◌, String, Bool, false, not, ◌&&◌, Option, none, some, List, [], ◌∷◌, ◌++◌, leb,
  if◌then◌else◌, pos, ltb_ℤ,
}
use excubra.GoText.{itoa, natural, after_plus, trim_space}
use excubra.Netip.{Netip}
use excubra.Dnswatch.Watch.{Config, Watch}
use excubra.Dnswatch.Forward.{HostPort}

abbrev pub max_upstreams : ℕ
max_upstreams = 4

abbrev pub max_local : ℕ
max_local = 8

pub record DnsConfig : Type 0 where
  pub enabled : Bool
  pub block : Bool
  pub upstreams : List String
  pub list_version : String
  pub local : List String

-- A port from 1 to 65535; a negative number is refused like one that is no number.
abbrev pub port_reads : String → Bool
port_reads port = elim (natural (after_plus port)) [
  | none ↦ false
  | some p ↦ leb 1 p && leb p 65_535
]

-- One item of a list: what it gives, or why it is refused.
abbrev pub Choice : Type 0 → Type 0
Choice A = Option A × List String

module _ (n : Netip) (hp : HostPort) where
  -- Host and port of a text that is trimmed; port 53 if it has none.
  abbrev pub parts_of : String → String × String
  parts_of u = elim (hp.split u) [ none ↦ (u, "53") | some parts ↦ parts ]

  unfoldable pub choose_upstream : String → Choice String
  choose_upstream text =
      let u = trim_space text in
      let (host, port) = parts_of u in
      elim (n.parse_addr host) [
        | none ↦ (none, ("dns: upstream " <> (n.quote u <> " is not an address")) ∷ [])
        | some a ↦
            if port_reads port
            then (some (hp.join (n.text a) port), [])
            else (none, ("dns: upstream " <> (n.quote u <> " has no usable port")) ∷ [])
      ]

  -- A network of hosts.
  abbrev pub is_lan : n.Prefix → Bool
  is_lan p =
      n.is_4 (n.address p) && not (ltb_ℤ (n.bits p) (pos 8)) && not (ltb_ℤ (pos 30) (n.bits p))

  unfoldable pub choose_local : String → Choice n.Prefix
  choose_local l =
      let bad = ("dns: local network " <> (n.quote l <> " is not an IPv4 network of hosts")) ∷ [] in
      elim (n.parse_prefix (trim_space l)) [
        | none ↦ (none, bad)
        | some p ↦ if is_lan p then (some (n.masked p), []) else (none, bad)
      ]

-- The loop over a list of which at most `most` items are read.
unfoldable pub choose_items :
    {A : Type 0} → (String → Choice A) → ℕ → String → List String → ℕ → List A × List String
choose_items choose most why [] i = ([], [])
choose_items choose most why (s ∷ ss) i =
    let (chosen, errs) = choose_items choose most why ss (i + 1) in
    let (item, refusal) = choose s in
    if leb most i
    then ([], why ∷ [])
    else (elim item [ none ↦ chosen | some x ↦ x ∷ chosen ], refusal ++ errs)

unfoldable pub parse_config : (n : Netip) → HostPort → DnsConfig → Config n × List String
parse_config n hp c =
    let (ups, e1) =
      choose_items (choose_upstream n hp) max_upstreams
        ("dns: more than " <> (itoa max_upstreams <> " upstreams, ignoring the rest")) c.upstreams
        0 in
    let (nets, e2) =
      choose_items (choose_local n hp) max_local
        ("dns: more than " <> (itoa max_local <> " local networks, ignoring the rest")) c.local 0 in
    (
      record {
        enabled = c.enabled;
        block = c.block;
        upstreams = ups;
        list_version = c.list_version;
        local = nets;
      },
      e1 ++ e2,
    )

unfoldable pub apply : {n : Netip} → Config n → Watch n → Watch n
apply c w = record w { cfg = c }
