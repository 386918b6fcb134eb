-- ===== src/Dnswatch/Forward.antt =====
-- dnswatch.go: `upstreams`, `isUpstream`, `forward`, `exchange`, and the framing of messages over
-- TCP.
use excubra.Prelude.{
  ℕ, zero, suc, ◌+◌, ◌/◌, ◌%◌, String, Bool, false, ◌&&◌, ◌||◌, Option, none, some, List, [], ◌∷◌,
  ltb, leb, ◌==◌, if◌then◌else◌, length, str_eq, take, drop,
}
use excubra.Netip.{Netip}
use excubra.Dnswatch.Message.{header_len, uint16}
use excubra.Dnswatch.Watch.{max_tcp_msg, default_upstreams, Config, Watch}

-- `net.SplitHostPort` and `net.JoinHostPort`.
pub record HostPort : Type 0 where
  pub split : String → Option (String × String)
  pub join : String → String → String

-- The box's own resolvers that are not itself.
unfoldable pub own_resolvers : Netip → HostPort → List String → List String
own_resolvers n hp [] = []
own_resolvers n hp (s ∷ ss) =
    let rest = own_resolvers n hp ss in
    let host : String = elim (hp.split s) [ none ↦ s | some (h, p) ↦ h ] in
    let addr : String = elim (hp.split s) [ none ↦ hp.join s "53" | some hp1 ↦ s ] in
    elim (n.parse_addr host) [
      | none ↦ rest
      | some a ↦ if n.is_loopback a then rest else addr ∷ rest
    ]

-- `system` are the resolvers of the box.
unfoldable pub upstreams : (n : Netip) → HostPort → Config n → List String → List String
upstreams n hp cfg system =
    let own = own_resolvers n hp system in
    if ltb 0 (length cfg.upstreams)
    then cfg.upstreams
    else if ltb 0 (length own)
    then own
    else default_upstreams

unfoldable pub is_upstream : HostPort → List String → String → Bool
is_upstream hp [] src = false
is_upstream hp (u ∷ us) src =
    elim (hp.split u) [ none ↦ false | some (h, p) ↦ str_eq h src ] || is_upstream hp us src

-- The datagrams from an upstream until the connection ends: the first that can be the answer.
unfoldable pub first_reply : List ℕ → List (List ℕ) → Option (List ℕ)
first_reply msg [] = none
first_reply msg (r ∷ rs) =
    let later = first_reply msg rs in
    if leb header_len (length r) && uint16 r 0 == uint16 msg 0 then some r else later

-- A message over TCP with its length in front of it.
unfoldable pub write_tcp : List ℕ → Option (List ℕ)
write_tcp msg =
    if ltb max_tcp_msg (length msg) then none else some (length msg / 256 ∷ length msg % 256 ∷ msg)

-- The message and the rest of the stream.
unfoldable pub read_tcp : List ℕ → Option (List ℕ × List ℕ)
read_tcp s =
    let n = uint16 s 0 in
    let body = drop 2 s in
    if ltb (length s) 2 || ltb n header_len || ltb max_tcp_msg n
    then none
    else if ltb (length body) n
    then none
    else some (take n body, drop n body)

pub data Network : Type 0 where
  udp : Network
  tcp : Network

-- What an upstream sends back for a query: over UDP the datagrams, over TCP the bytes; `none` if no
-- connection is made or the query cannot be sent.
pub record Upstreams : Type 0 where
  pub datagrams : String → List ℕ → Option (List (List ℕ))
  pub stream : String → List ℕ → Option (List ℕ)

unfoldable pub exchange : Upstreams → List ℕ → Network → String → Option (List ℕ)
exchange ups msg udp upstream = elim (ups.datagrams upstream msg) [
  | none ↦ none
  | some rs ↦ first_reply msg rs
]
exchange ups msg tcp upstream = elim (write_tcp msg) [
  | none ↦ none
  | some framed ↦ elim (ups.stream upstream framed) [
    | none ↦ none
    | some s ↦ elim (read_tcp s) [ none ↦ none | some (m, rest) ↦ some m ]
  ]
]

abbrev pub upstream_at : List String → ℕ → String
upstream_at [] i = ""
upstream_at (u ∷ us) zero = u
upstream_at (u ∷ us) (suc i) = upstream_at us i

-- An upstream that answered, its place in the list, and the answer.
pub record Reply : Type 0 where
  pub answer : List ℕ
  pub upstream : String
  pub index : ℕ

-- The loop over the upstreams: so many are left, and this is the next place.
unfoldable pub try_upstreams : (String → Option (List ℕ)) → List String → ℕ → ℕ → ℕ → Option Reply
try_upstreams ask ups start i zero = none
try_upstreams ask ups start i (suc left) =
    let idx = (start + i) % length ups in
    let later = try_upstreams ask ups start (i + 1) left in
    elim (ask (upstream_at ups idx)) [
      | none ↦ later
      | some r ↦ some (record { answer = r; upstream = upstream_at ups idx; index = idx })
    ]

-- `ask` is `exchange` of the query over the network; `none` for every error.
unfoldable pub forward :
    {n : Netip} → (String → Option (List ℕ)) → Watch n → List String → Option Reply
forward ask w ups =
    let start = w.up_idx % length ups in
    let found = try_upstreams ask ups start 0 (length ups) in
    if length ups == 0 then none else found
