-- ===== src/Dnswatch/Handle.antt =====
-- dnswatch.go: `handle` and `servedAddress`. `name_of` is the name of a question as a text.
use Prim.Native.String.{◌++◌ as ◌<>◌}
use excubra.Prelude.{
  ℕ, ◌+◌, String, Bool, false, not, ◌&&◌, ◌||◌, Option, none, some, List, [], ◌∷◌, ◌==◌,
  if◌then◌else◌, str_eq, add, pos, negsuc,
}
use excubra.GoTime.{Time}
use excubra.Wire.{signal_dns_block}
use excubra.Netip.{Netip}
use excubra.Dnswatch.Detect.{random_looking, tunnel_like}
use excubra.Dnswatch.Message.{Question, parse_question, rcode, answer}
use excubra.Dnswatch.Watch.{Watch}
use excubra.Dnswatch.Forward.{
  HostPort, Network, Upstreams, upstreams, is_upstream, exchange, forward,
}
use excubra.Dnswatch.Sensors.{listed, note_loop, signal, dns_signal, dga, tunnel}

abbrev pub rcode_nx : ℕ
rcode_nx = 3

abbrev pub rcode_fail : ℕ
rcode_fail = 2

module _ (n : Netip) where
  unfoldable pub in_local : List n.Prefix → n.Addr → Bool
  in_local [] a = false
  in_local (p ∷ ps) a = n.contains p a || in_local ps a

  -- `unmap` is `Addr.Unmap`.
  unfoldable pub served_address : (n.Addr → n.Addr) → String → List n.Prefix → Bool
  served_address unmap src local = elim (n.parse_addr src) [
    | none ↦ false
    | some a ↦
        let b = unmap a in
        n.is_private b || n.is_loopback b || n.is_link_local b || in_local local b
  ]

-- What `handle` reads beside the sensor's state: the parameters above, the box's own resolvers, and
-- what the upstreams send back.
pub record Outside (n : Netip) : Type 0 where
  pub hp : HostPort
  pub unmap : n.Addr → n.Addr
  pub name_of : List ℕ → String
  pub system : List String
  pub ups : Upstreams

module _ (n : Netip) where
  -- Behind the blocklist: the answer of an upstream, watched on its way back.
  unfoldable pub relay :
      Outside n → Watch n → List ℕ → Question → String → Network → Time → Option (List ℕ) × Watch n
  relay o w msg q src network now =
      elim (forward (exchange o.ups msg network) w (upstreams n o.hp w.cfg o.system)) [
        | none ↦ (
          some (answer msg q rcode_fail),
          record w { pending = record w.pending { failed = w.pending.failed + 1 } },
        )
        | some r ↦
            let name = o.name_of q.name in
            let nx : Bool = elim (rcode r.answer) [ pos c ↦ c == rcode_nx | negsuc c ↦ false ] in
            let w1 = record w { up_idx = r.index; upstream = r.upstream } in
            let w2 =
              if nx
              then record w1 {
                pending = record w1.pending { nx_domain = w1.pending.nx_domain + 1 };
              }
              else w1 in
            let w3 = if nx && random_looking name then dga w2 src name now else w2 in
            let w4 = if tunnel_like name q.type then tunnel w3 src name now else w3 in
            (some r.answer, w4)
      ]

  -- A question of a client that is not an upstream.
  unfoldable pub judge :
      Outside n → Watch n → List ℕ → Question → String → Network → Time → Option (List ℕ) × Watch n
  judge o w msg q src network now =
      let name = o.name_of q.name in
      let d = listed w.list name in
      let counted = record w {
        pending = record w.pending { queries = w.pending.queries + 1 };
        seen = add src w.seen;
      } in
      let blocked =
        signal
          (record counted {
            pending = record counted.pending { blocked = counted.pending.blocked + 1 };
          })
          (dns_signal signal_dns_block src 1 (d <> ("|" <> (name <> ("|" <> "blocked")))) now) in
      let reported =
        signal counted
          (dns_signal signal_dns_block src 1 (d <> ("|" <> (name <> ("|" <> "reported")))) now) in
      if str_eq d ""
      then relay o counted msg q src network now
      else if w.cfg.block
      then (some (answer msg q rcode_nx), blocked)
      else relay o reported msg q src network now

  unfoldable pub handle :
      Outside n → Watch n → List ℕ → String → Network → Time → Option (List ℕ) × Watch n
  handle o w msg src network now =
      if not (served_address n o.unmap src w.cfg.local)
      then (none, record w { pending = record w.pending { refused = w.pending.refused + 1 } })
      else elim (parse_question msg) [
        | none ↦ (none, w)
        | some q ↦
            if is_upstream o.hp (upstreams n o.hp w.cfg o.system) src
            then (some (answer msg q rcode_fail), note_loop w src)
            else judge o w msg q src network now
      ]
