-- ===== src/Dnswatch/Answers.antt =====
-- Which queries are answered, and which never leave the box.
use excubra.Prelude.{
  ℕ, ◌+◌, ◌≡◌, ◌≢◌, inl, inr, refl, String, true, false, ◌&&◌, some, List, arith, str_eq, eq_iff,
  pos, Bool-cases, Option-cases,
}
use excubra.GoMap.Named.{is_some}
use excubra.GoTime.{Time}
use excubra.Netip.{Netip}
use excubra.Dnswatch.Message.{Question, parse_question, rcode, answer}
use excubra.Dnswatch.Questions.{parse_question_bounds, answer_header}
use excubra.Dnswatch.Watch.{Watch}
use excubra.Dnswatch.Forward.{Network, Upstreams, upstreams, is_upstream, exchange, forward}
use excubra.Dnswatch.Sensors.{listed, signal}
use excubra.Dnswatch.Handle.{rcode_nx, served_address, Outside, relay, judge, handle}

relay-answers :
    (n : Netip) (o : Outside n) (w : Watch n) (msg : List ℕ) (q : Question) (src : String)
    (network : Network) (now : Time)
    → is_some (relay n o w msg q src network now).0 ≡ true
unfolding relay
relay-answers n o w msg q src network now =
    elim (Option-cases (forward (exchange o.ups msg network) w (upstreams n o.hp w.cfg o.system))) [
      | inl lost ↦ rw (lost, relay) refl
      | inr (r, got) ↦ rw (got, relay) refl
    ]

judge-answers :
    (n : Netip) (o : Outside n) (w : Watch n) (msg : List ℕ) (q : Question) (src : String)
    (network : Network) (now : Time)
    → is_some (judge n o w msg q src network now).0 ≡ true
unfolding judge
judge-answers n o w msg q src network now =
    elim (Bool-cases (str_eq (listed w.list (o.name_of q.name)) "")) [
      | inl free ↦ rw (free, judge) (relay-answers n o _ msg q src network now)
      | inr on_list ↦ elim (Bool-cases w.cfg.block) [
        | inl block ↦ rw (on_list, block, judge) refl
        | inr report ↦ rw (on_list, report, judge) (relay-answers n o _ msg q src network now)
      ]
    ]

-- A query is answered exactly if its client is served and its question reads, whatever the upstreams do.
pub handle-answers :
    (n : Netip) (o : Outside n) (w : Watch n) (msg : List ℕ) (src : String) (network : Network)
    (now : Time)
    → is_some (handle n o w msg src network now).0
      ≡ (served_address n o.unmap src w.cfg.local && is_some (parse_question msg))
unfolding handle
handle-answers n o w msg src network now =
    elim (Bool-cases (served_address n o.unmap src w.cfg.local)) [
      | inr outside ↦ rw (outside, handle) refl
      | inl served ↦ elim (Option-cases (parse_question msg)) [
        | inl bad ↦ rw (served, bad, handle) refl
        | inr (q, good) ↦
            elim (Bool-cases (is_upstream o.hp (upstreams n o.hp w.cfg o.system) src)) [
              | inl loop ↦ rw (served, good, loop, handle) refl
              | inr client ↦
                  rw (served, good, client, handle) (judge-answers n o w msg q src network now)
            ]
      ]
    ]

-- With blocking on, a question for a listed name, of a served client that is not itself one of the upstreams, is answered with NXDOMAIN and never leaves the box: the
-- answer and all that the sensor keeps are the same whatever the upstreams would have sent, and the question is counted as blocked.
pub blocked_stays_inside :
    (n : Netip) (o : Outside n) (w : Watch n) (msg : List ℕ) (src : String) (network : Network)
    (now : Time) (q : Question) (others : Upstreams)
    → served_address n o.unmap src w.cfg.local ≡ true
    → parse_question msg ≡ some q
    → is_upstream o.hp (upstreams n o.hp w.cfg o.system) src ≡ false
    → listed w.list (o.name_of q.name) ≢ ""
    → w.cfg.block ≡ true
    → (handle n (record o { ups = others }) w msg src network now
        ≡ handle n o w msg src network now)
      × (r : List ℕ) × ((handle n o w msg src network now).0 ≡ some r)
      × (rcode r ≡ pos rcode_nx)
      × ((handle n o w msg src network now).1.pending.blocked ≡ w.pending.blocked + 1)
unfolding handle judge signal
blocked_stays_inside n o w msg src network now q others served good client on_list block =
    let found : str_eq (listed w.list (o.name_of q.name)) "" ≡ false =
      ground (arith, eq_iff (listed w.list (o.name_of q.name)) "", on_list) in
    let (low, high, short) = parse_question_bounds msg q good in
    let (size, code, one, flag) = answer_header msg q rcode_nx (omega (arith, low)) in
    (
      rw (served, good, client, found, block, handle, judge) refl,
      answer msg q rcode_nx,
      rw (served, good, client, found, block, handle, judge) refl,
      code,
      rw (served, good, client, found, block, handle, judge, signal) refl,
    )
