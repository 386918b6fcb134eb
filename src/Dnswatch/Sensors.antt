-- ===== src/Dnswatch/Sensors.antt =====
-- dnswatch.go: `listed`, `noteLoop`, `clientFor`, `dga`, `tunnel` and `signal`.
use Prim.Native.String.{◌++◌ as ◌<>◌}
use excubra.Prelude.{
  ℕ, String, true, none, some, List, [], ◌∷◌, ◌++◌, ltb, leb, ◌==◌, if◌then◌else◌, length, contains,
  add,
}
use excubra.GoMap.{Map, lookup, insert, erase}
use excubra.GoTime.{Time}
use excubra.GoText.{split, join}
use excubra.Wire.{Signal, signal_dns_dga, signal_dns_tunnel}
use excubra.Netip.{Netip}
use excubra.Dnswatch.Detect.{
  Counter, Client, new_counter, add_key, sample, registrable, max_clients, max_domains,
  dga_threshold, tunnel_threshold,
}
use excubra.Dnswatch.Watch.{Watch}

-- The entry that the labels, or the last of them, are on; the last alone is no name.
unfoldable pub listed_labels : List String → List String → String
listed_labels list [] = ""
listed_labels list (l ∷ []) = ""
listed_labels list (l ∷ k ∷ ls) =
    let parent = listed_labels list (k ∷ ls) in
    let d = join "." (l ∷ k ∷ ls) in if contains d list then d else parent

unfoldable pub listed : List String → String → String
listed list name = if length list == 0 then "" else listed_labels list (split 46 name)

abbrev pub dns_signal : String → String → ℕ → String → Time → Signal
dns_signal kind src count detail now = record {
  kind = kind;
  device_id = "";
  ip = src;
  mac = "";
  port = 0;
  count = count;
  detail = detail;
  first_at = now;
  last_at = now;
}

abbrev pub loop_note : String → String
loop_note src =
    "DNS-Sensor: Schleife — "
    <> (src
        <> (" fragt die Box, und die Box fragt "
            <> (src
                <> ". Im Portal einen anderen Upstream eintragen (z. B. 9.9.9.9), oder den Router nicht auf die Box zeigen lassen")))

module _ {n : Netip} where
  unfoldable pub note_loop : Watch n → String → Watch n
  note_loop w src = record w {
    loop_noted = add src w.loop_noted;
    notes = if contains src w.loop_noted then w.notes else w.notes ++ (loop_note src ∷ []);
  }

  unfoldable pub signal : Watch n → Signal → Watch n
  signal w sg = record w { signals = w.signals ++ (sg ∷ []) }

-- The loop of `clientFor` for the client that was seen the longest ago, if before this time.
abbrev pub stalest_client : Map Client → String → Time → String
stalest_client [] best at = best
stalest_client ((k, c) ∷ m) best at =
    stalest_client m (if ltb c.seen at then k else best) (if ltb c.seen at then c.seen else at)

unfoldable pub client_for : Map Client → String → Time → Map Client × Client
client_for m src now = elim (lookup src m) [
  | some c ↦ (insert src (record c { seen = now }) m, record c { seen = now })
  | none ↦
      let c : Client = record { nx = new_counter now; tunnels = []; seen = now } in
      let room = if leb max_clients (length m) then erase (stalest_client m "" now) m else m in
      (insert src c room, c)
]

-- The counter of a domain of a client; if there are too many, the first that `range` meets goes.
unfoldable pub tunnel_for : Map Counter → String → Time → Map Counter × Counter
tunnel_for m base now = elim (lookup base m) [
  | some t ↦ (m, t)
  | none ↦
      let t = new_counter now in
      let room : Map Counter =
        if leb max_domains (length m) then elim m [ [] ↦ [] | x ∷ rest ↦ rest ] else m in
      (insert base t room, t)
]

module _ {n : Netip} where
  unfoldable pub dga : Watch n → String → String → Time → Watch n
  dga w src name now =
      let (m, c) = client_for w.clients src now in
      let (nx, count) = add_key c.nx name now in
      let fire = leb dga_threshold count in
      let alarmed = record nx { alarm = true } in
      let w1 = record w {
        clients = insert src (record c { nx = if fire then alarmed else nx }) m;
      } in
      if fire then signal w1 (dns_signal signal_dns_dga src count (sample alarmed 3) now) else w1

  unfoldable pub tunnel : Watch n → String → String → Time → Watch n
  tunnel w src name now =
      let base = registrable name in
      let (m, c) = client_for w.clients src now in
      let (ts, t) = tunnel_for c.tunnels base now in
      let (t1, count) = add_key t name now in
      let fire = leb tunnel_threshold count in
      let t2 = if fire then record t1 { alarm = true } else t1 in
      let w1 = record w { clients = insert src (record c { tunnels = insert base t2 ts }) m } in
      if fire then signal w1 (dns_signal signal_dns_tunnel src count base now) else w1
