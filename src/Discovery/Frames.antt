-- ===== src/Discovery/Frames.antt =====
-- arp.go: ARP frames, as lists of bytes.
use excubra.Prelude.{
  ℕ, String, not, ◌||◌, Option, none, some, List, ltb, ◌==◌, if◌then◌else◌, length, str_eq,
}
use excubra.Sentinel.Frames.{byte_at, bytes_from, hardware_addr, dotted}
use excubra.Sentinel.Observe.{ArpFrame}
use excubra.Dnswatch.Message.{uint16}

unfoldable pub parse_arp : List ℕ → Option ArpFrame
parse_arp f =
    if ltb (length f) 42 || not (uint16 f 12 == 2054)
    then none
    else if not (uint16 f 14 == 1)
        || not (uint16 f 16 == 2048)
        || not (byte_at f 18 == 6)
        || not (byte_at f 19 == 4)
    then none
    else some (record {
      op = uint16 f 20;
      sender_mac = hardware_addr (bytes_from f 22 6);
      sender_ip = dotted (bytes_from f 28 4);
      target_ip = dotted (bytes_from f 38 4);
    })

unfoldable pub parse_arp_portable : List ℕ → Option (String × String)
parse_arp_portable f = elim (parse_arp f) [
  | none ↦ none
  | some fr ↦
      if str_eq fr.sender_ip "0.0.0.0" || str_eq fr.sender_mac "00:00:00:00:00:00"
      then none
      else some (fr.sender_mac, fr.sender_ip)
]
