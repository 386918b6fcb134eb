-- ===== src/Sentinel/Tests.antt =====
-- Runs of the sentinel.
use excubra.Prelude.{
  ℕ, ◌≤◌, ◌≡◌, ◌⊎◌, refl, String, true, some, List, [], ◌∷◌, arith, length, pos, negsuc, ◌*◌,
}
use excubra.GoMap.{lookup}
use excubra.GoTime.{Time, second}
use excubra.Wire.{Signal, CanaryConfig, signal_canary}
use excubra.Sentinel.Types.{Self, Sentinel, max_pending, new}
use excubra.Sentinel.Config.{port_of, parse_ports, parse_config, apply, learn_self}
use excubra.Sentinel.Counters.{count_key, counter_for}
use excubra.Sentinel.Pending.{
  file, drain, nack, signal_key, rejoin, evict, dated, additive, merge, collect, restore,
  record_all, record_one,
}
use excubra.Sentinel.Observe.{observe_frame, observe_syn, touch_decoy}
use excubra.Sentinel.Frames.{parse_syn, header_length}
use excubra.Sentinel.Tidy.{Tidy, file_bounded}
use excubra.Sentinel.Returned.{returned, nack_table}
use excubra.Sentinel.Delivery.{nack-drain}
use excubra.Sentinel.Kept.{Kept}
use excubra.Sentinel.Runs.{
  Input, configures, rebinds, records, step, sees_frame, touches, drains, nacks, run, run-new-Kept,
}

abbrev clock : ℕ → Time
clock n = n * second

abbrev canary : CanaryConfig
canary = record {
  enabled = true;
  ports = pos 8080 ∷ pos 22 ∷ negsuc 0 ∷ pos 445 ∷ pos 8080 ∷ pos 70000 ∷ [];
}

parsed : (parse_config canary).0.ports ≡ 445 ∷ 8080 ∷ []
unfolding parse_config parse_ports port_of
parsed = refl

abbrev knock : String → ℕ → Signal
knock ip count = record {
  kind = signal_canary;
  device_id = "";
  ip = ip;
  mac = "aa:bb";
  port = 445;
  count = count;
  detail = "";
  first_at = clock 10;
  last_at = clock 11;
}

abbrev busy : Sentinel
busy = record {
  cfg = record { enabled = true; ports = 445 ∷ [] };
  self = record { ip = "10.0.0.2"; mac = "00:11"; gateway = "10.0.0.1" };
  decoys = 445 ∷ [];
  failed = [];
  syn = [];
  arp = [];
  claims = [];
  pending = ("a", knock "10.0.0.8" 3) ∷ ("b", knock "10.0.0.9" 1) ∷ [];
  order = "b" ∷ "a" ∷ [];
  inflight = [];
}

busy-Tidy : Tidy busy
busy-Tidy = record { once = (refl, (refl, tt)); agrees = λ k. ground arith }

file_bounded_example :
    Tidy (file busy (knock "10.0.0.8" 1) true (clock 12))
    × ((length (file busy (knock "10.0.0.8" 1) true (clock 12)).pending ≤ max_pending)
        ⊎ (length (file busy (knock "10.0.0.8" 1) true (clock 12)).pending ≡ 2))
file_bounded_example = file_bounded busy (knock "10.0.0.8" 1) true (clock 12) busy-Tidy

nack-drain_example : lookup "a" (nack (drain busy).0).pending ≡ some (knock "10.0.0.8" 3)
nack-drain_example = nack-drain busy "a" busy-Tidy refl

abbrev retrying : Sentinel
retrying = record busy { inflight = ("a", knock "10.0.0.8" 4) ∷ [] }

nack_table_example :
    (lookup "a" (nack retrying).pending
      ≡ returned (some (knock "10.0.0.8" 3)) (some (knock "10.0.0.8" 4)))
    × ((nack retrying).inflight ≡ [])
nack_table_example = nack_table retrying "a" (tt, tt)

added : returned (some (knock "10.0.0.8" 3)) (some (knock "10.0.0.8" 4)) ≡ some (knock "10.0.0.8" 7)
added = refl

-- A SYN from 10.0.0.9 to port 445 of 10.0.0.2.
abbrev frame : List ℕ
frame =
    0 ∷ 17 ∷ 34 ∷ 51 ∷ 68 ∷ 85 ∷ 170 ∷ 187 ∷ 204 ∷ 221 ∷ 238 ∷ 255 ∷ 8 ∷ 0 ∷ 69 ∷ 0 ∷ 0 ∷ 40 ∷ 0 ∷ 0
    ∷ 0 ∷ 0 ∷ 64 ∷ 6 ∷ 0 ∷ 0 ∷ 10 ∷ 0 ∷ 0 ∷ 9 ∷ 10 ∷ 0 ∷ 0 ∷ 2 ∷ 156 ∷ 64 ∷ 1 ∷ 189 ∷ 0 ∷ 0 ∷ 0 ∷ 0
    ∷ 0 ∷ 0 ∷ 0 ∷ 0 ∷ 80 ∷ 2 ∷ 4 ∷ 0 ∷ 0 ∷ 0 ∷ 0 ∷ 0 ∷ []

decoded :
    parse_syn frame
    ≡ some
        (record { src_mac = "aa:bb:cc:dd:ee:ff"; src = "10.0.0.9"; dst = "10.0.0.2"; port = 445 })
unfolding parse_syn header_length
decoded = refl

seen :
    (observe_frame busy frame (clock 20)).order
    ≡ "b" ∷ "a" ∷ "canary||10.0.0.9|aa:bb:cc:dd:ee:ff|445|" ∷ []
unfolding observe_frame observe_syn parse_syn header_length file signal_key evict dated count_key
    counter_for
seen = refl

abbrev here : Self
here = record { ip = "10.0.0.2"; mac = "aa:aa"; gateway = "10.0.0.1" }

abbrev inputs : List Input
inputs =
    configures (record { enabled = true; ports = 445 ∷ [] })
    ∷ rebinds here
    ∷ records (record (knock "10.0.0.8" 1) { kind = "fgt_ips"; detail = "Worm|low|detected" } ∷ [])
        (clock 4)
    ∷ touches "10.0.0.9" "aa:bb" 445 (clock 5)
    ∷ drains
    ∷ sees_frame frame (clock 6)
    ∷ nacks
    ∷ []

-- The frame is counted as a knock too, beside the one that comes back.
counted_both :
    (run new inputs).order
    ≡ "canary||10.0.0.9|aa:bb|445|" ∷ "fgt_ips||10.0.0.8|aa:bb|445|Worm|low|detected"
      ∷ "canary||10.0.0.9|aa:bb:cc:dd:ee:ff|445|" ∷ []
unfolding run step new apply learn_self observe_frame observe_syn parse_syn header_length file
    signal_key evict merge dated count_key counter_for drain collect nack restore rejoin additive
    touch_decoy record_all record_one
counted_both = refl

run-new-Kept_example : Kept ("fgt_ips" ∷ []) (run new inputs)
run-new-Kept_example =
    run-new-Kept ("fgt_ips" ∷ []) inputs (tt, (tt, ((refl, tt), (tt, (tt, (tt, (tt, tt)))))))
