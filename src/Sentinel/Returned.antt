-- ===== src/Sentinel/Returned.antt =====
-- `Nack` against what is to come of a signal that waited, was in flight, or both.
use excubra.Prelude.{
  ◌+◌, ◌≡◌, refl, ◌∙◌, String, Bool, false, ◌||◌, Option, none, some, List, [], ◌∷◌, arith, eq_iff,
  str_eq, if◌then◌else◌, contains,
}
use excubra.GoMap.{lookup, Unique}
use excubra.Wire.{Signal}
use excubra.Sentinel.Types.{Sentinel}
use excubra.Sentinel.Pending.{additive, rejoin, nack}
use excubra.Sentinel.Batches.{joined, restored}

-- The kinds of which every signal stands for events of its own.
abbrev pub counted : List String
counted = "canary" ∷ "fgt_admin_fail" ∷ "fgt_vpn_fail" ∷ "fgt_ips" ∷ "dns_block" ∷ []

-- The signal that waits after one came back from the flight to one that had come in meanwhile.
abbrev pub both : Signal → Signal → Signal
both newer older = record {
  kind = newer.kind;
  device_id = newer.device_id;
  ip = newer.ip;
  mac = newer.mac;
  port = newer.port;
  count = if contains older.kind counted then newer.count + older.count else newer.count;
  detail = newer.detail;
  first_at = older.first_at;
  last_at = newer.last_at;
}

abbrev pub returned : Option Signal → Option Signal → Option Signal
returned none older = older
returned (some newer) none = some newer
returned (some newer) (some older) = some (both newer older)

turned : (a b : String) → str_eq a b ≡ str_eq b a
turned a b = ground (arith, eq_iff a b, eq_iff b a)

or_five : (a b c d e : Bool) → (a || b || c || d || e) ≡ (a || (b || (c || (d || (e || false)))))
or_five a b c d e = ground arith

additive-counted : (kind : String) → additive kind ≡ contains kind counted
unfolding additive
additive-counted kind =
    rw
      (
        turned kind "canary",
        turned kind "fgt_admin_fail",
        turned kind "fgt_vpn_fail",
        turned kind "fgt_ips",
        turned kind "dns_block",
      )
      (or_five (str_eq "canary" kind) (str_eq "fgt_admin_fail" kind) (str_eq "fgt_vpn_fail" kind)
        (str_eq "fgt_ips" kind) (str_eq "dns_block" kind))

joined-returned : (newer older : Option Signal) → joined newer older ≡ returned newer older
unfolding joined rejoin
joined-returned none older = refl
joined-returned (some newer) none = refl
joined-returned (some newer) (some older) = rw (additive-counted older.kind) refl

-- With no key in flight twice, after `Nack` nothing is in flight and under every key waits the signal that waited or was in flight. Where there
-- were both, it is the later one, with the first time of the earlier one, and with the sum of the counts if
-- its kind is a knock on a decoy, a failed login, an attack or a listed domain, and else the later count.
pub nack_table :
    (s : Sentinel) (k : String)
    → Unique s.inflight
    → (lookup k (nack s).pending ≡ returned (lookup k s.pending) (lookup k s.inflight))
      × ((nack s).inflight ≡ [])
unfolding nack
nack_table s k u =
    (restored s k u ∙ joined-returned (lookup k s.pending) (lookup k s.inflight), refl)
