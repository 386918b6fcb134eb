-- ===== src/Sentinel/Runs.antt =====
-- What holds of a sentinel whatever its sensors see and however its heartbeats fare.
use excubra.Prelude.{ℕ, refl, String, List, [], ◌∷◌, All}
use excubra.GoTime.{Time}
use excubra.Wire.{Signal}
use excubra.Sentinel.Types.{Config, Self, Sentinel, new}
use excubra.Sentinel.Config.{apply, learn_self}
use excubra.Sentinel.Pending.{record_all, drain, ack, nack}
use excubra.Sentinel.Observe.{ArpFrame, observe_arp, observe_frame, touch_decoy}
use excubra.Sentinel.Delivery.{nack-Tidy, drained}
use excubra.Sentinel.Kinds.{IsKnown, drain-Kinds, nack-Kinds}
use excubra.Sentinel.Kept.{
  record_all-Kept, observe_arp-Kept, observe_frame-Kept, touch_decoy-Kept, same_batch, nack-empties,
  Kept,
}

-- The calls of the methods that change a sentinel.
pub data Input : Type 0 where
  configures : Config → Input
  rebinds : Self → Input
  sees_arp : ArpFrame → Time → Input
  sees_frame : List ℕ → Time → Input
  touches : String → String → ℕ → Time → Input
  records : List Signal → Time → Input
  drains acks nacks : Input

unfoldable pub step : Sentinel → Input → Sentinel
step s (configures c) = apply s c
step s (rebinds self) = learn_self s self
step s (sees_arp f now) = observe_arp s f now
step s (sees_frame f now) = observe_frame s f now
step s (touches src mac port now) = touch_decoy s src mac port now
step s (records sgs now) = record_all s sgs now
step s drains = (drain s).0
step s acks = ack s
step s nacks = nack s

unfoldable pub run : Sentinel → List Input → Sentinel
run s [] = s
run s (i ∷ is) = run (step s i) is

-- The kinds that are recorded are among these, or the sentinel's own.
abbrev pub Admits : List String → Input → Type 0
Admits others (records sgs now) = All (IsKnown others) sgs
Admits others _ = Unit

step-Kept :
    {others : List String} (s : Sentinel) (i : Input)
    → Admits others i
    → Kept others s
    → Kept others (step s i)
unfolding step apply learn_self ack
step-Kept s (configures c) a k = same_batch s _ refl refl refl k
step-Kept s (rebinds self) a k = same_batch s _ refl refl refl k
step-Kept s (sees_arp f now) a k = observe_arp-Kept s f now k
step-Kept s (sees_frame f now) a k = observe_frame-Kept s f now k
step-Kept s (touches src mac port now) a k = touch_decoy-Kept s src mac port now k
step-Kept s (records sgs now) a k = record_all-Kept s sgs now a k
step-Kept {others} s drains a k =
    let (t, u) = drained s k.tidy k.unique in
    record { tidy = t; kinds = (drain-Kinds others s k.kinds).1; unique = u }
step-Kept s acks a k = record {
  tidy = record { once = k.tidy.once; agrees = k.tidy.agrees };
  kinds = record { waiting = k.kinds.waiting; flying = tt };
  unique = tt;
}
step-Kept {others} s nacks a k = record {
  tidy = nack-Tidy s k.tidy;
  kinds = nack-Kinds others s k.kinds;
  unique = rw (nack-empties s) tt;
}

run-Kept :
    {others : List String} (s : Sentinel) (is : List Input)
    → All (Admits others) is
    → Kept others s
    → Kept others (run s is)
unfolding run
run-Kept s [] a k = k
run-Kept s (i ∷ is) a k = run-Kept (step s i) is a.1 (step-Kept s i a.0 k)

new-Kept : {others : List String} → Kept others new
unfolding new
new-Kept = record {
  tidy = record { once = tt; agrees = λ k. refl };
  kinds = record { waiting = tt; flying = tt };
  unique = tt;
}

-- Where a new sentinel is given to record only signals of its own kinds and of the others named, then whatever configurations and addresses it gets, whatever it
-- sees and however its batches fare, the order names every pending signal once and nothing else, no key is in flight twice, and every signal that waits or is in
-- flight is a knock on a decoy, a port scan, a search by ARP or an ARP spoof, or of one of the others.
pub run-new-Kept :
    (others : List String) (is : List Input) → All (Admits others) is → Kept others (run new is)
run-new-Kept others is a = run-Kept new is a new-Kept
