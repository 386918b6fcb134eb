-- ===== src/Rules/Urgency.antt =====
-- From the box's sensors to the findings.
use excubra.Prelude.{
  ◌≡◌, inl, inr, refl, subst, eq_iff, contains, String, true, Option, none, some, List, [], ◌∷◌,
  str_eq, All, All-imp, Bool-cases,
}
use excubra.Netip.{Netip}
use excubra.Wire
use excubra.Sentinel.Types.{new}
use excubra.Sentinel.Pending.{drain}
use excubra.Sentinel.Kinds.{known, IsKnown, drain-Kinds}
use excubra.Sentinel.Runs.{Input, Admits, run, run-new-Kept}
use excubra.Rules.{Severity, high, Finding, has_prefix}
use excubra.Rules.Signals.{Signal, to_judge, evaluate_signal}

-- The kinds of the DNS sensor.
abbrev pub dns_kinds : List String
dns_kinds = "dns_block" ∷ "dns_dga" ∷ "dns_tunnel" ∷ []

abbrev pub severity_of : Option Finding → Option Severity
severity_of none = none
severity_of (some f) = some f.severity

-- What all of a list have, each of its members has.
contains-All :
    (P : String → Type 0) (ks : List String) (k : String) → contains k ks ≡ true → All P ks → P k
contains-All P [] k c a = cc c
contains-All P (j ∷ ks) k c a = elim (Bool-cases (str_eq j k)) [
  | inl e ↦ subst P ((eq_iff j k).0 e) a.0
  | inr e ↦ contains-All P ks k (rw e at c) a.1
]

module _ {n : Netip} (unmap : n.Addr → n.Addr) (sg : Signal n) where
  abbrev Alarms : String → Type 0
  Alarms kind = severity_of (evaluate_signal unmap (record sg { kind = kind })) ≡ some high

  arp_spoof-Alarms : Alarms "arp_spoof"
  unfolding evaluate_signal
  arp_spoof-Alarms = elim (Bool-cases (has_prefix sg.detail "gateway")) [
    | inl e ↦ rw e refl
    | inr e ↦ rw e refl
  ]

  known-Alarms : All Alarms (known dns_kinds)
  unfolding evaluate_signal
  known-Alarms = (refl, (refl, (refl, (arp_spoof-Alarms, (refl, (refl, (refl, tt)))))))

-- The server makes of the signal a finding of the highest severity.
abbrev pub IsUrgent : (n : Netip) → (n.Addr → n.Addr) → List n.Prefix → Wire.Signal → Type 0
IsUrgent n unmap local sg =
    severity_of (evaluate_signal {n = n} unmap (to_judge {n = n} local sg)) ≡ some high

-- Whatever the sensors of a box see, if what it is given to record is of the DNS sensor's kinds, then every signal that a heartbeat takes is made a finding by
-- `EvaluateSignal`, of the highest severity.
pub alarms_are_high :
    (n : Netip) (unmap : n.Addr → n.Addr) (local : List n.Prefix) (is : List Input)
    → All (Admits dns_kinds) is
    → All (IsUrgent n unmap local) (drain (run new is)).1
alarms_are_high n unmap local is a =
    All-imp (IsKnown dns_kinds) (IsUrgent n unmap local) (drain (run new is)).1
      (λ sg k.
        contains-All (Alarms {n = n} unmap (to_judge {n = n} local sg)) (known dns_kinds) sg.kind k
          (known-Alarms {n = n} unmap (to_judge {n = n} local sg)))
      (drain-Kinds dns_kinds (run new is) (run-new-Kept dns_kinds is a).kinds).0
