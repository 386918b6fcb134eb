-- ===== src/Rules/Tests.antt =====
-- Reports on services, and the theorems at concrete ones.
use excubra.Prelude.{
  All, List, ◌≡◌, refl, String, true, false, none, some, [], ◌∷◌, ◌++◌, map, ◌*◌, pos, str_eq, ℕ,
}
use excubra.GoTime.{hour}
use excubra.Rules.{
  Finding, Service, medium, rank, service_key, days, tls_findings, expiry_findings,
  version_findings, issuer_findings,
}
use excubra.Rules.Inside.{inside_door, inside_service, evaluate_scan}
use excubra.Rules.Outside.{
  is_web, admin_ui, worse, replace_first, from_outside, outside_door, outside_service,
  evaluate_external,
}
use excubra.Rules.Doors.{any, tells_of, every_door_reported}
use excubra.Netip.{Netip}
use excubra.Rules.Signals.{Signal, evaluate_signal, admin_severity, private}
use excubra.Rules.Urgency.{severity_of, IsUrgent, alarms_are_high}
use excubra.Wire
use excubra.Sentinel.Types.{new}
use excubra.Sentinel.Config.{apply, learn_self}
use excubra.Sentinel.Pending.{drain, collect, file, signal_key, evict, dated}
use excubra.Sentinel.Observe.{touch_decoy}
use excubra.Sentinel.Runs.{Input, configures, rebinds, touches, step, run}

abbrev on_port : ℕ → Service
on_port p = record {
  port = p;
  proto = "";
  name = "";
  product = "";
  version = "";
  banner = "";
  title = "";
  tls = none;
}

-- A router's own page, with a certificate of its own that runs out in two days.
abbrev router : Service
router = record (on_port 443) {
  proto = "tcp";
  name = "https";
  title = "My Router";
  tls = some record {
    subject = "router";
    issuer = "router";
    not_after = 1060 * hour;
    self_signed = true;
    version = "1.1";
  };
}

abbrev rule_and_grade : Finding → String × ℕ
rule_and_grade f = (f.rule, rank f.severity)

inside_test :
    map rule_and_grade (evaluate_scan (1000 * hour) (router ∷ on_port 23 ∷ on_port 80 ∷ []))
    ≡ ("scan.telnet", 0)
      ∷ ("scan.cert_expiring", 1)
      ∷ ("scan.tls_old", 1)
      ∷ ("scan.cert_selfsigned", 2)
      ∷ []
unfolding evaluate_scan inside_service inside_door tls_findings expiry_findings version_findings
    issuer_findings rank days service_key
inside_test = refl

outside_test :
    map rule_and_grade (evaluate_external (1000 * hour) (router ∷ on_port 23 ∷ on_port 80 ∷ []))
    ≡ ("wan.admin_ui", 0)
      ∷ ("wan.exposed", 0)
      ∷ ("wan.tls_old", 0)
      ∷ ("wan.cert_expiring", 1)
      ∷ ("wan.cert_selfsigned", 1)
      ∷ ("wan.open", 2)
      ∷ []
unfolding evaluate_external outside_service outside_door tls_findings expiry_findings
    version_findings issuer_findings rank days is_web admin_ui from_outside replace_first worse
    service_key
outside_test = refl

every_door_reported_example :
    any
      (tells_of (on_port 3389))
      (evaluate_external (1000 * hour) ((router ∷ []) ++ (on_port 3389 ∷ (on_port 80 ∷ []))))
    ≡ true
every_door_reported_example =
    every_door_reported (1000 * hour) (on_port 3389) (router ∷ []) (on_port 80 ∷ [])

abbrev plain : Netip
plain = record {
  Addr = String;
  Prefix = String;
  parse_addr = some;
  parse_prefix = some;
  is_4 = λ a. true;
  is_private = λ a. str_eq a "10.0.0.7";
  is_loopback = λ a. false;
  is_link_local = λ a. false;
  text = λ a. a;
  address = λ p. p;
  bits = λ p. pos 24;
  masked = λ p. p;
  contains = λ p a. false;
  single = λ a. a;
  quote = λ s. s;
}

abbrev signal_of : String → String → Signal plain
signal_of kind detail = record {
  kind = kind;
  ip = "10.0.0.7";
  port = 445;
  count = 3;
  detail = detail;
  local = [];
}

inside_admin_test :
    severity_of (evaluate_signal (λ a. a) (signal_of "fgt_admin_fail" "")) ≡ some medium
unfolding evaluate_signal admin_severity private
inside_admin_test = refl

-- A knock on a decoy of the box.
abbrev knocks : List Input
knocks =
    configures (record { enabled = true; ports = 445 ∷ [] })
    ∷ rebinds (record { ip = "10.0.0.2"; mac = "aa:aa"; gateway = "10.0.0.1" })
    ∷ touches "10.0.0.9" "aa:bb" 445 (1000 * hour)
    ∷ []

alarms_are_high_example : All (IsUrgent plain (λ a. a) []) (drain (run new knocks)).1
alarms_are_high_example = alarms_are_high plain (λ a. a) [] knocks (tt, (tt, (tt, tt)))

one_alarm : map (λ (sg : Wire.Signal). sg.kind) (drain (run new knocks)).1 ≡ "canary" ∷ []
unfolding run step new apply learn_self touch_decoy file signal_key evict dated drain collect
one_alarm = refl
