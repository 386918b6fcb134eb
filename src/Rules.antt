-- ===== src/Rules.antt =====
-- internal/server/rules: what the open services of a device mean. A finding has its rule, key,
-- severity and title; the text of the advice and the evidence, which only the console shows, are left out.
pub mod Inside
pub mod Outside
pub mod Signals
mod Doors
mod Order
mod Urgency
mod Tests
use Prim.Native.String.{[] as empty, ◌∷◌ as ◌:>◌, ◌++◌ as ◌<>◌}
use Prim.Native.Char.{code}
use excubra.Prelude.{
  ℕ, zero, suc, ◌*◌, ◌/◌, String, Bool, true, false, not, ◌&&◌, ◌||◌, Option, none, some, List, [],
  ◌∷◌, ◌++◌, ltb, leb, ◌==◌, if◌then◌else◌, str_eq, str_lt, sort_by, ℤ, pos, negsuc, neg,
}
use excubra.GoTime.{Time, Duration, is_zero, after, hour, time_sub}
use excubra.GoText.{itoa, itoa_ℤ, to_lower}

pub data Severity : Type 0 where
  high : Severity
  medium : Severity
  low : Severity

unfoldable pub rank : Severity → ℕ
rank high = 0
rank medium = 1
rank low = 2

pub record Finding : Type 0 where
  pub rule : String
  pub key : String
  pub severity : Severity
  pub title : String

pub record Tls : Type 0 where
  pub subject : String
  pub issuer : String
  pub not_after : Time
  pub self_signed : Bool
  pub version : String

pub record Service : Type 0 where
  pub port : ℕ
  pub proto : String
  pub name : String
  pub product : String
  pub version : String
  pub banner : String
  pub title : String
  pub tls : Option Tls

abbrev pub cert_warn_days : ℕ
cert_warn_days = 14

-- `HasPrefix` and `Contains`
abbrev pub has_prefix : String → String → Bool
has_prefix s empty = true
has_prefix empty (d :> t) = false
has_prefix (c :> s) (d :> t) = code c == code d && has_prefix s t

abbrev pub has_text : String → String → Bool
has_text empty t = has_prefix "" t
has_text (c :> s) t = has_prefix (c :> s) t || has_text s t

abbrev pub one_of : ℕ → List ℕ → Bool
one_of n [] = false
one_of n (m ∷ ms) = n == m || one_of n ms

unfoldable pub service_key : Service → String
service_key svc = (if str_eq svc.proto "" then "tcp" else svc.proto) <> ("/" <> itoa svc.port)

-- `int(d.Hours() / 24)`, by exact division.
unfoldable pub days : Duration → ℤ
days (pos n) = pos (n / (24 * hour))
days (negsuc n) = neg (suc n / (24 * hour))

abbrev pub soon : ℤ → Bool
soon (pos n) = leb n cert_warn_days
soon (negsuc n) = true

unfoldable pub expiry_findings : Service → Tls → String → Time → List Finding
expiry_findings svc t key now =
    let left = days (time_sub t.not_after now) in
    if is_zero t.not_after
    then []
    else if after now t.not_after
    then record {
      rule = "scan.cert_expired";
      key = key;
      severity = high;
      title = "Zertifikat auf Port " <> (itoa svc.port <> " ist abgelaufen");
    }
      ∷ []
    else if soon left
    then record {
      rule = "scan.cert_expiring";
      key = key;
      severity = medium;
      title =
          "Zertifikat auf Port "
          <> (itoa svc.port <> (" läuft in " <> (itoa_ℤ left <> " Tagen ab")));
    }
      ∷ []
    else []

unfoldable pub version_findings : Service → Tls → String → List Finding
version_findings svc t key =
    if str_eq t.version "1.0" || str_eq t.version "1.1"
    then record {
      rule = "scan.tls_old";
      key = key;
      severity = medium;
      title = "Nur altes TLS " <> (t.version <> (" auf Port " <> itoa svc.port));
    }
      ∷ []
    else []

unfoldable pub issuer_findings : Service → Tls → String → List Finding
issuer_findings svc t key =
    if t.self_signed && not (has_text (to_lower svc.title) "fritz")
    then record {
      rule = "scan.cert_selfsigned";
      key = key;
      severity = low;
      title = "Selbstsigniertes Zertifikat auf Port " <> itoa svc.port;
    }
      ∷ []
    else []

unfoldable pub tls_findings : Service → Tls → String → Time → List Finding
tls_findings svc t key now =
    expiry_findings svc t key now ++ (version_findings svc t key ++ issuer_findings svc t key)

-- By severity, then by rule and key.
abbrev pub finding_earlier : Finding → Finding → Bool
finding_earlier f g =
    if not (rank f.severity == rank g.severity)
    then ltb (rank f.severity) (rank g.severity)
    else if not (str_eq f.rule g.rule)
    then str_lt f.rule g.rule
    else str_lt f.key g.key
