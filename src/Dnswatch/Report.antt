-- ===== src/Dnswatch/Report.antt =====
-- dnswatch.go: `Drain`, `Ack` and `Nack`.
use Prim.Native.String.{◌++◌ as ◌<>◌}
use excubra.Prelude.{
  ℕ, zero, suc, ◌+◌, ◌-◌, String, not, ◌&&◌, Option, none, some, List, [], ◌==◌, if◌then◌else◌,
  length, str_eq, add,
}
use excubra.GoText.{itoa}
use excubra.Netip.{Netip}
use excubra.Dnswatch.Forward.{HostPort}
use excubra.Dnswatch.Watch.{DnsReport, no_report, Watch}

-- for i := from; i < from + so many; i++ { seen["~i"] = true }
abbrev pub fill : ℕ → ℕ → List String → List String
fill zero i seen = seen
fill (suc more) i seen = fill more (i + 1) (add ("~" <> itoa i) seen)

module _ {n : Netip} where
  -- The report that is due.
  unfoldable pub report_of : HostPort → Watch n → DnsReport
  report_of hp w = record w.pending {
    clients = length w.seen;
    listening = if str_eq w.bound "" then w.pending.listening else hp.join w.bound "53";
    error = w.err_text;
    list_version = w.list_ver;
    list_size = length w.list;
    upstream = w.upstream;
  }

  unfoldable pub drain : HostPort → Watch n → Watch n × Option DnsReport
  drain hp w = elim w.inflight [
    | some r ↦ (w, none)
    | none ↦
        let rep = report_of hp w in
        if not w.cfg.enabled && rep.queries == 0 && str_eq rep.listening "" && str_eq rep.error ""
        then (w, none)
        else (record w { pending = no_report; seen = []; inflight = some rep }, some rep)
  ]

  unfoldable pub ack : Watch n → Watch n
  ack w = record w { inflight = none }

  unfoldable pub nack : Watch n → Watch n
  nack w = elim w.inflight [
    | none ↦ w
    | some r ↦ record w {
      pending = record w.pending {
        queries = w.pending.queries + r.queries;
        blocked = w.pending.blocked + r.blocked;
        nx_domain = w.pending.nx_domain + r.nx_domain;
        failed = w.pending.failed + r.failed;
        refused = w.pending.refused + r.refused;
      };
      seen = fill (r.clients - length w.seen) (length w.seen) w.seen;
      inflight = none;
    }
  ]
