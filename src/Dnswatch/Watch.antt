-- ===== src/Dnswatch/Watch.antt =====
-- dnswatch.go: the sensor's state, its configuration and what a heartbeat carries of it.
use excubra.Prelude.{ℕ, String, Bool, Option, List, [], ◌∷◌}
use excubra.GoMap.{Map}
use excubra.Wire.{Signal}
use excubra.Netip.{Netip}
use excubra.Dnswatch.Detect.{Client}

abbrev pub max_msg : ℕ
max_msg = 4096

abbrev pub max_tcp_msg : ℕ
max_tcp_msg = 65_535

abbrev pub default_upstreams : List String
default_upstreams = "9.9.9.9:53" ∷ "1.1.1.1:53" ∷ []

pub record Config (n : Netip) : Type 0 where
  pub enabled : Bool
  pub block : Bool
  pub upstreams : List String
  pub list_version : String
  pub local : List n.Prefix

pub record DnsReport : Type 0 where
  pub listening : String
  pub error : String
  pub list_version : String
  pub list_size : ℕ
  pub upstream : String
  pub queries : ℕ
  pub blocked : ℕ
  pub nx_domain : ℕ
  pub failed : ℕ
  pub clients : ℕ
  pub refused : ℕ

abbrev pub no_report : DnsReport
no_report = record {
  listening = "";
  error = "";
  list_version = "";
  list_size = 0;
  upstream = "";
  queries = 0;
  blocked = 0;
  nx_domain = 0;
  failed = 0;
  clients = 0;
  refused = 0;
}

-- `list`, `seen` and `loop_noted` are sets of texts. What the sensor hands to `Signals` and `Note`
-- is kept in order in `signals` and `notes`.
pub record Watch (n : Netip) : Type 0 where
  pub cfg : Config n
  pub list : List String
  pub list_ver : String
  pub bound : String
  pub err_text : String
  pub up_idx : ℕ
  pub upstream : String
  pub clients : Map Client
  pub pending : DnsReport
  pub seen : List String
  pub inflight : Option DnsReport
  pub loop_noted : List String
  pub signals : List Signal
  pub notes : List String
