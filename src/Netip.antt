-- ===== src/Netip.antt =====
-- Package `net/netip`, which reads addresses and networks, and the quoting of `fmt` (`%q`).
use excubra.Prelude.{String, Bool, Option, ℤ}

pub record Netip : Type 1 where
  pub Addr : Type 0
  pub Prefix : Type 0
  pub parse_addr : String → Option Addr
  pub parse_prefix : String → Option Prefix
  pub is_4 : Addr → Bool
  pub is_private : Addr → Bool
  pub is_loopback : Addr → Bool
  pub is_link_local : Addr → Bool
  pub text : Addr → String
  pub address : Prefix → Addr
  pub bits : Prefix → ℤ
  pub masked : Prefix → Prefix
  pub contains : Prefix → Addr → Bool
  pub single : Addr → Prefix
  pub quote : String → String
