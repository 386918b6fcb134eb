-- ===== src/Rules/Signals.antt =====
-- signal.go: what a live signal means.
use Prim.Native.String.{[] as empty, ◌∷◌ as ◌:>◌, ◌++◌ as ◌<>◌}
use Prim.Native.Char.{code}
use excubra.Prelude.{
  ℕ, String, Bool, false, not, ◌||◌, Option, none, some, List, [], ◌∷◌, leb, ◌==◌, if◌then◌else◌,
  str_eq,
}
use excubra.GoText.{itoa, to_lower}
use excubra.Netip.{Netip}
use excubra.Wire
use excubra.Rules.{Severity, high, medium, low, Finding, has_prefix}

pub record Signal (n : Netip) : Type 0 where
  pub kind : String
  pub ip : String
  pub port : ℕ
  pub count : ℕ
  pub detail : String
  pub local : List n.Prefix

abbrev pub decoy_name : ℕ → String
decoy_name p =
    if p == 21
    then "FTP"
    else if p == 23
    then "Telnet"
    else if p == 445
    then "SMB"
    else if p == 1433
    then "MSSQL"
    else if p == 3306
    then "MySQL"
    else if p == 3389
    then "RDP"
    else if p == 5900
    then "VNC"
    else if p == 5985
    then "WinRM"
    else if p == 8080
    then "HTTP"
    else ""

unfoldable pub port_label : ℕ → String
port_label p =
    if str_eq (decoy_name p) "" then itoa p else itoa p <> (" (" <> (decoy_name p <> ")"))

unfoldable pub plural : ℕ → String → String → String
plural n one many = if n == 1 then "1 " <> one else itoa n <> (" " <> many)

-- `strings.Cut` at a bar.
abbrev pub cut_bar : String → String × String
cut_bar empty = ("", "")
cut_bar (c :> s) =
    let (front, rest) = cut_bar s in if code c == 124 then ("", s) else (c :> front, rest)

-- The attack, the severity and the action.
abbrev pub split_ips : String → String × String × String
split_ips detail =
    let (attack, rest) = cut_bar detail in
    let (severity, action) = cut_bar rest in (attack, severity, action)

abbrev signal : String → String → Severity → String → Option Finding
signal rule key severity title =
    some record { rule = rule; key = key; severity = severity; title = title }

abbrev pub is_blocked : String → Bool
is_blocked action =
    str_eq action "dropped"
    || str_eq action "reset"
    || str_eq action "blocked"
    || str_eq action "reject"

-- What the firewall calls the attack.
unfoldable pub ips_grade : String → Severity
ips_grade s =
    let t = to_lower s in
    if str_eq t "critical" || str_eq t "high"
    then high
    else if str_eq t "low" || str_eq t "info" || str_eq t "information"
    then low
    else medium

unfoldable pub ips_severity : String → String → Severity
ips_severity severity action = if is_blocked action then ips_grade severity else high

module _ (n : Netip) where
  abbrev pub in_any : (n.Addr → n.Addr) → n.Addr → List n.Prefix → Bool
  in_any unmap a [] = false
  in_any unmap a (p ∷ ps) = n.contains p (unmap a) || in_any unmap a ps

  -- `unmap` is `Addr.Unmap`.
  unfoldable pub private : (n.Addr → n.Addr) → String → List n.Prefix → Bool
  private unmap ip local = elim (n.parse_addr ip) [
    | none ↦ false
    | some a ↦ n.is_private a || n.is_loopback a || n.is_link_local a || in_any unmap a local
  ]

module _ {n : Netip} where
  unfoldable pub admin_severity : (n.Addr → n.Addr) → Signal n → Severity
  admin_severity unmap sg =
      if leb 5 sg.count || not (private n unmap sg.ip sg.local) then high else medium

  abbrev pub admin_fail : (n.Addr → n.Addr) → Signal n → Option Finding
  admin_fail unmap sg =
      signal "signal.fgt_admin_fail" sg.ip (admin_severity unmap sg)
        ("Admin-Login auf der FortiGate: " <> plural sg.count "Fehlversuch" "Fehlversuche")

  abbrev pub vpn_fail : Signal n → Option Finding
  vpn_fail sg =
      if leb 20 sg.count
      then signal "signal.fgt_vpn_fail" sg.ip high
          ("SSL-VPN wird durchprobiert: " <> (itoa sg.count <> " Fehlversuche"))
      else signal "signal.fgt_vpn_fail" sg.ip medium
          ("SSL-VPN-Anmeldung: " <> plural sg.count "Fehlversuch" "Fehlversuche")

  abbrev pub ips : Signal n → Option Finding
  ips sg =
      let (attack, severity, action) = split_ips sg.detail in
      signal "signal.fgt_ips" attack (ips_severity severity action) (
        "IPS: "
        <> (attack
            <> (" von "
                <> (sg.ip <> (if is_blocked action then " (geblockt)" else " (nicht geblockt)")))))

  abbrev pub arp_spoof : Signal n → Option Finding
  arp_spoof sg =
      if has_prefix sg.detail "gateway"
      then signal "signal.arp_spoof" sg.ip high
          "ARP-Spoofing: das Gateway antwortet von einer anderen MAC"
      else signal "signal.arp_spoof" sg.ip high "ARP-Spoofing: Adresse wechselt die MAC"

  unfoldable pub evaluate_signal : (n.Addr → n.Addr) → Signal n → Option Finding
  evaluate_signal unmap sg =
      let k = sg.kind in
      if str_eq k "canary"
      then signal "signal.canary" (itoa sg.port) high
          ("Köder-Port " <> (port_label sg.port <> " angesprochen"))
      else if str_eq k "port_scan"
      then signal "signal.port_scan" "" high "Portscan gegen die EX0-Box"
      else if str_eq k "arp_scan"
      then signal "signal.arp_scan" "" high "Netz wird abgesucht (ARP)"
      else if str_eq k "fgt_admin_fail"
      then admin_fail unmap sg
      else if str_eq k "fgt_vpn_fail"
      then vpn_fail sg
      else if str_eq k "fgt_ips"
      then ips sg
      else if str_eq k "dns_block"
      then signal "signal.dns_block" (split_ips sg.detail).0 high
          ("Gerät fragt bekannte Schad-Domain an: " <> (split_ips sg.detail).0)
      else if str_eq k "dns_dga"
      then signal "signal.dns_dga" "" high "Gerät erzeugt zufällige Domainnamen (DGA)"
      else if str_eq k "dns_tunnel"
      then signal "signal.dns_tunnel" sg.detail high ("DNS-Tunnel-Verdacht: " <> sg.detail)
      else if str_eq k "arp_spoof"
      then arp_spoof sg
      else none

  -- What the server hands to `EvaluateSignal` of a signal of a heartbeat, with the site's declared networks.
  abbrev pub to_judge : List n.Prefix → Wire.Signal → Signal n
  to_judge local sg = record {
    kind = sg.kind;
    ip = sg.ip;
    port = sg.port;
    count = sg.count;
    detail = sg.detail;
    local = local;
  }
