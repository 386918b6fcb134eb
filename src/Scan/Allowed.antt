-- ===== src/Scan/Allowed.antt =====
-- What a round may touch.
use excubra.Prelude.{
  ◌≤◌, ◌<◌, ◌≡◌, inl, inr, refl, String, true, false, ◌||◌, not, List, [], ◌∷◌, ◌++◌, arith, eq_iff,
  ltb, leb, length, length-append, length-sort_by, if◌then◌else◌, Bool-cases, Option-cases, some,
  ◌&&◌, All, All-imp, All-last, Once, contains, map, Once-sort, sort_by-All, str_eq,
}
use excubra.Netip.{Netip}
use excubra.Scan.Types.{max_targets, Target, Config}
use excubra.Scan.Round.{ip_earlier, targets, choose_targets, scannable, excluded}

abbrev pub target_ip : Target → String
target_ip t = t.ip

contains-last :
    (k : String) (ts : List Target) (t : Target)
    → contains k (map target_ip (ts ++ (t ∷ []))) ≡ (contains k (map target_ip ts) || str_eq t.ip k)
contains-last k [] t = ground arith
contains-last k (u ∷ ts) t = ground (arith, contains-last k ts t)

Once-last :
    (ts : List Target) (t : Target)
    → contains t.ip (map target_ip ts) ≡ false
    → Once (map target_ip ts)
    → Once (map target_ip (ts ++ (t ∷ [])))
Once-last [] t new o = (refl, tt)
Once-last (u ∷ ts) t new o = ground (
  arith,
  contains-last u.ip ts t,
  Once-last ts t (ground arith) o.1,
  eq_iff u.ip t.ip,
  eq_iff t.ip u.ip,
)

module _ (n : Netip) where
  -- Targets that may be scanned, each once, and not too many.
  abbrev pub AreAllowed : Config n → List Target → Type 0
  AreAllowed cfg ts =
      All (λ (t : Target). scannable n cfg.exclude t.ip ≡ true) ts
      × Once (map target_ip ts)
      × (length ts ≤ max_targets)

  choose_targets_allowed :
      (cfg : Config n) (list kept : List Target)
      → length kept < max_targets
      → AreAllowed cfg kept
      → AreAllowed cfg (choose_targets n cfg.exclude list kept)
  unfolding choose_targets
  choose_targets_allowed cfg [] kept few a = a
  choose_targets_allowed cfg (t ∷ ts) kept few a =
      elim (Bool-cases (not (scannable n cfg.exclude t.ip) || contains t.ip (map target_ip kept))) [
        | inl skip ↦ rw (skip, choose_targets) (choose_targets_allowed cfg ts kept few a)
        | inr good ↦
            let size = length-append kept (t ∷ []) in
            let grown : AreAllowed cfg (kept ++ (t ∷ [])) = (
              All-last (λ (u : Target). scannable n cfg.exclude u.ip ≡ true) kept t a.0
                  (ground arith),
              Once-last kept t (ground arith) a.1,
              omega (arith, size, few),
            ) in
            elim (Bool-cases (leb max_targets (length (kept ++ (t ∷ []))))) [
              | inl full ↦ rw (good, full, choose_targets) grown
              | inr room ↦
                  rw (good, room, choose_targets)
                    (choose_targets_allowed cfg ts (kept ++ (t ∷ [])) (ground arith) grown)
            ]
      ]

module _ (n : Netip) where
  -- An address that may be scanned.
  abbrev pub IsOpen : Config n → String → Type 0
  IsOpen cfg ip =
      (a : n.Addr) × (n.parse_addr ip ≡ some a)
      × (n.is_4 a ≡ true)
      × (n.is_link_local a ≡ false)
      × All (λ p. n.contains p a ≡ false) cfg.exclude

  excluded-All :
      (ps : List n.Prefix) (a : n.Addr)
      → excluded n ps a ≡ false
      → All (λ p. n.contains p a ≡ false) ps
  unfolding excluded
  excluded-All [] a e = tt
  excluded-All (p ∷ ps) a e = (ground (arith, e), excluded-All ps a (ground (arith, e)))

  scannable-IsOpen :
      (cfg : Config n) (ip : String) → scannable n cfg.exclude ip ≡ true → IsOpen cfg ip
  unfolding scannable
  scannable-IsOpen cfg ip e = elim (Option-cases (n.parse_addr ip)) [
    | inl bad ↦ cc (rw (bad, scannable) at e)
    | inr (a, good) ↦
        let e1 : (not (not (n.is_4 a) || n.is_link_local a) && not (excluded n cfg.exclude a))
            ≡ true =
          rw (good, scannable) at e in
        (
          a,
          good,
          ground (arith, e1),
          ground (arith, e1),
          excluded-All cfg.exclude a (ground (arith, e1)),
        )
  ]

-- A round touches only addresses that are read as IPv4 addresses, are not link-local and lie in no
-- excluded network, each once, and at most 1024 of them, whatever the discovery knows or the server configured.
pub targets_allowed :
    (n : Netip) (cfg : Config n) (known : List Target)
    → All (λ (t : Target). IsOpen n cfg t.ip) (targets n cfg known)
      × Once (map target_ip (targets n cfg known))
      × (length (targets n cfg known) ≤ 1024)
unfolding targets
targets_allowed n cfg known =
    let list : List Target = if ltb 0 (length cfg.external) then cfg.external else known in
    let a = choose_targets_allowed n cfg list [] (omega arith) (tt, tt, omega arith) in
    let kept = choose_targets n cfg.exclude list [] in
    (
      sort_by-All (λ (t : Target). IsOpen n cfg t.ip) ip_earlier kept
          (All-imp (λ (t : Target). scannable n cfg.exclude t.ip ≡ true) (λ t. IsOpen n cfg t.ip)
            kept (λ t. scannable-IsOpen n cfg t.ip) a.0),
      Once-sort target_ip ip_earlier kept a.1,
      rw (length-sort_by ip_earlier kept) a.2,
    )
