-- ===== src/Blocklist/Domains.antt =====
-- What `cleanDomain` lets through.
use Prim.Native.String.{len}
use excubra.Prelude.{
  ◌≤◌, ◌≡◌, inl, inr, String, true, false, not, ◌||◌, some, arith, str_eq, ltb, Bool-cases,
  some_inj, subst,
}
use excubra.GoText.{to_lower, trim_space}
use excubra.Blocklist.{
  has_dot, all_host, digits_only, accept_domain, clean_domain, trim_dot, until_colon,
}

abbrev pub IsDomain : String → Type 0
IsDomain d = (has_dot d ≡ true) × (all_host d ≡ true) × (digits_only d ≡ false) × (len d ≤ 253)

accept_domain-IsDomain : (s d : String) → accept_domain s ≡ some d → IsDomain d
unfolding accept_domain
accept_domain-IsDomain s d e =
    elim (Bool-cases (
      str_eq s ""
      || str_eq s "localhost"
      || str_eq s "localhost.localdomain"
      || not (has_dot s)
      || ltb 253 (len s))) [
        | inl bad ↦ cc (rw bad at e)
        | inr good ↦ elim (Bool-cases (not (all_host s) || digits_only s)) [
          | inl bad ↦ cc (rw bad at (rw good at e))
          | inr fine ↦
              subst IsDomain (some_inj (rw fine at (rw good at e)))
                (ground arith, ground arith, ground arith, ground arith)
        ]
      ]

-- A domain that `cleanDomain` lets through has a dot and a character that no address has, consists
-- of lower-case letters, digits, dashes, underscores and dots, and is at most 253 bytes long.
pub clean_domain-IsDomain : (s d : String) → clean_domain s ≡ some d → IsDomain d
unfolding clean_domain
clean_domain-IsDomain s d e =
    accept_domain-IsDomain (until_colon (to_lower (trim_dot (trim_space s)))) d e
