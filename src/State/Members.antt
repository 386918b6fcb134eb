-- ===== src/State/Members.antt =====
-- The hosts of a box, as `reconcileBox` gathers and sorts them.
use excubra.Prelude.{
  ◌≡◌, refl, sym, ap, ◌∙◌, inl, inr, String, Bool, false, Option, none, some, [], ◌∷◌, arith,
  eq_iff, str_eq, contains, select, Once, Once-sort, contains-sort, Bool-cases, Option-cases,
}
use excubra.GoMap.{Map, lookup, values, Unique, Entries, lookup-Fresh}
use excubra.State.Types.{Host, Machine}
use excubra.State.Reconcile.{host_ids, host_before, box_hosts}
use excubra.State.Wellformed.{HostEntry, WellFormed}

abbrev passes : (Host → Bool) → Option Host → Bool
passes p none = false
passes p (some h) = p h

module _ (p : Host → Bool) where
  contains-select :
      (j : String) (hosts : Map Host)
      → Unique hosts
      → Entries HostEntry hosts
      → contains j (host_ids (select p (values hosts))) ≡ passes p (lookup j hosts)
  contains-select j [] u e = refl
  contains-select j ((k, h) ∷ hosts) u e =
      let rest = contains-select j hosts u.1 e.1 in
      elim (Bool-cases (str_eq k j)) [
        | inl hit ↦
            let missing =
              rest
              ∙ ap (passes p) (
                  ap (λ (i : String). lookup i hosts) (sym ((eq_iff k j).0 hit))
                  ∙ lookup-Fresh k hosts u.0) in
            ground (arith, missing, e.0.0, eq_iff h.id j, eq_iff k j)
        | inr miss ↦ ground (arith, rest, e.0.0, eq_iff h.id j, eq_iff k j)
      ]

  Once-select :
      (hosts : Map Host)
      → Unique hosts
      → Entries HostEntry hosts
      → Once (host_ids (select p (values hosts)))
  Once-select [] u e = tt
  Once-select ((k, h) ∷ hosts) u e =
      let absent : passes p (lookup h.id hosts) ≡ false =
        ap (λ (i : String). passes p (lookup i hosts)) e.0.0
        ∙ ap (passes p) (lookup-Fresh k hosts u.0) in
      ground (arith, Once-select hosts u.1 e.1, contains-select h.id hosts u.1 e.1 ∙ absent)

pub box_hosts-Once : (m : Machine) (box_id : String) → WellFormed m → Once (box_hosts m box_id)
unfolding box_hosts
box_hosts-Once m box_id v =
    Once-sort (λ h. h.id) (host_before m) _
      (Once-select (λ h. str_eq h.box_id box_id) m.hosts v.hosts_unique v.hosts_entries)

abbrev pub is_of_box : String → Option Host → Bool
is_of_box box_id none = false
is_of_box box_id (some h) = str_eq h.box_id box_id

pub contains-box_hosts :
    (m : Machine) (box_id j : String)
    → WellFormed m
    → contains j (box_hosts m box_id) ≡ is_of_box box_id (lookup j m.hosts)
unfolding box_hosts
contains-box_hosts m box_id j v =
    contains-sort (λ h. h.id) (host_before m) j _
    ∙ contains-select (λ h. str_eq h.box_id box_id) j m.hosts v.hosts_unique v.hosts_entries
    ∙ elim (Option-cases (lookup j m.hosts)) [ inl e ↦ rw e | inr (h, e) ↦ rw e ]
