-- ===== src/State/Stable.antt =====
-- What suppresses a host does not change when another state is reported.
use excubra.Prelude.{
  ℕ, zero, suc, ◌≡◌, refl, ap, inl, inr, String, ◌||◌, none, some, List, [], ◌∷◌, arith, eq_iff,
  str_eq, length, contains, add, Bool-cases, Option-cases,
}
use mathlib.Core.Option
use excubra.GoMap.{Map, lookup, insert, values, lookup-insert}
use excubra.State.Types.{Host, HostState, Machine, Maintenance, is_down}
use excubra.State.Suppress.{
  walk, down_ancestor, suppressed, in_maintenance, window_covers, any_covers,
}
use excubra.State.Reconcile.{store_host}

-- What the walk reads of a host.
abbrev pub Link : Type 0
Link = String × String × HostState

abbrev link : Host → Link
link h = (h.id, h.parent_id, h.observed)

abbrev SameLinks : Map Host → Map Host → Type 0
SameLinks hosts hosts' =
    (k : String) → Option.map link (lookup k hosts) ≡ Option.map link (lookup k hosts')

walk_cong :
    (hosts hosts' : Map Host) (fuel : ℕ) (seen : List String) (pid : String)
    → SameLinks hosts hosts'
    → walk hosts fuel seen pid ≡ walk hosts' fuel seen pid
unfolding walk
walk_cong hosts hosts' zero seen pid same = refl
walk_cong hosts hosts' (suc fuel) seen pid same =
    elim (Bool-cases (str_eq pid "" || contains pid seen)) [
      | inl stop ↦ rw (stop, walk)
      | inr go ↦ elim (Option-cases (lookup pid hosts)) [
        | inl l ↦
            let l' : lookup pid hosts' ≡ none = ground (arith, same pid) in
            rw (go, walk) (rw l (rw l'))
        | inr (p, l) ↦ elim (Option-cases (lookup pid hosts')) [
          | inl l' ↦ cc (same pid)
          | inr (q, l') ↦
              let ids : p.id ≡ q.id = ground (arith, same pid) in
              let parents : p.parent_id ≡ q.parent_id = ground (arith, same pid) in
              let states : p.observed ≡ q.observed = ground (arith, same pid) in
              rw (go, walk)
                (rw l (
                  rw l' (elim (Bool-cases (is_down q.observed)) [
                    | inl d ↦ rw (states, d) (ap some ids)
                    | inr d ↦
                        rw (states, d, parents)
                          (walk_cong hosts hosts' fuel (pid ∷ seen) q.parent_id same)
                  ])))
        ]
      ]
    ]

length-insert :
    (k : String) (v : Host) {w : Host} (m : Map Host)
    → lookup k m ≡ some w
    → length (insert k v m) ≡ length m
length-insert k v [] e = cc
length-insert k v ((i, u) ∷ m) e = elim (Bool-cases (str_eq i k)) [
  | inl hit ↦ rw hit
  | inr miss ↦ rw miss (ap suc (length-insert k v m (rw miss at e)))
]

any_covers_cong :
    (m : Machine) (h : Host) (hosts : Map Host) (dirty : List String) (ws : List Maintenance)
    → any_covers (record m { hosts = hosts; dirty_hosts = dirty }) h ws ≡ any_covers m h ws
unfolding window_covers
any_covers_cong m h hosts dirty [] = refl
any_covers_cong m h hosts dirty (w ∷ ws) = rw (any_covers_cong m h hosts dirty ws)

module _ (m : Machine) (hosts : Map Host) (dirty : List String) where
  down_ancestor_cong :
      (g : Host)
      → SameLinks hosts m.hosts
      → length hosts ≡ length m.hosts
      → down_ancestor (record m { hosts = hosts; dirty_hosts = dirty }) g ≡ down_ancestor m g
  unfolding down_ancestor
  down_ancestor_cong g same len =
      rw (len, walk_cong hosts m.hosts (suc (length m.hosts)) (g.id ∷ []) g.parent_id same)

  in_maintenance_cong :
      (g : Host)
      → in_maintenance (record m { hosts = hosts; dirty_hosts = dirty }) g ≡ in_maintenance m g
  unfolding in_maintenance
  in_maintenance_cong g = any_covers_cong m g hosts dirty (values m.maint)

  pub suppressed_cong :
      (g : Host)
      → SameLinks hosts m.hosts
      → length hosts ≡ length m.hosts
      → suppressed (record m { hosts = hosts; dirty_hosts = dirty }) g ≡ suppressed m g
  unfolding suppressed
  suppressed_cong g same len = rw (down_ancestor_cong g same len, in_maintenance_cong g)

links-insert :
    (h : Host) (r : HostState) (hosts : Map Host)
    → lookup h.id hosts ≡ some h
    → SameLinks (insert h.id (record h { reported = r }) hosts) hosts
links-insert h r hosts e k =
    rw (lookup-insert h.id k (record h { reported = r }) hosts) (elim (Bool-cases (str_eq h.id k)) [
      | inl hit ↦ rw (hit, ← (eq_iff h.id k).0 hit, e)
      | inr miss ↦ rw miss
    ])

-- Reporting another state of one host leaves every host as suppressed as it was.
pub suppressed-store_host :
    (m : Machine) (h g : Host) (r : HostState)
    → lookup h.id m.hosts ≡ some h
    → suppressed (store_host m (record h { reported = r })) g ≡ suppressed m g
unfolding store_host
suppressed-store_host m h g r e =
    suppressed_cong m (insert h.id (record h { reported = r }) m.hosts) (add h.id m.dirty_hosts) g
      (links-insert h r m.hosts e) (length-insert h.id (record h { reported = r }) m.hosts e)
