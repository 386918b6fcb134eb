-- ===== src/State/Uplinks.antt =====
-- `downAncestor` against the walk that has no guard against cycles.
use excubra.Prelude.{
  ℕ, zero, suc, ◌<◌, ◌≡◌, refl, ◌≢◌, ap, ◌⊎◌, inl, inr, String, true, false, ◌||◌, none, some, List,
  [], ◌∷◌, arith, eq_iff, str_eq, length, contains, Bool-cases, Option-cases,
}
use excubra.GoMap.{Map, lookup}
use excubra.State.Types.{Host, Machine, is_down}
use excubra.State.Suppress.{walk, down_ancestor}
use excubra.State.Ancestors.{
  walk_total, unseen, unseen_le, unseen_falls, first_down, first_down_mono, first_down_least,
}

walk_sound :
    (hosts : Map Host) (fuel : ℕ) (seen : List String) (pid id : String)
    → walk hosts fuel seen pid ≡ some id
    → id ≢ ""
    → (n : ℕ) × (p : Host) × (first_down hosts n pid ≡ some p) × (p.id ≡ id)
unfolding walk first_down
walk_sound hosts zero seen pid id e ne = cc
walk_sound hosts (suc fuel) seen pid id e ne =
    elim (Bool-cases (str_eq pid "" || contains pid seen)) [
      | inl stop ↦ absurd (ne (cc (rw (stop, walk) at e)))
      | inr go ↦
          let named : str_eq pid "" ≡ false = ground arith in
          elim (Option-cases (lookup pid hosts)) [
            | inl l ↦ absurd (ne (cc (rw (go, l, walk) at e)))
            | inr (p, l) ↦ elim (Bool-cases (is_down p.observed)) [
              | inl d ↦ (1, p, rw (named, l, d, first_down) refl, cc (rw (go, l, d, walk) at e))
              | inr d ↦
                  let (n, q, f, i) =
                    walk_sound hosts fuel (pid ∷ seen) p.parent_id id (rw (go, l, d, walk) at e)
                      ne in
                  (suc n, q, rw (named, l, d, first_down) f, i)
            ]
          ]
    ]

-- The hosts seen do not lead to `p` in so few steps.
abbrev Avoids : Map Host → ℕ → List String → Host → Type 0
Avoids hosts n seen p = (s : String) → contains s seen ≡ true → first_down hosts n s ≢ some p

Avoids-cons :
    (hosts : Map Host) (n : ℕ) (pid : String) (seen : List String) (p : Host)
    → first_down hosts n pid ≡ none
    → Avoids hosts (suc n) seen p
    → Avoids hosts n (pid ∷ seen) p
Avoids-cons hosts n pid seen p missing avoids s c found = elim (Bool-cases (str_eq pid s)) [
  | inl hit ↦ cc ((eq_iff pid s).0 hit)
  | inr miss ↦ avoids s (rw miss at c) (first_down_mono hosts n s found)
]

-- The first step of a walk that finds `p`: it has arrived, or it goes on from the parent.
abbrev Start : Map Host → ℕ → String → Host → Host → Type 0
Start hosts n pid p q =
    ((is_down q.observed ≡ true) × (q ≡ p))
    ⊎ ((is_down q.observed ≡ false) × (first_down hosts n q.parent_id ≡ some p))

first_step :
    (hosts : Map Host) (n : ℕ) (pid : String) (p : Host)
    → first_down hosts (suc n) pid ≡ some p
    → (str_eq pid "" ≡ false) × (q : Host) × (lookup pid hosts ≡ some q) × Start hosts n pid p q
unfolding first_down
first_step hosts n pid p e = elim (Bool-cases (str_eq pid "")) [
  | inl stop ↦ cc (rw (stop, first_down) at e)
  | inr go ↦ elim (Option-cases (lookup pid hosts)) [
    | inl l ↦ cc (rw (go, l, first_down) at e)
    | inr (q, l) ↦ elim (Bool-cases (is_down q.observed)) [
      | inl d ↦ (go, q, l, inl (d, cc (rw (go, l, d, first_down) at e)))
      | inr d ↦ (go, q, l, inr (d, rw (go, l, d, first_down) at e))
    ]
  ]
]

parent_misses :
    (hosts : Map Host) (n : ℕ) (pid : String) (q : Host)
    → str_eq pid "" ≡ false
    → lookup pid hosts ≡ some q
    → is_down q.observed ≡ false
    → first_down hosts (suc n) pid ≡ none
    → first_down hosts n q.parent_id ≡ none
unfolding first_down
parent_misses hosts n pid q go l d m = rw (go, l, d, first_down) at m

abbrev Complete : Map Host → ℕ → Type 0
Complete hosts fuel =
    (n : ℕ) (seen : List String) (pid : String) (p : Host)
    → unseen hosts seen < fuel
    → first_down hosts (suc n) pid ≡ some p
    → first_down hosts n pid ≡ none
    → Avoids hosts (suc n) seen p
    → walk hosts fuel seen pid ≡ some p.id

-- The rest of a walk that has passed a host which is not down.
go_on :
    (hosts : Map Host) (fuel n : ℕ) (seen : List String) (pid : String) (p q : Host)
    → Complete hosts fuel
    → unseen hosts (pid ∷ seen) < fuel
    → first_down hosts n q.parent_id ≡ some p
    → first_down hosts n pid ≡ none
    → Avoids hosts (suc n) seen p
    → (str_eq pid "" ≡ false) × (lookup pid hosts ≡ some q) × (is_down q.observed ≡ false)
    → walk hosts fuel (pid ∷ seen) q.parent_id ≡ some p.id
unfolding first_down
go_on hosts fuel zero seen pid p q ih h f m av at = cc
go_on hosts fuel (suc n) seen pid p q ih h f m av at =
    ih n (pid ∷ seen) q.parent_id p h f (parent_misses hosts n pid q at.0 at.1 at.2 m)
      (Avoids-cons hosts (suc n) pid seen p m av)

walk-Complete : (hosts : Map Host) (fuel : ℕ) → Complete hosts fuel
unfolding walk
walk-Complete hosts zero n seen pid p h e m av = elim h [ ]
walk-Complete hosts (suc fuel) n seen pid p h e m av =
    let (go, q, l, start) = first_step hosts n pid p e in
    elim (Bool-cases (contains pid seen)) [
      | inl again ↦ absurd (av pid again e)
      | inr new ↦ elim start [
        | inl (d, same) ↦ rw (go, new, l, d, walk) (ap (λ (x : Host). some x.id) same)
        | inr (d, f) ↦
            rw (go, new, l, d, walk)
              (go_on hosts fuel n seen pid p q (walk-Complete hosts fuel)
                (omega (arith, unseen_falls hosts pid seen l new)) f m av (go, l, d))
      ]
    ]

-- What `downAncestor` returns, unless it is empty, is a host that is down and that the parents lead to with none down
-- before it.
pub down_ancestor_sound :
    (m : Machine) (h : Host)
    → down_ancestor m h ≢ ""
    → (n : ℕ) × (p : Host) × (first_down m.hosts n h.parent_id ≡ some p)
      × (p.id ≡ down_ancestor m h)
unfolding down_ancestor
down_ancestor_sound m h ne =
    let (id, e) =
      walk_total m.hosts (suc (length m.hosts)) (h.id ∷ []) h.parent_id
        (omega (arith, unseen_le m.hosts (h.id ∷ []))) in
    let (n, p, f, i) =
      walk_sound m.hosts (suc (length m.hosts)) (h.id ∷ []) h.parent_id id e
        (rw (e, down_ancestor) at ne) in
    (n, p, f, rw (e, down_ancestor) i)

own_walk_misses :
    (m : Machine) (h p : Host) (k : ℕ)
    → lookup h.id m.hosts ≡ some h
    → p.id ≢ h.id
    → first_down m.hosts k h.parent_id ≡ none
    → first_down m.hosts (suc k) h.id ≢ some p
unfolding first_down
own_walk_misses m h p k l ne miss e =
    let (go, q, l', start) = first_step m.hosts k h.id p e in
    elim start [ inl (d, same) ↦ ne (cc) | inr (d, f) ↦ cc ]

-- For a stored host, the first host that is down on the way up, if there is one other than the host
-- itself, is the one that `downAncestor` returns: cycles in the parents hide no other host.
pub down_ancestor_complete :
    (m : Machine) (h p : Host) (n : ℕ)
    → lookup h.id m.hosts ≡ some h
    → first_down m.hosts n h.parent_id ≡ some p
    → p.id ≢ h.id
    → down_ancestor m h ≡ p.id
unfolding down_ancestor
down_ancestor_complete m h p n l f ne =
    let (k, e, miss) = first_down_least m.hosts n h.parent_id p f in
    rw (
      walk-Complete m.hosts (suc (length m.hosts)) k (h.id ∷ []) h.parent_id p
        (omega (arith, unseen_le m.hosts (h.id ∷ []))) e miss
        (λ s c found.
          own_walk_misses m h p k l ne miss (cc (found, (eq_iff h.id s).0 (ground arith)))))
