-- ===== src/State/Sweep.antt =====
-- The sweep of `reconcileBox` over the hosts: what it does one after another is what the table says
-- of each host in the machine before the sweep.
use excubra.Prelude.{
  ◌≡◌, refl, sym, ap, subst, ◌∙◌, inl, inr, String, Bool, false, Option, none, some, List, [], ◌∷◌,
  arith, eq_iff, str_eq, if◌then◌else◌, contains, Once, Bool-cases, Option-cases,
}
use mathlib.Core.Option
use excubra.GoMap.{lookup, lookup-insert}
use excubra.GoTime.{Time}
use excubra.Event.{Event}
use excubra.State.Types.{Box, Host, Machine}
use excubra.State.Reconcile.{store_host, cons_event, reconcile, reconcile_id, reconcile_all}
use excubra.State.Stable.{suppressed-store_host}
use excubra.State.Settle.{
  is_open, reported_host, announced, Leaves, reconcile-announced, reconcile-Leaves,
}

abbrev pub Keyed : Machine → Type 0
Keyed m = (k : String) (h : Host) → lookup k m.hosts ≡ some h → h.id ≡ k

-- The host after the sweep, from the machine before it.
abbrev swept : Machine → Box → String → Option Host
swept m b j = Option.map (reported_host m b) (lookup j m.hosts)

module _ (m : Machine) (b : Box) (h : Host) (held : lookup h.id m.hosts ≡ some h) where
  Leaves-lookup :
      (m' : Machine) (j : String)
      → Leaves m b h m'
      → lookup j m'.hosts ≡ (if str_eq h.id j then swept m b j else lookup j m.hosts)
  unfolding store_host
  Leaves-lookup m' j (inl (e, k)) = elim (Bool-cases (str_eq h.id j)) [
    | inl hit ↦ rw (hit, e, ← (eq_iff h.id j).0 hit, held, k)
    | inr miss ↦ rw (miss, e)
  ]
  Leaves-lookup m' j (inr (r, e, k)) =
      rw (e, lookup-insert h.id j (record h { reported = r }) m.hosts)
        (elim (Bool-cases (str_eq h.id j)) [
          | inl hit ↦ rw (hit, ← (eq_iff h.id j).0 hit, held, k)
          | inr miss ↦ rw miss
        ])

  Leaves-open :
      (m' : Machine) (b' : Box) (g : Host) → Leaves m b h m' → is_open m' b' g ≡ is_open m b' g
  unfolding is_open
  Leaves-open m' b' g (inl (e, k)) = rw e
  Leaves-open m' b' g (inr (r, e, k)) = rw (e, suppressed-store_host m h g r held)

reported_host-id : (m : Machine) (b : Box) (h : Host) → (reported_host m b h).id ≡ h.id
unfolding reported_host
reported_host-id m b h = ground arith

swept-Keyed :
    (m : Machine) (b : Box) → Keyed m → (k : String) (h : Host) → swept m b k ≡ some h → h.id ≡ k
swept-Keyed m b keyed k h e = elim (Option-cases (lookup k m.hosts)) [
  | inl l ↦ cc (rw l at e)
  | inr (g, l) ↦
      let same : reported_host m b g ≡ h = cc (rw l at e) in
      sym (ap (λ (x : Host). x.id) same) ∙ reported_host-id m b g ∙ keyed k g l
]

module _ (m : Machine) (b : Box) (keyed : Keyed m) (id : String) (at : Time) where
  id_lookup :
      (j : String)
      → lookup j (reconcile_id m b id at).0.hosts
        ≡ (if str_eq id j then swept m b j else lookup j m.hosts)
  unfolding reconcile_id
  id_lookup j = elim (Option-cases (lookup id m.hosts)) [
    | inl e ↦ elim (Bool-cases (str_eq id j)) [
      | inl hit ↦ rw (e, reconcile_id) (rw (hit, ← (eq_iff id j).0 hit, e))
      | inr miss ↦ rw (e, reconcile_id) (rw miss)
    ]
    | inr (h, e) ↦
        let same : h.id ≡ id = keyed id h e in
        rw (e, reconcile_id)
          (subst
            (λ (k : String).
              lookup j (reconcile m b h at).0.hosts
              ≡ (if str_eq k j then swept m b j else lookup j m.hosts))
            same
            (Leaves-lookup m b h (ap (λ (k : String). lookup k m.hosts) same ∙ e)
              (reconcile m b h at).0 j (reconcile-Leaves m b h at)))
  ]

  id_open : (b' : Box) (g : Host) → is_open (reconcile_id m b id at).0 b' g ≡ is_open m b' g
  unfolding reconcile_id
  id_open b' g = elim (Option-cases (lookup id m.hosts)) [
    | inl e ↦ rw (e, reconcile_id)
    | inr (h, e) ↦
        let same : h.id ≡ id = keyed id h e in
        rw (e, reconcile_id)
          (Leaves-open m b h (ap (λ (k : String). lookup k m.hosts) same ∙ e) (reconcile m b h at).0
            b' g (reconcile-Leaves m b h at))
  ]

  id-Keyed : Keyed (reconcile_id m b id at).0
  id-Keyed k h e = elim (Bool-cases (str_eq id k)) [
    | inl hit ↦
        swept-Keyed m b keyed k h (
          sym (id_lookup k ∙ ap (λ (t : Bool). if t then swept m b k else lookup k m.hosts) hit)
          ∙ e)
    | inr miss ↦ keyed k h (
        sym (id_lookup k ∙ ap (λ (t : Bool). if t then swept m b k else lookup k m.hosts) miss) ∙ e)
  ]

-- The announcements of a sweep, all read off the machine before it.
abbrev pub announced_of : Machine → Box → Time → Option Host → Option Event
announced_of m b at none = none
announced_of m b at (some h) = announced m b h at

abbrev pub announced_id : Machine → Box → String → Time → Option Event
announced_id m b id at = announced_of m b at (lookup id m.hosts)

unfoldable pub announcements : Machine → Box → List String → Time → List Event
announcements m b [] at = []
announcements m b (id ∷ ids) at = cons_event (announced_id m b id at) (announcements m b ids at)

module _ (m : Machine) (b : Box) (keyed : Keyed m) (at : Time) where
  announced_open :
      (id : String) (found : Option Host)
      → announced_of (reconcile_id m b id at).0 b at found ≡ announced_of m b at found
  unfolding announced
  announced_open id none = refl
  announced_open id (some h) = rw (id_open m b keyed id at b h)

  announced_step :
      (id j : String)
      → str_eq id j ≡ false
      → announced_id (reconcile_id m b id at).0 b j at ≡ announced_id m b j at
  announced_step id j miss =
      announced_open id (lookup j (reconcile_id m b id at).0.hosts)
      ∙ ap (announced_of m b at) (
          id_lookup m b keyed id at j
          ∙ ap (λ (t : Bool). if t then swept m b j else lookup j m.hosts) miss)

  announcements_step :
      (id : String) (ids : List String)
      → contains id ids ≡ false
      → announcements (reconcile_id m b id at).0 b ids at ≡ announcements m b ids at
  unfolding announcements
  announcements_step id [] c = refl
  announcements_step id (j ∷ ids) c = rw (
    announced_step id j (ground (arith, eq_iff id j, eq_iff j id)),
    announcements_step id ids (ground arith),
  )

  announced_head : (id : String) → (reconcile_id m b id at).1 ≡ announced_id m b id at
  unfolding reconcile_id
  announced_head id = elim (Option-cases (lookup id m.hosts)) [
    | inl e ↦ rw (e, reconcile_id)
    | inr (h, e) ↦ rw (e, reconcile_id) (reconcile-announced m b h at)
  ]

-- A sweep announces what the table says of each host in the machine before the sweep.
pub reconcile_all-announcements :
    (m : Machine) (b : Box) (ids : List String) (at : Time)
    → Keyed m
    → Once ids
    → (reconcile_all m b ids at).1 ≡ announcements m b ids at
unfolding reconcile_all announcements
reconcile_all-announcements m b [] at keyed once = refl
reconcile_all-announcements m b (id ∷ ids) at keyed once = rw (announced_head m b keyed at id) (
    ap (cons_event (announced_id m b id at)) (
      reconcile_all-announcements (reconcile_id m b id at).0 b ids at (id-Keyed m b keyed id at)
        once.1
      ∙ announcements_step m b keyed at id ids once.0))

module _ (m : Machine) (b : Box) (keyed : Keyed m) (id : String) (at : Time) where
  swept_open :
      (found : Option Host)
      → Option.map (reported_host (reconcile_id m b id at).0 b) found
        ≡ Option.map (reported_host m b) found
  unfolding reported_host
  swept_open none = refl
  swept_open (some h) = rw (id_open m b keyed id at b h)

  swept_step :
      (j : String) → str_eq id j ≡ false → swept (reconcile_id m b id at).0 b j ≡ swept m b j
  swept_step j miss =
      swept_open (lookup j (reconcile_id m b id at).0.hosts)
      ∙ ap (Option.map (reported_host m b)) (
          id_lookup m b keyed id at j
          ∙ ap (λ (t : Bool). if t then swept m b j else lookup j m.hosts) miss)

-- A sweep over a set of hosts leaves each of them as the table says, by the machine before the
-- sweep, and every other host as it was.
pub reconcile_all-lookup :
    (m : Machine) (b : Box) (ids : List String) (at : Time) (j : String)
    → Keyed m
    → Once ids
    → lookup j (reconcile_all m b ids at).0.hosts
      ≡ (if contains j ids then swept m b j else lookup j m.hosts)
unfolding reconcile_all
reconcile_all-lookup m b [] at j keyed once = refl
reconcile_all-lookup m b (id ∷ ids) at j keyed once =
    let m1 = (reconcile_id m b id at).0 in
    reconcile_all-lookup m1 b ids at j (id-Keyed m b keyed id at) once.1
    ∙ elim (Bool-cases (str_eq id j)) [
      | inl hit ↦
          let alone : contains j ids ≡ false =
            ap (λ (k : String). contains k ids) (sym ((eq_iff id j).0 hit)) ∙ once.0 in
          rw (hit, alone)
            (id_lookup m b keyed id at j
              ∙ ap (λ (t : Bool). if t then swept m b j else lookup j m.hosts) hit)
      | inr miss ↦ rw (miss, swept_step m b keyed id at j miss, id_lookup m b keyed id at j, miss)
    ]

-- A sweep changes nothing of what suppresses a host.
pub reconcile_all-open :
    (m : Machine) (b : Box) (ids : List String) (at : Time) (b' : Box) (g : Host)
    → Keyed m
    → is_open (reconcile_all m b ids at).0 b' g ≡ is_open m b' g
unfolding reconcile_all
reconcile_all-open m b [] at b' g keyed = refl
reconcile_all-open m b (id ∷ ids) at b' g keyed =
    reconcile_all-open (reconcile_id m b id at).0 b ids at b' g (id-Keyed m b keyed id at)
    ∙ id_open m b keyed id at b' g
