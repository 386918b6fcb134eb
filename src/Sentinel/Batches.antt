-- ===== src/Sentinel/Batches.antt =====
-- `Drain` and `Nack`: what is handed over and what comes back.
use excubra.Prelude.{
  suc, ◌≡◌, refl, sym, ap, ◌∙◌, inl, inr, String, true, false, ◌&&◌, Option, none, some, List, [],
  ◌∷◌, arith, eq_iff, eq_refl, str_eq, if◌then◌else◌, length, contains, place, sort_by, Bool-cases,
  Option-cases,
}
use excubra.GoMap.{Map, lookup, insert, lookup-insert, Fresh, Unique, insert-Unique, lookup-Fresh}
use excubra.GoMap.Named.{is_some}
use excubra.Wire.{Signal}
use excubra.Sentinel.Types.{Sentinel}
use excubra.Sentinel.Pending.{collect, earlier, rejoin, restore, nack}

-- What stands under a key after `Nack`: what waited, joined by what was in flight.
unfoldable pub joined : Option Signal → Option Signal → Option Signal
joined none old = old
joined (some cur) none = some cur
joined (some cur) (some old) = some (rejoin cur old)

module _ (x : String × Signal) where
  Fresh-place :
      (k : String) (m : Map Signal) → str_eq x.0 k ≡ false → Fresh k m → Fresh k (place earlier x m)
  Fresh-place k [] ne f = (ne, tt)
  Fresh-place k ((j, sg) ∷ m) ne f = elim (Bool-cases (earlier (j, sg) x)) [
    | inl t ↦ rw t (f.0, Fresh-place k m ne f.1)
    | inr t ↦ rw t (ne, f)
  ]

  Unique-place : (m : Map Signal) → Fresh x.0 m → Unique m → Unique (place earlier x m)
  Unique-place [] f u = (tt, tt)
  Unique-place ((j, sg) ∷ m) f u = elim (Bool-cases (earlier (j, sg) x)) [
    | inl t ↦ rw t (
      Fresh-place j m (ground (arith, eq_iff x.0 j, eq_iff j x.0, f.0)) u.0,
      Unique-place m f.1 u.1,
    )
    | inr t ↦ rw t (f, u)
  ]

  lookup-place :
      (k : String) (m : Map Signal)
      → Fresh x.0 m
      → lookup k (place earlier x m) ≡ (if str_eq x.0 k then some x.1 else lookup k m)
  lookup-place k [] f = refl
  lookup-place k ((j, sg) ∷ m) f = elim (Bool-cases (earlier (j, sg) x)) [
    | inr t ↦ rw t
    | inl t ↦
        rw (t, lookup-place k m f.1)
          (ground (arith, eq_iff x.0 k, eq_iff k x.0, eq_iff j k, eq_iff j x.0, f.0))
  ]

Fresh-sort : (k : String) (m : Map Signal) → Fresh k m → Fresh k (sort_by earlier m)
Fresh-sort k [] f = tt
Fresh-sort k ((j, sg) ∷ m) f = Fresh-place (j, sg) k (sort_by earlier m) f.0 (Fresh-sort k m f.1)

Unique-sort : (m : Map Signal) → Unique m → Unique (sort_by earlier m)
Unique-sort [] u = tt
Unique-sort ((j, sg) ∷ m) u =
    Unique-place (j, sg) (sort_by earlier m) (Fresh-sort j m u.0) (Unique-sort m u.1)

lookup-sort : (k : String) (m : Map Signal) → Unique m → lookup k (sort_by earlier m) ≡ lookup k m
lookup-sort k [] u = refl
lookup-sort k ((j, sg) ∷ m) u =
    lookup-place (j, sg) k (sort_by earlier m) (Fresh-sort j m u.0) ∙ rw (lookup-sort k m u.1)

restore-lookup :
    (pending olds : Map Signal) (k : String)
    → Unique olds
    → lookup k (restore pending olds).0 ≡ joined (lookup k pending) (lookup k olds)
unfolding restore joined
restore-lookup pending [] k u = elim (Option-cases (lookup k pending)) [
  | inl e ↦ rw e
  | inr (c, e) ↦ rw e
]
restore-lookup pending ((j, old) ∷ olds) k u = elim (Option-cases (lookup j pending)) [
  | inl e ↦
      rw (e, restore)
        (restore-lookup (insert j old pending) olds k u.1
          ∙ rw (lookup-insert j k old pending) (elim (Bool-cases (str_eq j k)) [
            | inr miss ↦ rw miss
            | inl hit ↦
                let same = (eq_iff j k).0 hit in rw (hit, ← same, e, lookup-Fresh j olds u.0)
          ]))
  | inr (cur, e) ↦
      rw (e, restore)
        (restore-lookup (insert j (rejoin cur old) pending) olds k u.1
          ∙ rw (lookup-insert j k (rejoin cur old) pending) (elim (Bool-cases (str_eq j k)) [
            | inr miss ↦ rw miss
            | inl hit ↦
                let same = (eq_iff j k).0 hit in rw (hit, ← same, e, lookup-Fresh j olds u.0)
          ]))
]

pub restored :
    (s : Sentinel) (k : String)
    → Unique s.inflight
    → lookup k (nack s).pending ≡ joined (lookup k s.pending) (lookup k s.inflight)
unfolding nack
restored s k u =
    restore-lookup s.pending (sort_by earlier s.inflight) k (Unique-sort s.inflight u)
    ∙ ap (joined (lookup k s.pending)) (lookup-sort k s.inflight u)

pub collect-lookup :
    (pending : Map Signal) (order : List String) (inflight : Map Signal) (k : String)
    → lookup k (collect pending order inflight).1 ≡ (
        if contains k order && is_some (lookup k pending)
        then lookup k pending
        else lookup k inflight)
unfolding collect
collect-lookup pending [] inflight k = refl
collect-lookup pending (j ∷ js) inflight k = elim (Option-cases (lookup j pending)) [
  | inl e ↦
      rw (e, collect)
        (collect-lookup pending js inflight k ∙ elim (Bool-cases (str_eq j k)) [
          | inr miss ↦ rw miss
          | inl hit ↦
              rw (hit, ← (eq_iff j k).0 hit, e)
                (elim (Bool-cases (contains j js)) [ inl t ↦ rw t | inr t ↦ rw t ])
        ])
  | inr (sg, e) ↦
      rw (e, collect)
        (collect-lookup pending js (insert j sg inflight) k
          ∙ rw (lookup-insert j k sg inflight) (elim (Bool-cases (str_eq j k)) [
            | inr miss ↦ rw miss
            | inl hit ↦
                rw (hit, ← (eq_iff j k).0 hit, e)
                  (elim (Bool-cases (contains j js)) [ inl t ↦ rw t | inr t ↦ rw t ])
          ]))
]

pub collect-Unique :
    (pending : Map Signal) (order : List String) (inflight : Map Signal)
    → Unique inflight
    → Unique (collect pending order inflight).1
unfolding collect
collect-Unique pending [] inflight u = u
collect-Unique pending (j ∷ js) inflight u = elim (Option-cases (lookup j pending)) [
  | inl e ↦ rw (e, collect) (collect-Unique pending js inflight u)
  | inr (sg, e) ↦
      rw (e, collect)
        (collect-Unique pending js (insert j sg inflight) (insert-Unique j sg inflight u))
]

pub collect-length :
    (pending : Map Signal) (order : List String) (inflight : Map Signal)
    → ((k : String) → contains k order ≡ true → is_some (lookup k pending) ≡ true)
    → length (collect pending order inflight).0 ≡ length order
unfolding collect
collect-length pending [] inflight a = refl
collect-length pending (j ∷ js) inflight a = elim (Option-cases (lookup j pending)) [
  | inl e ↦ cc (sym (a j (rw (eq_refl j))) ∙ ap is_some e)
  | inr (sg, e) ↦
      rw (e, collect)
        (ap suc
          (collect-length pending js (insert j sg inflight) (λ k c. a k (rw c (ground arith)))))
]
