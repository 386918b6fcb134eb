-- ===== src/Sentinel/Kinds.antt =====
-- The kinds of the signals that wait and of those in flight.
use excubra.Prelude.{
  ◌≡◌, inl, inr, String, Bool, true, ◌||◌, List, [], ◌∷◌, leb, ltb, ◌==◌, length, contains, sort_by,
  place, All, Bool-cases, Option-cases,
}
use excubra.GoMap.{
  Map, lookup, insert, erase, Entries, Entries-lookup, insert-Entries, erase-Entries,
}
use excubra.GoTime.{Time}
use excubra.Wire.{Signal}
use excubra.Sentinel.Types.{Sentinel, max_pending}
use excubra.Sentinel.Pending.{
  merge, dated, signal_key, evict, file, redetail, collect, drain, earlier, rejoin, restore, nack,
}

-- The kinds of the sentinel's own sensors, and others.
abbrev pub known : List String → List String
known others = "canary" ∷ "port_scan" ∷ "arp_scan" ∷ "arp_spoof" ∷ others

abbrev pub IsKnown : List String → Signal → Type 0
IsKnown others sg = contains sg.kind (known others) ≡ true

abbrev pub AreKnown : List String → Map Signal → Type 0
AreKnown others = Entries (λ k sg. IsKnown others sg)

pub record Kinds (others : List String) (s : Sentinel) : Type 0 where
  pub waiting : AreKnown others s.pending
  pub flying : AreKnown others s.inflight

module _ (others : List String) where
  abbrev P : String → Signal → Type 0
  P k sg = IsKnown others sg

  evict-AreKnown :
      (pending : Map Signal) (order : List String)
      → AreKnown others pending
      → AreKnown others (evict pending order).0
  unfolding evict
  evict-AreKnown pending [] a = a
  evict-AreKnown pending (k ∷ ks) a = elim (Bool-cases (leb max_pending (length pending))) [
    | inr fits ↦ rw (fits, evict) a
    | inl full ↦
        rw (full, evict) (evict-AreKnown (erase k pending) ks (erase-Entries P k pending a))
  ]

  pub file-Kinds :
      (s : Sentinel) (sg : Signal) (accumulate : Bool) (now : Time)
      → IsKnown others sg
      → Kinds others s
      → Kinds others (file s sg accumulate now)
  unfolding file merge dated
  file-Kinds s sg accumulate now is k = elim (Option-cases (lookup (signal_key sg) s.pending)) [
    | inr (cur, e) ↦
        rw (e, file)
          (record {
            waiting =
                insert-Entries P (signal_key sg) (merge cur sg accumulate now) s.pending
                  (Entries-lookup P (signal_key sg) s.pending cur k.waiting e) k.waiting;
            flying = k.flying;
          })
    | inl e ↦
        rw (e, file)
          (record {
            waiting =
                insert-Entries P (signal_key sg) (dated sg now) (evict s.pending s.order).0 is
                  (evict-AreKnown s.pending s.order k.waiting);
            flying = k.flying;
          })
  ]

  pub redetail-Kinds :
      (s : Sentinel) (key detail : String) → Kinds others s → Kinds others (redetail s key detail)
  unfolding redetail
  redetail-Kinds s key detail k = elim (Option-cases (lookup key s.pending)) [
    | inl e ↦ rw (e, redetail) k
    | inr (cur, e) ↦
        rw (e, redetail)
          (record {
            waiting =
                insert-Entries P key (record cur { detail = detail }) s.pending
                  (Entries-lookup P key s.pending cur k.waiting e) k.waiting;
            flying = k.flying;
          })
  ]

  collect-AreKnown :
      (pending : Map Signal) (order : List String) (inflight : Map Signal)
      → AreKnown others pending
      → AreKnown others inflight
      → All (IsKnown others) (collect pending order inflight).0
        × AreKnown others (collect pending order inflight).1
  unfolding collect
  collect-AreKnown pending [] inflight a b = (tt, b)
  collect-AreKnown pending (k ∷ ks) inflight a b = elim (Option-cases (lookup k pending)) [
    | inl e ↦ rw (e, collect) (collect-AreKnown pending ks inflight a b)
    | inr (sg, e) ↦
        let is = Entries-lookup P k pending sg a e in
        let (out, after) =
          collect-AreKnown pending ks (insert k sg inflight) a
            (insert-Entries P k sg inflight is b) in
        rw (e, collect) ((is, out), after)
  ]

  -- What `Drain` hands over, and what it leaves.
  pub drain-Kinds :
      (s : Sentinel) → Kinds others s → All (IsKnown others) (drain s).1 × Kinds others (drain s).0
  unfolding drain
  drain-Kinds s k = elim (Bool-cases (length s.pending == 0 || ltb 0 (length s.inflight))) [
    | inl idle ↦ rw (idle, drain) (tt, k)
    | inr some_wait ↦
        let (out, after) = collect-AreKnown s.pending s.order s.inflight k.waiting k.flying in
        rw (some_wait, drain) (out, record { waiting = tt; flying = after })
  ]

  place-AreKnown :
      (x : String × Signal) (m : Map Signal)
      → IsKnown others x.1
      → AreKnown others m
      → AreKnown others (place earlier x m)
  place-AreKnown x [] is a = (is, tt)
  place-AreKnown x (y ∷ m) is a = elim (Bool-cases (earlier y x)) [
    | inl e ↦ rw e (a.0, place-AreKnown x m is a.1)
    | inr e ↦ rw e (is, a)
  ]

  sort-AreKnown : (m : Map Signal) → AreKnown others m → AreKnown others (sort_by earlier m)
  sort-AreKnown [] a = tt
  sort-AreKnown (x ∷ m) a = place-AreKnown x (sort_by earlier m) a.0 (sort-AreKnown m a.1)

  restore-AreKnown :
      (pending olds : Map Signal)
      → AreKnown others pending
      → AreKnown others olds
      → AreKnown others (restore pending olds).0
  unfolding restore rejoin
  restore-AreKnown pending [] a b = a
  restore-AreKnown pending ((k, old) ∷ olds) a b = elim (Option-cases (lookup k pending)) [
    | inl e ↦
        rw (e, restore)
          (restore-AreKnown (insert k old pending) olds (insert-Entries P k old pending b.0 a) b.1)
    | inr (cur, e) ↦
        rw (e, restore)
          (restore-AreKnown (insert k (rejoin cur old) pending) olds
            (insert-Entries P k (rejoin cur old) pending (Entries-lookup P k pending cur a e) a)
            b.1)
  ]

  pub nack-Kinds : (s : Sentinel) → Kinds others s → Kinds others (nack s)
  unfolding nack
  nack-Kinds s k = record {
    waiting =
        restore-AreKnown s.pending (sort_by earlier s.inflight) k.waiting
          (sort-AreKnown s.inflight k.flying);
    flying = tt;
  }
