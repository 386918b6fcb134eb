-- ===== src/Sentinel/Delivery.antt =====
-- A batch from `Drain` to `Ack` or `Nack`.
use excubra.Prelude.{
  ◌≡◌, refl, sym, ap, ◌∙◌, inl, inr, String, false, ◌&&◌, ◌||◌, none, List, [], ◌∷◌, ◌++◌, arith,
  eq_iff, eq_refl, ltb, ◌==◌, if◌then◌else◌, length, contains, Once, sort_by, Bool-cases,
  Option-cases,
}
use excubra.GoMap.{Map, lookup, insert, Unique}
use excubra.GoMap.Named.{is_some}
use excubra.Wire.{Signal}
use excubra.Sentinel.Types.{Sentinel}
use excubra.Sentinel.Pending.{drain, earlier, rejoin, restore, nack}
use excubra.Sentinel.Tidy.{Agrees, Tidy, contains-append, rewrite-Agrees, is_some-insert}
use excubra.Sentinel.Batches.{joined, restored, collect-lookup, collect-Unique, collect-length}

Agrees-lookup :
    (pending : Map Signal) (order : List String) (k : String)
    → Agrees pending order
    → (if contains k order && is_some (lookup k pending) then lookup k pending else none)
      ≡ lookup k pending
Agrees-lookup pending order k a = elim (Option-cases (lookup k pending)) [
  | inl e ↦ rw e (elim (Bool-cases (contains k order)) [ inl t ↦ rw t | inr t ↦ rw t ])
  | inr (sg, e) ↦ rw (a k ∙ ap is_some e, e)
]

empty_order : (order : List String) → Agrees [] order → order ≡ []
empty_order [] a = refl
empty_order (k ∷ ks) a = ground (arith, a k, eq_refl k)

length_zero : (m : Map Signal) → length m ≡ 0 → m ≡ []
length_zero [] e = refl
length_zero ((k, sg) ∷ m) e = ground arith

-- With nothing in flight and a tidy order `Drain` hands over as many signals as there are in the order, and every
-- pending signal is in flight afterwards, none pending.
pub drain_hands_over :
    (s : Sentinel) (k : String)
    → Tidy s
    → s.inflight ≡ []
    → (lookup k (drain s).0.inflight ≡ lookup k s.pending)
      × (lookup k (drain s).0.pending ≡ none)
      × (length (drain s).1 ≡ length s.order)
unfolding drain
drain_hands_over s k t idle = elim (Bool-cases (length s.pending == 0)) [
  | inl none_waits ↦
      let empty : s.pending ≡ [] = length_zero s.pending (ground arith) in
      let order : s.order ≡ [] =
        empty_order s.order
          (λ j. t.agrees j ∙ ap (λ (m : Map Signal). is_some (lookup j m)) empty) in
      rw (none_waits, drain) (rw (empty, idle, order) (refl, refl, refl))
  | inr some_wait ↦
      rw (some_wait, idle, drain)
        (
          collect-lookup s.pending s.order [] k ∙ Agrees-lookup s.pending s.order k t.agrees,
          refl,
          collect-length s.pending s.order [] (λ j c. sym (t.agrees j) ∙ c),
        )
]

drain-Unique : (s : Sentinel) → Unique s.inflight → Unique (drain s).0.inflight
unfolding drain
drain-Unique s u = elim (Bool-cases (length s.pending == 0 || ltb 0 (length s.inflight))) [
  | inl t ↦ rw (t, drain) u
  | inr t ↦ rw (t, drain) (collect-Unique s.pending s.order s.inflight u)
]

-- With nothing in flight and a tidy order, a batch that fails is lost in no part: `Drain` and then
-- `Nack` leave under every key the signal that was pending there.
pub nack-drain :
    (s : Sentinel) (k : String)
    → Tidy s
    → s.inflight ≡ []
    → lookup k (nack (drain s).0).pending ≡ lookup k s.pending
unfolding joined
nack-drain s k t idle =
    let (sent, left, n) = drain_hands_over s k t idle in
    restored (drain s).0 k (drain-Unique s (rw idle tt)) ∙ rw (left, sent)

drain-Tidy : (s : Sentinel) → Tidy s → Tidy (drain s).0
unfolding drain
drain-Tidy s t = elim (Bool-cases (length s.pending == 0 || ltb 0 (length s.inflight))) [
  | inl e ↦ rw (e, drain) t
  | inr e ↦ rw (e, drain) (record { once = tt; agrees = λ k. refl })
]

-- Moving a key from the middle of a list to its head.
contains-middle :
    (k j : String) (xs ys : List String) → contains j (xs ++ (k ∷ ys)) ≡ contains j (k ∷ (xs ++ ys))
contains-middle k j xs ys = ground (arith, contains-append j xs (k ∷ ys), contains-append j xs ys)

Once-middle : (k : String) (xs ys : List String) → Once (xs ++ (k ∷ ys)) → Once (k ∷ (xs ++ ys))
Once-middle k [] ys o = o
Once-middle k (x ∷ xs) ys o =
    let rest = Once-middle k xs ys o.1 in
    let apart = sym (contains-middle k x xs ys) ∙ o.0 in
    (ground (arith, eq_iff x k, eq_iff k x, rest.0), (ground arith, rest.1))

record Restored (pending : Map Signal) (order : List String) : Type 0 where
  once : Once order
  agrees : Agrees pending order

restore-Restored :
    (pending olds : Map Signal) (order : List String)
    → Once order
    → Agrees pending order
    → Restored (restore pending olds).0 ((restore pending olds).1 ++ order)
unfolding restore
restore-Restored pending [] order o a = record { once = o; agrees = a }
restore-Restored pending ((j, old) ∷ olds) order o a = elim (Option-cases (lookup j pending)) [
  | inr (cur, e) ↦
      rw (e, restore)
        (restore-Restored (insert j (rejoin cur old) pending) olds order o
          (rewrite-Agrees pending order j cur (rejoin cur old) e a))
  | inl e ↦
      let new : contains j order ≡ false = a j ∙ ap is_some e in
      let rest =
        restore-Restored (insert j old pending) olds (j ∷ order) (new, o)
          (λ k. ground (arith, is_some-insert j k old pending, a k)) in
      rw (e, restore)
        (record {
          once = Once-middle j (restore (insert j old pending) olds).1 order rest.once;
          agrees = λ k.
              sym (contains-middle j k (restore (insert j old pending) olds).1 order)
              ∙ rest.agrees k;
        })
]

pub nack-Tidy : (s : Sentinel) → Tidy s → Tidy (nack s)
unfolding nack
nack-Tidy s t =
    let r = restore-Restored s.pending (sort_by earlier s.inflight) s.order t.once t.agrees in
    record { once = r.once; agrees = r.agrees }

pub drained :
    (s : Sentinel) → Tidy s → Unique s.inflight → Tidy (drain s).0 × Unique (drain s).0.inflight
drained s t u = (drain-Tidy s t, drain-Unique s u)
