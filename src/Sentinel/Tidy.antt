-- ===== src/Sentinel/Tidy.antt =====
-- The order of the pending signals against the map that holds them.
use excubra.Prelude.{
  suc, ◌≤◌, ◌<◌, ◌≡◌, refl, sym, ap, ◌∙◌, ◌⊎◌, inl, inr, String, Bool, true, false, not, ◌&&◌, ◌||◌,
  none, some, List, [], ◌∷◌, ◌++◌, arith, eq_iff, eq_refl, leb, str_eq, length, contains, Once,
  Bool-cases, Option-cases,
}
use excubra.GoMap.{Map, lookup, insert, erase, lookup-insert, lookup-erase}
use excubra.GoMap.Named.{is_some}
use excubra.GoTime.{Time}
use excubra.Wire.{Signal}
use excubra.Sentinel.Types.{Sentinel, max_pending}
use excubra.Sentinel.Pending.{merge, dated, signal_key, evict, file, redetail}

-- The keys in the order are those of the map.
abbrev pub Agrees : Map Signal → List String → Type 0
Agrees pending order = (k : String) → contains k order ≡ is_some (lookup k pending)

pub record Tidy (s : Sentinel) : Type 0 where
  pub once : Once s.order
  pub agrees : Agrees s.pending s.order

pub contains-append :
    (k : String) (xs ys : List String) → contains k (xs ++ ys) ≡ (contains k xs || contains k ys)
contains-append k [] ys = refl
contains-append k (x ∷ xs) ys = ground (arith, contains-append k xs ys)

pub is_some-insert :
    (k j : String) (sg : Signal) (m : Map Signal)
    → is_some (lookup j (insert k sg m)) ≡ (str_eq k j || is_some (lookup j m))
is_some-insert k j sg m =
    rw (lookup-insert k j sg m) (elim (Bool-cases (str_eq k j)) [ inl t ↦ rw t | inr t ↦ rw t ])

is_some-erase :
    (k j : String) (m : Map Signal)
    → is_some (lookup j (erase k m)) ≡ (not (str_eq k j) && is_some (lookup j m))
is_some-erase k j m =
    rw (lookup-erase k j m) (elim (Bool-cases (str_eq k j)) [ inl t ↦ rw t | inr t ↦ rw t ])

same_contains :
    (k j : String) (ks : List String) → str_eq k j ≡ true → contains j ks ≡ contains k ks
same_contains k j ks hit = ap (λ (i : String). contains i ks) (sym ((eq_iff k j).0 hit))

pub same_lookup :
    (k j : String) (m : Map Signal)
    → str_eq k j ≡ true
    → is_some (lookup j m) ≡ is_some (lookup k m)
same_lookup k j m hit = ap (λ (i : String). is_some (lookup i m)) (sym ((eq_iff k j).0 hit))

erase-Agrees :
    (pending : Map Signal) (k : String) (ks : List String)
    → contains k ks ≡ false
    → Agrees pending (k ∷ ks)
    → Agrees (erase k pending) ks
erase-Agrees pending k ks once a j =
    ground (arith, is_some-erase k j pending, same_contains k j ks, a j, once)

-- A map whose every key is absent is empty.
pub no_entry : (pending : Map Signal) → Agrees pending [] → length pending ≡ 0
no_entry [] a = refl
no_entry ((k, sg) ∷ pending) a = ground (arith, a k, eq_refl k)

record Evicted (pending pending' : Map Signal) (order' : List String) : Type 0 where
  pub once : Once order'
  pub agrees : Agrees pending' order'
  pub room : length pending' < max_pending
  pub absent : (k : String) → lookup k pending ≡ none → lookup k pending' ≡ none

evict-Evicted :
    (pending : Map Signal) (order : List String)
    → Once order
    → Agrees pending order
    → Evicted pending (evict pending order).0 (evict pending order).1
unfolding evict
evict-Evicted pending [] o a = record {
  once = tt;
  agrees = a;
  room = omega (arith, no_entry pending a);
  absent = λ k e. e;
}
evict-Evicted pending (k ∷ ks) o a = elim (Bool-cases (leb max_pending (length pending))) [
  | inr fits ↦
      rw (fits, evict) (record { once = o; agrees = a; room = ground arith; absent = λ j e. e })
  | inl full ↦
      let rest = evict-Evicted (erase k pending) ks o.1 (erase-Agrees pending k ks o.0 a) in
      rw (full, evict)
        (record {
          once = rest.once;
          agrees = rest.agrees;
          room = rest.room;
          absent = λ j e. rest.absent j (
              lookup-erase k j pending
              ∙ elim (Bool-cases (str_eq k j)) [ inl hit ↦ rw hit | inr miss ↦ rw miss e ]);
        })
]

Once-snoc :
    (xs : List String) (k : String) → Once xs → contains k xs ≡ false → Once (xs ++ (k ∷ []))
Once-snoc [] k o c = (refl, tt)
Once-snoc (x ∷ xs) k o c = (
  contains-append x xs (k ∷ []) ∙ ground (arith, eq_iff x k, eq_iff k x, o.0),
  Once-snoc xs k o.1 (ground arith),
)

-- Writing under a key that is there.
pub rewrite-Agrees :
    (pending : Map Signal) (order : List String) (k : String) (old sg : Signal)
    → lookup k pending ≡ some old
    → Agrees pending order
    → Agrees (insert k sg pending) order
rewrite-Agrees pending order k old sg e a j =
    ground (arith, is_some-insert k j sg pending, same_lookup k j pending, ap is_some e, a j)

length-rewrite :
    (pending : Map Signal) (k : String) (old sg : Signal)
    → lookup k pending ≡ some old
    → length (insert k sg pending) ≡ length pending
length-rewrite [] k old sg e = cc
length-rewrite ((j, x) ∷ pending) k old sg e = elim (Bool-cases (str_eq j k)) [
  | inl hit ↦ rw hit
  | inr miss ↦ rw (miss, length-rewrite pending k old sg (rw miss at e))
]

length-insert :
    (pending : Map Signal) (k : String) (sg : Signal)
    → length (insert k sg pending) ≤ suc (length pending)
length-insert [] k sg = omega arith
length-insert ((j, x) ∷ pending) k sg = ground (arith, length-insert pending k sg)

append-Agrees :
    (pending : Map Signal) (order : List String) (k : String) (sg : Signal)
    → Agrees pending order
    → Agrees (insert k sg pending) (order ++ (k ∷ []))
append-Agrees pending order k sg a j =
    ground (arith, contains-append j order (k ∷ []), is_some-insert k j sg pending, a j)

-- If the order lists the signals that wait once each, it does so after another one is filed. There are at most as many
-- as a heartbeat takes, or else as many as before.
pub file_bounded :
    (s : Sentinel) (sg : Signal) (accumulate : Bool) (now : Time)
    → Tidy s
    → Tidy (file s sg accumulate now)
      × ((length (file s sg accumulate now).pending ≤ max_pending)
          ⊎ (length (file s sg accumulate now).pending ≡ length s.pending))
unfolding file
file_bounded s sg accumulate now t = elim (Option-cases (lookup (signal_key sg) s.pending)) [
  | inr (cur, e) ↦
      rw (e, file)
        (
          record {
            once = t.once;
            agrees =
                rewrite-Agrees s.pending s.order (signal_key sg) cur (merge cur sg accumulate now) e
                  t.agrees;
          },
          inr (length-rewrite s.pending (signal_key sg) cur (merge cur sg accumulate now) e),
        )
  | inl e ↦
      let left = evict s.pending s.order in
      let f = evict-Evicted s.pending s.order t.once t.agrees in
      rw (e, file)
        (
          record {
            once =
                Once-snoc left.1 (signal_key sg) f.once
                  (f.agrees (signal_key sg) ∙ rw (f.absent (signal_key sg) e));
            agrees = append-Agrees left.0 left.1 (signal_key sg) (dated sg now) f.agrees;
          },
          inl (omega (arith, length-insert left.0 (signal_key sg) (dated sg now), f.room)),
        )
]

pub redetail-Tidy : (s : Sentinel) (key detail : String) → Tidy s → Tidy (redetail s key detail)
unfolding redetail
redetail-Tidy s key detail t = elim (Option-cases (lookup key s.pending)) [
  | inl e ↦ rw (e, redetail) t
  | inr (cur, e) ↦
      rw (e, redetail)
        (record {
          once = t.once;
          agrees =
              rewrite-Agrees s.pending s.order key cur (record cur { detail = detail }) e t.agrees;
        })
]
