-- ===== src/Agent/Buffer.antt =====
-- The buffer of rounds over a heartbeat that fails.
use excubra.Prelude.{
  ℕ, zero, suc, ◌+◌, ◌-◌, ◌≤◌, ◌≡◌, inl, inr, refl, sym, ap, ◌∙◌, String, false, Option, none, some,
  List, [], ◌∷◌, ◌++◌, map, arith, eq_iff, eq_refl, str_eq, ltb, if◌then◌else◌, length,
  length-append, length-drop, drop, append_assoc, append_nil, contains, Once, All, sort_by,
  sort_by-All, contains-sort, Once-sort, Bool-cases, Option-cases, subst,
}
use excubra.GoMap.{Map, lookup, lookup-insert, Fresh, Unique, Entries, lookup-Fresh}
use excubra.GoMap.Named.{is_some}
use excubra.Wire.{Round, HostReport}
use excubra.Agent.Rounds.{
  Buffer, max_rounds_per_host, rounds_of, keep_newest, add_round, reports_of, id_earlier,
  take_rounds, put_rounds,
}
use excubra.Agent.Heartbeat.{add_rounds}

-- The last ten.
abbrev pub last_ten : List Round → List Round
last_ten rs = drop (length rs - max_rounds_per_host) rs

last_ten_short : (rs : List Round) → length rs ≤ max_rounds_per_host → last_ten rs ≡ rs
last_ten_short rs le =
    let none_over : length rs - max_rounds_per_host ≡ 0 = omega (arith, le) in rw none_over refl

last_ten-short : (rs : List Round) → length (last_ten rs) ≤ max_rounds_per_host
last_ten-short rs = omega (arith, length-drop (length rs - max_rounds_per_host) rs)

drop-append : (k : ℕ) (xs ys : List Round) → k ≤ length xs → drop k (xs ++ ys) ≡ drop k xs ++ ys
drop-append zero xs ys le = refl
drop-append (suc k) [] ys le = absurd (omega (arith, le))
drop-append (suc k) (x ∷ xs) ys le = drop-append k xs ys (omega (arith, le))

drop-nil : (j : ℕ) → drop {A = Round} j [] ≡ []
drop-nil zero = refl
drop-nil (suc j) = refl

drop-drop : (j k i : ℕ) (xs : List Round) → k + j ≡ i → drop j (drop k xs) ≡ drop i xs
drop-drop j zero i xs e = let same : j ≡ i = omega (arith, e) in rw same refl
drop-drop j (suc k) i [] e = drop-nil j ∙ sym (drop-nil i)
drop-drop j (suc k) zero (x ∷ xs) e = absurd (omega (arith, e))
drop-drop j (suc k) (suc i) (x ∷ xs) e = drop-drop j k i xs (omega (arith, e))

-- Cutting down what is in front first changes nothing.
last_ten-front : (xs ys : List Round) → last_ten (last_ten xs ++ ys) ≡ last_ten (xs ++ ys)
last_ten-front xs ys =
    let k = length xs - max_rounds_per_host in
    let size = length-append xs ys in
    ap last_ten (sym (drop-append k xs ys (omega arith)))
    ∙ drop-drop (length (drop k (xs ++ ys)) - max_rounds_per_host) k
        (length (xs ++ ys) - max_rounds_per_host) (xs ++ ys)
        (omega (arith, length-drop k (xs ++ ys), size))

-- What stands under a key after one host is cut down to its newest rounds.
keep_newest-rounds :
    (host k : String) (rs : List Round) (b : Buffer)
    → rounds_of k (keep_newest host rs b).rounds
      ≡ (if str_eq host k then last_ten rs else rounds_of k b.rounds)
unfolding keep_newest
keep_newest-rounds host k rs b = elim (Bool-cases (ltb max_rounds_per_host (length rs))) [
  | inl many ↦ rw many (
      ap (λ (o : Option (List Round)). elim o [ none ↦ [] | some l ↦ l ])
        (lookup-insert host k (last_ten rs) b.rounds)
      ∙ elim (Bool-cases (str_eq host k)) [ inl e ↦ rw e refl | inr e ↦ rw e refl ])
  | inr few ↦
      let short = last_ten_short rs (ground arith) in
      rw few (
        ap (λ (o : Option (List Round)). elim o [ none ↦ [] | some l ↦ l ])
          (lookup-insert host k rs b.rounds)
        ∙ elim (Bool-cases (str_eq host k)) [ inl e ↦ rw (e, short) refl | inr e ↦ rw e refl ])
]

-- The rounds of a host that come in, in order.
abbrev pub rounds_for : String → List (String × Round) → List Round
rounds_for k [] = []
rounds_for k ((host, r) ∷ xs) =
    let rest = rounds_for k xs in if str_eq host k then r ∷ rest else rest

-- No host has more rounds than are kept.
abbrev pub Bounded : Map (List Round) → Type 0
Bounded = Entries (λ k rs. length rs ≤ max_rounds_per_host)

add_rounds-rounds :
    (k : String) (xs : List (String × Round)) (b : Buffer)
    → length (rounds_of k b.rounds) ≤ max_rounds_per_host
    → rounds_of k (add_rounds b xs).rounds ≡ last_ten (rounds_of k b.rounds ++ rounds_for k xs)
unfolding add_round
add_rounds-rounds k [] b le =
    sym (ap last_ten (append_nil (rounds_of k b.rounds)) ∙ last_ten_short (rounds_of k b.rounds) le)
add_rounds-rounds k ((host, r) ∷ xs) b le =
    let grown = rounds_of host b.rounds ++ (r ∷ []) in
    let here = keep_newest-rounds host k grown b in
    elim (Bool-cases (str_eq host k)) [
      | inr miss ↦
          let same = here ∙ rw miss refl in
          add_rounds-rounds k xs (add_round b host r) (rw same le) ∙ rw (same, miss) refl
      | inl hit ↦
          let name = (eq_iff host k).0 hit in
          let same : rounds_of k (add_round b host r).rounds
              ≡ last_ten (rounds_of k b.rounds ++ (r ∷ [])) =
            here ∙ rw (hit, name) refl in
          add_rounds-rounds k xs (add_round b host r) (
            subst (λ l. length l ≤ max_rounds_per_host) (sym same)
              (last_ten-short (rounds_of k b.rounds ++ (r ∷ []))))
          ∙ ap (λ l. last_ten (l ++ rounds_for k xs)) same
          ∙ last_ten-front (rounds_of k b.rounds ++ (r ∷ [])) (rounds_for k xs)
          ∙ rw hit (ap last_ten (append_assoc (rounds_of k b.rounds) (r ∷ []) (rounds_for k xs)))
    ]

drop-front : (xs ys : List Round) (j i : ℕ) → length xs + j ≡ i → drop i (xs ++ ys) ≡ drop j ys
drop-front [] ys j i e = let same : j ≡ i = omega (arith, e) in rw same refl
drop-front (x ∷ xs) ys j zero e = absurd (omega (arith, e))
drop-front (x ∷ xs) ys j (suc i) e = drop-front xs ys j i (omega (arith, e))

-- Cutting down what is behind first changes nothing either.
last_ten-back : (xs ys : List Round) → last_ten (xs ++ last_ten ys) ≡ last_ten (xs ++ ys)
last_ten-back xs ys = elim (Bool-cases (ltb max_rounds_per_host (length ys))) [
  | inr few ↦ ap (λ l. last_ten (xs ++ l)) (last_ten_short ys (ground arith))
  | inl many ↦
      let cut = length-drop (length ys - max_rounds_per_host) ys in
      drop-front xs (last_ten ys) 0 (length (xs ++ last_ten ys) - max_rounds_per_host)
        (ground (arith, cut, length-append xs (last_ten ys)))
      ∙ sym (
          drop-front xs ys (length ys - max_rounds_per_host)
            (length (xs ++ ys) - max_rounds_per_host) (ground (arith, length-append xs ys)))
]

abbrev pub report_id : HostReport → String
report_id rep = rep.host_id

-- A report has the rounds that stand under its host.
abbrev Holds : Map (List Round) → HostReport → Type 0
Holds m rep = lookup rep.host_id m ≡ some rep.rounds

reports-contains :
    (k : String) (m : Map (List Round))
    → contains k (map report_id (reports_of m)) ≡ is_some (lookup k m)
reports-contains k [] = refl
reports-contains k ((j, rs) ∷ m) = ground (arith, reports-contains k m)

reports-Once : (m : Map (List Round)) → Unique m → Once (map report_id (reports_of m))
reports-Once [] u = tt
reports-Once ((j, rs) ∷ m) u =
    (reports-contains j m ∙ ap is_some (lookup-Fresh j m u.0), reports-Once m u.1)

Holds-further :
    (k : String) (rs : List Round) (m : Map (List Round)) (reps : List HostReport)
    → Fresh k m
    → All (Holds m) reps
    → All (Holds ((k, rs) ∷ m)) reps
Holds-further k rs m [] f a = tt
Holds-further k rs m (rep ∷ reps) f a = (
  elim (Bool-cases (str_eq k rep.host_id)) [
    | inr miss ↦ rw miss a.0
    | inl hit ↦ cc (
        sym (lookup-Fresh k m f)
        ∙ ap (λ (i : String). lookup i m) ((eq_iff k rep.host_id).0 hit)
        ∙ a.0)
  ],
  Holds-further k rs m reps f a.1,
)

reports-Holds : (m : Map (List Round)) → Unique m → All (Holds m) (reports_of m)
reports-Holds [] u = tt
reports-Holds ((k, rs) ∷ m) u =
    (rw (eq_refl k) refl, Holds-further k rs m (reports_of m) u.0 (reports-Holds m u.1))

put_rounds-rounds :
    (k : String) (m : Map (List Round)) (reps : List HostReport) (b : Buffer)
    → Once (map report_id reps)
    → All (Holds m) reps
    → rounds_of k (put_rounds b reps).rounds ≡ (
        if contains k (map report_id reps)
        then last_ten (rounds_of k m ++ rounds_of k b.rounds)
        else rounds_of k b.rounds)
unfolding put_rounds
put_rounds-rounds k m [] b o a = refl
put_rounds-rounds k m (rep ∷ reps) b o a =
    let merged = rep.rounds ++ rounds_of rep.host_id b.rounds in
    let b1 = keep_newest rep.host_id merged b in
    let here = keep_newest-rounds rep.host_id k merged b in
    let later = put_rounds-rounds k m reps b1 o.1 a.1 in
    elim (Bool-cases (str_eq rep.host_id k)) [
      | inr miss ↦
          let missed : rounds_of k b1.rounds ≡ rounds_of k b.rounds = here ∙ rw miss refl in
          later ∙ rw (missed, miss) refl
      | inl hit ↦
          let name = (eq_iff rep.host_id k).0 hit in
          let gone : contains k (map report_id reps) ≡ false = rw (← name) o.0 in
          let stored : rounds_of k m ≡ rep.rounds =
            ap (λ (i : String). rounds_of i m) (sym name)
            ∙ ap (λ (x : Option (List Round)). elim x [ none ↦ [] | some l ↦ l ]) a.0 in
          later ∙ rw (gone, hit) (here ∙ rw (hit, stored, name) refl)
    ]

-- A heartbeat that fails is, for the rounds that a host has in the buffer, as if it had not been tried: what was taken
-- is put back before the rounds that came in meanwhile, and the newest ten of all are kept. The
-- hosts of the buffer have ten rounds at most.
pub put_rounds-take :
    (b : Buffer) (xs : List (String × Round)) (k : String)
    → Unique b.rounds
    → length (rounds_of k b.rounds) ≤ max_rounds_per_host
    → rounds_of k (put_rounds (add_rounds (take_rounds b).1 xs) (take_rounds b).0).rounds
      ≡ rounds_of k (add_rounds b xs).rounds
unfolding take_rounds
put_rounds-take b xs k u le =
    let reps = reports_of b.rounds in
    let empty : Buffer = record b { rounds = [] } in
    let came : rounds_of k (add_rounds empty xs).rounds ≡ last_ten (rounds_for k xs) =
      add_rounds-rounds k xs empty (omega arith) in
    let back =
      put_rounds-rounds k b.rounds (sort_by id_earlier reps) (add_rounds empty xs)
        (Once-sort report_id id_earlier reps (reports-Once b.rounds u))
        (sort_by-All (Holds b.rounds) id_earlier reps (reports-Holds b.rounds u)) in
    let which = contains-sort report_id id_earlier k reps ∙ reports-contains k b.rounds in
    back
    ∙ rw (which, came, add_rounds-rounds k xs b le)
        (elim (Option-cases (lookup k b.rounds)) [
          | inl none_stored ↦
              let gone : rounds_of k b.rounds ≡ [] = rw (none_stored, rounds_of) refl in
              rw none_stored (sym (ap (λ l. last_ten (l ++ rounds_for k xs)) gone))
          | inr (rs, stored) ↦ rw stored (last_ten-back (rounds_of k b.rounds) (rounds_for k xs))
        ])
