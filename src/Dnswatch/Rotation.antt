-- ===== src/Dnswatch/Rotation.antt =====
-- The order in which `forward` asks the upstreams.
use native.Mathlib.Nat.{mod-lt, mod-eq_of_lt, add-mod_left}
use excubra.Prelude.{
  ℕ, zero, suc, ◌+◌, ◌-◌, ◌%◌, ◌≤◌, ◌<◌, ◌≡◌, inl, inr, refl, sym, ap, ◌∙◌, String, false, Option,
  none, some, List, [], ◌∷◌, ◌++◌, arith, ◌==◌, length, take, drop, drop_all, Option-cases,
}
use excubra.Netip.{Netip}
use excubra.Dnswatch.Watch.{Watch}
use excubra.Dnswatch.Forward.{Reply, upstream_at, try_upstreams, forward}

-- The first of the upstreams that answers, in the order of the list.
abbrev pub first_answer : (String → Option (List ℕ)) → List String → Option (List ℕ × String)
first_answer ask [] = none
first_answer ask (u ∷ us) =
    let later = first_answer ask us in elim (ask u) [ none ↦ later | some r ↦ some (r, u) ]

abbrev pub answered : Option Reply → Option (List ℕ × String)
answered none = none
answered (some r) = some (r.answer, r.upstream)

-- So many upstreams from a place on, round the list.
places : List String → ℕ → ℕ → List String
places ups p zero = []
places ups p (suc left) = upstream_at ups (p % length ups) ∷ places ups (suc p) left

try_upstreams-places :
    (ask : String → Option (List ℕ)) (ups : List String) (start i p left : ℕ)
    → start + i ≡ p
    → answered (try_upstreams ask ups start i left) ≡ first_answer ask (places ups p left)
unfolding try_upstreams places
try_upstreams-places ask ups start i p zero e = refl
try_upstreams-places ask ups start i p (suc left) e =
    elim (Option-cases (ask (upstream_at ups ((start + i) % length ups)))) [
      | inl lost ↦
          rw (← e, lost, try_upstreams, first_answer)
            (try_upstreams-places ask ups start (i + 1) (suc p) left (omega (arith, e)))
      | inr (r, got) ↦
          rw (← e, got, try_upstreams, first_answer)
            (ap (λ q. some (r, upstream_at ups (q % length ups))) e)
    ]

drop-at :
    (ups : List String) (i : ℕ) → i < length ups → drop i ups ≡ upstream_at ups i ∷ drop (suc i) ups
drop-at [] i lt = absurd (omega (arith, lt))
drop-at (u ∷ us) zero lt = refl
drop-at (u ∷ us) (suc i) lt = drop-at us i (omega (arith, lt))

-- Behind the end of the list the places start again.
places_wrapped :
    (ups : List String) (p j left : ℕ)
    → p ≡ length ups + j
    → j + left ≤ length ups
    → places ups p left ≡ take left (drop j ups)
unfolding places
places_wrapped ups p j zero e le = refl
places_wrapped ups p j (suc left) e le =
    let within : j < length ups = omega (arith, le) in
    let here : p % length ups ≡ j =
      ap (λ q. q % length ups) e ∙ add-mod_left (length ups) j ∙ mod-eq_of_lt within in
    rw (here, drop-at ups j within)
      (ap (λ l. upstream_at ups j ∷ l)
        (places_wrapped ups (suc p) (suc j) left (omega (arith, e)) (omega (arith, le))))

places_rotated :
    (ups : List String) (p m k left : ℕ)
    → p + m ≡ length ups
    → m + k ≡ left
    → k ≤ length ups
    → places ups p left ≡ drop p ups ++ take k ups
unfolding places
places_rotated ups p zero k left e f le =
    let all : drop p ups ≡ [] = drop_all p ups (omega (arith, e)) in
    let same : k ≡ left = omega (arith, f) in
    rw (all, ← same) (places_wrapped ups p 0 k (omega (arith, e)) (omega (arith, le)))
places_rotated ups p (suc m) k zero e f le = absurd (omega (arith, f))
places_rotated ups p (suc m) k (suc left) e f le =
    let within : p < length ups = omega (arith, e) in
    rw (mod-eq_of_lt within, drop-at ups p within)
      (ap (λ l. upstream_at ups p ∷ l)
        (places_rotated ups (suc p) m k left (omega (arith, e)) (omega (arith, f)) le))

nothing_left : (i : ℕ) → drop {A = String} i [] ++ take {A = String} i [] ≡ []
nothing_left zero = refl
nothing_left (suc i) = refl

-- `forward` gives the first answer among all upstreams, asked in the order of the list from the one that
-- answered last on and round to it, each once; it gives none exactly if no upstream answers.
pub forward_rotates :
    (n : Netip) (ask : String → Option (List ℕ)) (w : Watch n) (ups : List String)
    → let start = w.up_idx % length ups in
      answered (forward ask w ups) ≡ first_answer ask (drop start ups ++ take start ups)
unfolding forward
forward_rotates n ask w [] = sym (ap (first_answer ask) (nothing_left (w.up_idx % 0)))
forward_rotates n ask w (u ∷ us) =
    let ups : List String = u ∷ us in
    let start : ℕ = w.up_idx % length ups in
    let lt : start < length ups = mod-lt w.up_idx (omega arith) in
    let some_there : (length ups == 0) ≡ false = ground arith in
    ap answered (rw (some_there, forward) refl)
    ∙ try_upstreams-places ask ups start 0 start (length ups) (omega arith)
    ∙ ap (first_answer ask) (
        places_rotated ups start (length ups - start) start (length ups) (omega (arith, lt))
          (omega (arith, lt)) (omega (arith, lt)))
