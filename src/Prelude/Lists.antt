-- ===== src/Prelude/Lists.antt =====
-- Lists measured by native numbers, membership tests, filters by Boolean tests, and the sort that
-- `sort.Slice` and `sort.Strings` stand for: the sorted arrangement under a given `less`.
use Prim.Native.Nat.{ℕ, zero, suc, ◌+◌, ◌-◌, ◌≤◌}
use Prim.Native.String.{String}
use mathlib.Core.Path.{◌≡◌, refl, ap}
use mathlib.Core.Bool.{Bool, true, false, ◌||◌}
use mathlib.Core.List.{List, [], ◌∷◌, ◌++◌, Perm}
use mathlib.Core.List.Perm
use native.Mathlib.Omega.{arith}
use excubra.Prelude.Tests.{if◌then◌else◌, str_eq, Bool-cases, ltb}
use mathlib.Core.Logic.{inl, inr}

-- Every element, as a predicate that computes to a tuple.
abbrev pub All {ℓ κ} : {A : Type ℓ} → (A → Type κ) → List A → Type κ
All P [] = Unit
All P (x ∷ xs) = P x × All P xs

module _ {ℓ} {A : Type ℓ} where
  abbrev pub length : List A → ℕ
  length [] = 0
  length (x ∷ xs) = suc (length xs)

  pub length-append : (xs ys : List A) → length (xs ++ ys) ≡ length xs + length ys
  length-append [] ys = omega arith
  length-append (x ∷ xs) ys = omega (arith, length-append xs ys)

  abbrev pub take : ℕ → List A → List A
  take zero xs = []
  take (suc n) [] = []
  take (suc n) (x ∷ xs) = x ∷ take n xs

  abbrev pub drop : ℕ → List A → List A
  drop zero xs = xs
  drop (suc n) [] = []
  drop (suc n) (x ∷ xs) = drop n xs

  pub take-drop : (n : ℕ) (xs : List A) → take n xs ++ drop n xs ≡ xs
  take-drop zero xs = refl
  take-drop (suc n) [] = refl
  take-drop (suc n) (x ∷ xs) = ap (λ ys. x ∷ ys) (take-drop n xs)

  pub take_all : (n : ℕ) (xs : List A) → length xs ≤ n → take n xs ≡ xs
  take_all zero [] le = refl
  take_all zero (x ∷ xs) le = absurd (omega arith)
  take_all (suc n) [] le = refl
  take_all (suc n) (x ∷ xs) le = ap (λ ys. x ∷ ys) (take_all n xs (omega (arith, le)))

  pub drop_all : (n : ℕ) (xs : List A) → length xs ≤ n → drop n xs ≡ []
  drop_all zero [] le = refl
  drop_all zero (x ∷ xs) le = absurd (omega arith)
  drop_all (suc n) [] le = refl
  drop_all (suc n) (x ∷ xs) le = drop_all n xs (omega (arith, le))

  pub length-drop : (n : ℕ) (xs : List A) → length (drop n xs) ≡ length xs - n
  length-drop zero xs = omega arith
  length-drop (suc n) [] = omega arith
  length-drop (suc n) (x ∷ xs) = omega (arith, length-drop n xs)

  pub length-take_le : (n : ℕ) (xs : List A) → length (take n xs) ≤ n
  length-take_le zero xs = omega arith
  length-take_le (suc n) [] = omega arith
  length-take_le (suc n) (x ∷ xs) = omega (arith, length-take_le n xs)

  pub length-take : (n : ℕ) (xs : List A) → n ≤ length xs → length (take n xs) ≡ n
  length-take zero xs le = refl
  length-take (suc n) [] le = absurd (omega (arith, le))
  length-take (suc n) (x ∷ xs) le = ap suc (length-take n xs (omega (arith, le)))

  pub length_zero : (xs : List A) → length xs ≡ 0 → xs ≡ []
  length_zero [] e = refl
  length_zero (x ∷ xs) e = absurd (omega (arith, e))

  pub append_assoc : (xs ys zs : List A) → (xs ++ ys) ++ zs ≡ xs ++ (ys ++ zs)
  append_assoc [] ys zs = refl
  append_assoc (x ∷ xs) ys zs = ap (λ l. x ∷ l) (append_assoc xs ys zs)

  pub append_nil : (xs : List A) → xs ++ [] ≡ xs
  append_nil [] = refl
  append_nil (x ∷ xs) = ap (λ l. x ∷ l) (append_nil xs)

  -- The elements that pass a test, in order.
  abbrev pub select : (A → Bool) → List A → List A
  select p [] = []
  select p (x ∷ xs) = let rest = select p xs in if p x then x ∷ rest else rest

  -- One step of the insertion sort.
  abbrev pub place : (A → A → Bool) → A → List A → List A
  place less x [] = x ∷ []
  place less x (y ∷ ys) = let rest = place less x ys in if less y x then y ∷ rest else x ∷ y ∷ ys

  abbrev pub sort_by : (A → A → Bool) → List A → List A
  sort_by less [] = []
  sort_by less (x ∷ xs) = place less x (sort_by less xs)

  pub place-perm : (less : A → A → Bool) (x : A) (ys : List A) → Perm (place less x ys) (x ∷ ys)
  place-perm less x [] = Perm.refl _
  place-perm less x (y ∷ ys) = elim (Bool-cases (less y x)) [
    | inl e ↦ rw e (Perm.trans (Perm.cons y (place-perm less x ys)) (Perm.swap x y ys))
    | inr e ↦ rw e (Perm.refl _)
  ]

  pub sort_by-perm : (less : A → A → Bool) (xs : List A) → Perm (sort_by less xs) xs
  sort_by-perm less [] = Perm.refl _
  sort_by-perm less (x ∷ xs) =
      Perm.trans (place-perm less x (sort_by less xs)) (Perm.cons x (sort_by-perm less xs))

  length-place :
      (less : A → A → Bool) (x : A) (ys : List A) → length (place less x ys) ≡ suc (length ys)
  length-place less x [] = refl
  length-place less x (y ∷ ys) = elim (Bool-cases (less y x)) [
    | inl e ↦ rw e (ap suc (length-place less x ys))
    | inr e ↦ rw e refl
  ]

  pub length-sort_by : (less : A → A → Bool) (xs : List A) → length (sort_by less xs) ≡ length xs
  length-sort_by less [] = refl
  length-sort_by less (x ∷ xs) = rw length-place (ap suc (length-sort_by less xs))

-- Sets of texts as lists without repetition.
abbrev pub contains : String → List String → Bool
contains s [] = false
contains s (x ∷ xs) = str_eq x s || contains s xs

abbrev pub add : String → List String → List String
add s xs = if contains s xs then xs else s ∷ xs

module _ {ℓ κ} {A : Type ℓ} (P : A → Type κ) (less : A → A → Bool) where
  pub place-All : (x : A) (ys : List A) → P x → All P ys → All P (place less x ys)
  place-All x [] p a = (p, tt)
  place-All x (y ∷ ys) p a = elim (Bool-cases (less y x)) [
    | inl e ↦ rw e (a.0, place-All x ys p a.1)
    | inr e ↦ rw e (p, a)
  ]

  pub sort_by-All : (xs : List A) → All P xs → All P (sort_by less xs)
  sort_by-All [] a = tt
  sort_by-All (x ∷ xs) a = place-All x (sort_by less xs) a.0 (sort_by-All xs a.1)

pub All-last {ℓ κ} :
    {A : Type ℓ} (P : A → Type κ) (xs : List A) (y : A) → All P xs → P y → All P (xs ++ (y ∷ []))
All-last P [] y a p = (p, tt)
All-last P (x ∷ xs) y a p = (a.0, All-last P xs y a.1 p)

pub All-imp {ℓ κ μ} :
    {A : Type ℓ} (P : A → Type κ) (Q : A → Type μ) (xs : List A)
    → ((x : A) → P x → Q x)
    → All P xs
    → All Q xs
All-imp P Q [] f a = tt
All-imp P Q (x ∷ xs) f a = (f x a.0, All-imp P Q xs f a.1)

-- A list in which no key is below an earlier one.
abbrev pub Rising {ℓ} : {A : Type ℓ} → (A → ℕ) → List A → Type 0
Rising key [] = Unit
Rising key (x ∷ xs) = All (λ y. key x ≤ key y) xs × Rising key xs

module _ {ℓ} {A : Type ℓ} (key : A → ℕ) (less : A → A → Bool)
    (below : (a b : A) → less a b ≡ true → key a ≤ key b)
    (above : (a b : A) → less a b ≡ false → key b ≤ key a) where
  place-Rising : (x : A) (ys : List A) → Rising key ys → Rising key (place less x ys)
  place-Rising x [] r = (tt, tt)
  place-Rising x (y ∷ ys) r = elim (Bool-cases (less y x)) [
    | inl e ↦
        rw e (place-All (λ z. key y ≤ key z) less x ys (below y x e) r.0, place-Rising x ys r.1)
    | inr e ↦
        let le = above y x e in
        rw e (
          (
            le,
            All-imp (λ z. key y ≤ key z) (λ z. key x ≤ key z) ys (λ z h. omega (arith, le, h)) r.0,
          ),
          r,
        )
  ]

  -- Sorting by an order that goes first by a number gives a rising list.
  pub ordered-Rising : (xs : List A) → Rising key (sort_by less xs)
  ordered-Rising [] = tt
  ordered-Rising (x ∷ xs) = place-Rising x _ (ordered-Rising xs)

pub sort_by-Rising {ℓ} :
    {A : Type ℓ} (key : A → ℕ) (xs : List A) → Rising key (sort_by (λ a b. ltb (key a) (key b)) xs)
sort_by-Rising key =
    ordered-Rising key (λ a b. ltb (key a) (key b)) (λ a b e. ground arith) (λ a b e. ground arith)
