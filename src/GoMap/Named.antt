-- ===== src/GoMap/Named.antt =====
-- The values of a map whose entries stand under their own names.
use excubra.Prelude.{
  ◌≡◌, refl, sym, ap, ◌∙◌, inl, inr, String, Bool, true, false, Option, none, some, List, [], ◌∷◌,
  map, arith, eq_iff, eq_refl, str_eq, contains, Once, All, Bool-cases,
}
use excubra.GoMap.{Map, lookup, values, Fresh, Unique, Entries, lookup-Fresh}

abbrev pub is_some {ℓ} : {A : Type ℓ} → Option A → Bool
is_some none = false
is_some (some a) = true

module _ {ℓ} {V : Type ℓ} (name : V → String) where
  abbrev pub Named : Map V → Type 0
  Named = Entries (λ k v. name v ≡ k)

  pub contains-values :
      (j : String) (m : Map V)
      → Unique m
      → Named m
      → contains j (map name (values m)) ≡ is_some (lookup j m)
  contains-values j [] u e = refl
  contains-values j ((k, v) ∷ m) u e =
      ground (arith, contains-values j m u.1 e.1, e.0, eq_iff (name v) j, eq_iff k j)

  pub Once-values : (m : Map V) → Unique m → Named m → Once (map name (values m))
  Once-values [] u e = tt
  Once-values ((k, v) ∷ m) u e = (
    contains-values (name v) m u.1 e.1
        ∙ ap (λ (i : String). is_some (lookup i m)) e.0
        ∙ ap is_some (lookup-Fresh k m u.0),
    Once-values m u.1 e.1,
  )

  -- A value is found under its name.
  abbrev pub Found : Map V → V → Type ℓ
  Found m v = lookup (name v) m ≡ some v

  Found-further :
      (k : String) (u : V) (m : Map V) (vs : List V)
      → Fresh k m
      → All (Found m) vs
      → All (Found ((k, u) ∷ m)) vs
  Found-further k u m [] f a = tt
  Found-further k u m (v ∷ vs) f a = (
    elim (Bool-cases (str_eq k (name v))) [
      | inr miss ↦ rw miss a.0
      | inl hit ↦ cc (
          sym (lookup-Fresh k m f)
          ∙ ap (λ (i : String). lookup i m) ((eq_iff k (name v)).0 hit)
          ∙ a.0)
    ],
    Found-further k u m vs f a.1,
  )

  pub values-Found : (m : Map V) → Unique m → Named m → All (Found m) (values m)
  values-Found [] u e = tt
  values-Found ((k, v) ∷ m) u e =
      (rw (e.0, eq_refl k), Found-further k v m (values m) u.0 (values-Found m u.1 e.1))
