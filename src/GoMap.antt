-- ===== src/GoMap.antt =====
-- Go maps with text keys, as association lists: the order of the entries stands for the order in
-- which `range` meets them, which Go leaves open. An entry is written in place.
pub mod Named
use mathlib.Core.Option
use excubra.Prelude.{
  sym, subst, ℕ, zero, suc, ◌<◌, ◌≤◌, String, ◌≡◌, refl, ◌⊎◌, inl, inr, Bool, true, false, not,
  Option, none, some, List, [], ◌∷◌, arith, eq_iff, str_eq, if◌then◌else◌, All, Bool-cases,
}

abbrev pub Map {ℓ} : Type ℓ → Type ℓ
Map V = List (String × V)

module _ {ℓ} {V : Type ℓ} where
  abbrev pub lookup : String → Map V → Option V
  lookup k [] = none
  lookup k ((j, v) ∷ m) = if str_eq j k then some v else lookup k m

  abbrev pub insert : String → V → Map V → Map V
  insert k v [] = (k, v) ∷ []
  insert k v ((j, w) ∷ m) =
      let rest = insert k v m in if str_eq j k then (j, v) ∷ m else (j, w) ∷ rest

  abbrev pub erase : String → Map V → Map V
  erase k [] = []
  erase k ((j, w) ∷ m) = let rest = erase k m in if str_eq j k then rest else (j, w) ∷ rest

  abbrev pub values : Map V → List V
  values [] = []
  values ((j, v) ∷ m) = v ∷ values m

  -- `for k, v := range m { if drop(v) { delete(m, k) } }`
  abbrev pub erase_if : (V → Bool) → Map V → Map V
  erase_if drop [] = []
  erase_if drop ((j, v) ∷ m) = let rest = erase_if drop m in if drop v then rest else (j, v) ∷ rest

  -- `for _, v := range m { change(v) }`, where the values are pointers.
  abbrev pub map_values : (V → V) → Map V → Map V
  map_values f [] = []
  map_values f ((j, v) ∷ m) = (j, f v) ∷ map_values f m

module _ {ℓ} {V : Type ℓ} where
  pub lookup-insert :
      (k j : String) (v : V) (m : Map V)
      → lookup j (insert k v m) ≡ (if str_eq k j then some v else lookup j m)
  lookup-insert k j v [] = refl
  lookup-insert k j v ((i, w) ∷ m) =
      ground (arith, eq_iff k j, eq_iff i k, eq_iff i j, lookup-insert k j v m)

  pub lookup-erase :
      (k j : String) (m : Map V) → lookup j (erase k m) ≡ (if str_eq k j then none else lookup j m)
  lookup-erase k j [] = ground arith
  lookup-erase k j ((i, w) ∷ m) =
      ground (arith, eq_iff k j, eq_iff i k, eq_iff i j, lookup-erase k j m)

  pub lookup-map_values :
      (f : V → V) (j : String) (m : Map V) → lookup j (map_values f m) ≡ Option.map f (lookup j m)
  lookup-map_values f j [] = refl
  lookup-map_values f j ((i, w) ∷ m) = ground (arith, lookup-map_values f j m)

-- No key occurs twice.
abbrev pub Fresh {ℓ} : {V : Type ℓ} → String → Map V → Type 0
Fresh k [] = Unit
Fresh k ((j, v) ∷ m) = (str_eq j k ≡ false) × Fresh k m

abbrev pub Unique {ℓ} : {V : Type ℓ} → Map V → Type 0
Unique [] = Unit
Unique ((j, v) ∷ m) = Fresh j m × Unique m

module _ {ℓ} {V : Type ℓ} where
  Fresh-insert :
      (k j : String) (v : V) (m : Map V) → str_eq k j ≡ false → Fresh j m → Fresh j (insert k v m)
  Fresh-insert k j v [] h f = (h, tt)
  Fresh-insert k j v ((i, w) ∷ m) h f = ground (arith, Fresh-insert k j v m h f.1)

  pub insert-Unique : (k : String) (v : V) (m : Map V) → Unique m → Unique (insert k v m)
  insert-Unique k v [] u = (tt, tt)
  insert-Unique k v ((i, w) ∷ m) u =
      ground (arith, eq_iff i k, eq_iff k i, insert-Unique k v m u.1, Fresh-insert k i v m)

  Fresh-erase : (k j : String) (m : Map V) → Fresh j m → Fresh j (erase k m)
  Fresh-erase k j [] f = tt
  Fresh-erase k j ((i, w) ∷ m) f = ground (arith, Fresh-erase k j m f.1)

  pub erase-Unique : (k : String) (m : Map V) → Unique m → Unique (erase k m)
  erase-Unique k [] u = tt
  erase-Unique k ((i, w) ∷ m) u = ground (arith, erase-Unique k m u.1, Fresh-erase k i m u.0)

  Fresh-erase_if :
      (drop : V → Bool) (j : String) (m : Map V) → Fresh j m → Fresh j (erase_if drop m)
  Fresh-erase_if drop j [] f = tt
  Fresh-erase_if drop j ((i, w) ∷ m) f = ground (arith, Fresh-erase_if drop j m f.1)

  pub erase_if-Unique : (drop : V → Bool) (m : Map V) → Unique m → Unique (erase_if drop m)
  erase_if-Unique drop [] u = tt
  erase_if-Unique drop ((i, w) ∷ m) u =
      ground (arith, erase_if-Unique drop m u.1, Fresh-erase_if drop i m u.0)

  Fresh-map_values : (f : V → V) (j : String) (m : Map V) → Fresh j m → Fresh j (map_values f m)
  Fresh-map_values f j [] h = tt
  Fresh-map_values f j ((i, w) ∷ m) h = (h.0, Fresh-map_values f j m h.1)

  pub map_values-Unique : (f : V → V) (m : Map V) → Unique m → Unique (map_values f m)
  map_values-Unique f [] u = tt
  map_values-Unique f ((i, w) ∷ m) u = (Fresh-map_values f i m u.0, map_values-Unique f m u.1)

  -- A key that is fresh is not found.
  pub lookup-Fresh : (k : String) (m : Map V) → Fresh k m → lookup k m ≡ none
  lookup-Fresh k [] f = refl
  lookup-Fresh k ((i, w) ∷ m) f = rw f.0 (lookup-Fresh k m f.1)

-- A statement about every entry.
abbrev pub Entries {ℓ κ} : {V : Type ℓ} → (String → V → Type κ) → Map V → Type κ
Entries P [] = Unit
Entries P ((k, v) ∷ m) = P k v × Entries P m

module _ {ℓ κ} {V : Type ℓ} (P : String → V → Type κ) where
  pub Entries-lookup : (k : String) (m : Map V) (v : V) → Entries P m → lookup k m ≡ some v → P k v
  Entries-lookup k [] v e h = cc
  Entries-lookup k ((i, w) ∷ m) v e h = elim (Bool-cases (str_eq i k)) [
    | inl hit ↦
        let here : w ≡ v = cc (rw hit at h) in
        subst (λ x. P x v) ((eq_iff i k).0 hit) (subst (P i) here e.0)
    | inr miss ↦ Entries-lookup k m v e.1 (rw miss at h)
  ]

  pub insert-Entries :
      (k : String) (v : V) (m : Map V) → P k v → Entries P m → Entries P (insert k v m)
  insert-Entries k v [] p e = (p, tt)
  insert-Entries k v ((i, w) ∷ m) p e = elim (Bool-cases (str_eq i k)) [
    | inl hit ↦ rw hit (subst (λ x. P x v) (sym ((eq_iff i k).0 hit)) p, e.1)
    | inr miss ↦ rw miss (e.0, insert-Entries k v m p e.1)
  ]

  pub erase-Entries : (k : String) (m : Map V) → Entries P m → Entries P (erase k m)
  erase-Entries k [] e = tt
  erase-Entries k ((i, w) ∷ m) e = elim (Bool-cases (str_eq i k)) [
    | inl hit ↦ rw hit (erase-Entries k m e.1)
    | inr miss ↦ rw miss (e.0, erase-Entries k m e.1)
  ]

  pub erase_if-Entries : (drop : V → Bool) (m : Map V) → Entries P m → Entries P (erase_if drop m)
  erase_if-Entries drop [] e = tt
  erase_if-Entries drop ((i, w) ∷ m) e = elim (Bool-cases (drop w)) [
    | inl hit ↦ rw hit (erase_if-Entries drop m e.1)
    | inr miss ↦ rw miss (e.0, erase_if-Entries drop m e.1)
  ]

  pub map_values-Entries :
      (f : V → V) (m : Map V)
      → ((k : String) (v : V) → P k v → P k (f v))
      → Entries P m
      → Entries P (map_values f m)
  map_values-Entries f [] h e = tt
  map_values-Entries f ((i, w) ∷ m) h e = (h i w e.0, map_values-Entries f m h e.1)
