-- ===== src/Prelude/Sets.antt =====
-- Lists of named values: which names stand in them, and that none stands twice.
use mathlib.Core.Path.{◌≡◌, refl, ◌∙◌}
use mathlib.Core.Bool.{Bool, false, ◌||◌}
use mathlib.Core.List.{List, [], ◌∷◌, map}
use native.Mathlib.Omega.{arith}
use text.Mathlib.TextEquality.{eq_iff}
use Prim.Native.String.{String}
use excubra.Prelude.Tests.{str_eq}
use excubra.Prelude.Lists.{contains, place, sort_by}

-- No name occurs twice.
abbrev pub Once : List String → Type 0
Once [] = Unit {0}
Once (id ∷ ids) = (contains id ids ≡ false) × Once ids

module _ {ℓ} {A : Type ℓ} (name : A → String) (less : A → A → Bool) where
  contains-place :
      (j : String) (x : A) (ys : List A)
      → contains j (map name (place less x ys)) ≡ (str_eq (name x) j || contains j (map name ys))
  contains-place j x [] = refl
  contains-place j x (y ∷ ys) = ground (arith, contains-place j x ys)

  pub contains-sort :
      (j : String) (xs : List A)
      → contains j (map name (sort_by less xs)) ≡ contains j (map name xs)
  contains-sort j [] = refl
  contains-sort j (x ∷ xs) =
      ground (arith, contains-place j x (sort_by less xs), contains-sort j xs)

  Once-place :
      (x : A) (ys : List A)
      → contains (name x) (map name ys) ≡ false
      → Once (map name ys)
      → Once (map name (place less x ys))
  Once-place x [] c o = (refl, tt)
  Once-place x (y ∷ ys) c o = ground (
    arith,
    Once-place x ys (ground arith) o.1,
    contains-place (name y) x ys,
    eq_iff (name x) (name y),
    eq_iff (name y) (name x),
  )

  pub Once-sort : (xs : List A) → Once (map name xs) → Once (map name (sort_by less xs))
  Once-sort [] o = tt
  Once-sort (x ∷ xs) o =
      Once-place x (sort_by less xs) (contains-sort (name x) xs ∙ o.0) (Once-sort xs o.1)
