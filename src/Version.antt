-- ===== src/Version.antt =====
-- internal/version/version.go: versions and the compatibility window.
use Prim.Native.String.{[] as empty, ◌∷◌ as ◌:>◌}
use Prim.Native.Char.{code}
use excubra.Prelude.{
  ℕ, ◌≡◌, ◌+◌, ◌-◌, ◌≤◌, ◌↔◌, String, Bool, true, false, ◌||◌, Option, none, some, List, [], ◌∷◌,
  ◌==◌, leb, ltb, arith, if◌then◌else◌, ◌>>=◌,
}
use excubra.GoText.{trim_space, split, natural}

abbrev pub window : ℕ
window = 2

pub record Semver : Type 0 where
  pub major : ℕ
  pub minor : ℕ
  pub patch : ℕ

abbrev pub trim_v : String → String
trim_v empty = ""
trim_v (c :> s) = if code c == 118 then s else c :> s

-- What stands before the first `-` or `+`.
abbrev pub release : String → String
release empty = ""
release (c :> s) = let rest = release s in if code c == 45 || code c == 43 then "" else c :> rest

-- A sign is cut off with the release, so a part is digits or an error.
unfoldable pub parse_parts : List String → Option Semver
parse_parts (a ∷ b ∷ c ∷ []) = do
  major ← natural a
  minor ← natural b
  patch ← natural c
  some (record { major = major; minor = minor; patch = patch })
parse_parts _ = none

unfoldable pub parse : String → Option Semver
parse s = parse_parts (split 46 (release (trim_v (trim_space s))))

-- The running build's version; one that does not parse is 0.0.0.
unfoldable pub current : String → Semver
current version = elim (parse version) [
  | none ↦ record { major = 0; minor = 0; patch = 0 }
  | some v ↦ v
]

-- The difference of the minor versions, whichever is greater.
abbrev pub distance : ℕ → ℕ → ℕ
distance a b = if ltb a b then b - a else a - b

unfoldable pub compatible : Semver → Semver → Bool
compatible a s = if a.major == s.major then leb (distance a.minor s.minor) window else false

-- An agent and a server may talk to each other exactly if they share the major version and
-- neither minor version is more than two ahead of the other's; which one is the agent does not
-- matter.
pub compatible_window :
    (a s : Semver)
    → ((compatible a s ≡ true)
        ↔ ((a.major ≡ s.major) × (a.minor ≤ s.minor + 2) × (s.minor ≤ a.minor + 2)))
      × (compatible a s ≡ compatible s a)
unfolding compatible
compatible_window a s = ((λ e. ground arith, λ w. ground (arith, w.0, w.1, w.2)), ground arith)
