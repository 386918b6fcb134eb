-- ===== src/State/Ancestors.antt =====
-- The walk along the uplinks: it ends within its fuel, and it finds what a walk without the guard
-- against cycles finds.
use excubra.Prelude.{
  ℕ, zero, suc, ◌+◌, ◌≤◌, ◌<◌, ◌≡◌, ◌∙◌, sym, inl, inr, String, true, false, ◌||◌, Option, none,
  some, List, [], ◌∷◌, arith, eq_iff, str_eq, if◌then◌else◌, length, contains, Bool-cases,
  Option-cases,
}
use excubra.GoMap.{Map, lookup}
use excubra.State.Types.{Host, Machine, is_down}
use excubra.State.Suppress.{walk, climb}

-- The hosts that a walk has not seen yet.
pub unseen : Map Host → List String → ℕ
unseen [] seen = 0
unseen ((k, h) ∷ hosts) seen = (if contains k seen then 0 else 1) + unseen hosts seen

pub unseen_le : (hosts : Map Host) (seen : List String) → unseen hosts seen ≤ length hosts
unfolding unseen
unseen_le [] seen = omega arith
unseen_le ((k, h) ∷ hosts) seen = ground (arith, unseen_le hosts seen)

unseen_mono :
    (hosts : Map Host) (s : String) (seen : List String)
    → unseen hosts (s ∷ seen) ≤ unseen hosts seen
unfolding unseen
unseen_mono [] s seen = omega arith
unseen_mono ((k, h) ∷ hosts) s seen = ground (arith, unseen_mono hosts s seen)

pub unseen_falls :
    (hosts : Map Host) (s : String) (seen : List String) {p : Host}
    → lookup s hosts ≡ some p
    → contains s seen ≡ false
    → unseen hosts (s ∷ seen) < unseen hosts seen
unfolding unseen
unseen_falls [] s seen e c = cc
unseen_falls ((k, h) ∷ hosts) s seen e c = elim (Bool-cases (str_eq k s)) [
  | inl hit ↦ ground (arith, unseen_mono hosts s seen, eq_iff k s, eq_iff s k)
  | inr miss ↦ ground (arith, unseen_falls hosts s seen (rw miss at e) c)
]

pub walk_total :
    (hosts : Map Host) (fuel : ℕ) (seen : List String) (pid : String)
    → unseen hosts seen < fuel
    → (id : String) × (walk hosts fuel seen pid ≡ some id)
unfolding walk
walk_total hosts zero seen pid h = elim h [ ]
walk_total hosts (suc fuel) seen pid h = elim (Bool-cases (str_eq pid "" || contains pid seen)) [
  | inl stop ↦ ("", rw (stop, walk))
  | inr go ↦ elim (Option-cases (lookup pid hosts)) [
    | inl e ↦ ("", rw (go, e, walk))
    | inr (p, e) ↦ elim (Bool-cases (is_down p.observed)) [
      | inl d ↦ (p.id, rw (go, e, d, walk))
      | inr d ↦
          let rest =
            walk_total hosts fuel (pid ∷ seen) p.parent_id
              (omega (arith, unseen_falls hosts pid seen e (ground arith))) in
          (rest.0, rw (go, e, d, walk) rest.1)
    ]
  ]
]

climb_total :
    (hosts : Map Host) (fuel : ℕ) (seen : List String) (pid : String) (d : ℕ)
    → unseen hosts seen < fuel
    → (r : ℕ) × (climb hosts fuel seen pid d ≡ some r)
unfolding climb
climb_total hosts zero seen pid d h = elim h [ ]
climb_total hosts (suc fuel) seen pid d h = elim (Bool-cases (str_eq pid "" || contains pid seen)) [
  | inl stop ↦ (d, rw (stop, climb))
  | inr go ↦ elim (Option-cases (lookup pid hosts)) [
    | inl e ↦ (d, rw (go, e, climb))
    | inr (p, e) ↦
        let rest =
          climb_total hosts fuel (pid ∷ seen) p.parent_id (d + 1)
            (omega (arith, unseen_falls hosts pid seen e (ground arith))) in
        (rest.0, rw (go, e, climb) rest.1)
  ]
]

-- Both loops along the uplinks end within the fuel they are given, whatever cycles the parents
-- form: each returns a result after at most one round more than there are hosts.
pub walks_end :
    (m : Machine) (h : Host)
    → ((id : String) × (walk m.hosts (suc (length m.hosts)) (h.id ∷ []) h.parent_id ≡ some id))
      × ((d : ℕ) × (climb m.hosts (suc (length m.hosts)) (h.id ∷ []) h.parent_id 0 ≡ some d))
walks_end m h = (
  walk_total m.hosts _ (h.id ∷ []) h.parent_id (omega (arith, unseen_le m.hosts (h.id ∷ []))),
  climb_total m.hosts _ (h.id ∷ []) h.parent_id 0 (omega (arith, unseen_le m.hosts (h.id ∷ []))),
)

-- The first host that is down on the way up, within a number of steps and with no memory of the
-- hosts passed.
unfoldable pub first_down : Map Host → ℕ → String → Option Host
first_down hosts zero pid = none
first_down hosts (suc n) pid = elim (str_eq pid "") [
  | true ↦ none
  | false ↦ elim (lookup pid hosts) [
    | none ↦ none
    | some p ↦ elim (is_down p.observed) [ true ↦ some p | false ↦ first_down hosts n p.parent_id ]
  ]
]

pub first_down_mono :
    (hosts : Map Host) (n : ℕ) (pid : String) {p : Host}
    → first_down hosts n pid ≡ some p
    → first_down hosts (suc n) pid ≡ some p
unfolding first_down
first_down_mono hosts zero pid e = cc
first_down_mono hosts (suc n) pid e = elim (Bool-cases (str_eq pid "")) [
  | inl stop ↦ cc (rw (stop, first_down) at e)
  | inr go ↦ elim (Option-cases (lookup pid hosts)) [
    | inl l ↦ cc (rw (go, l, first_down) at e)
    | inr (q, l) ↦ elim (Bool-cases (is_down q.observed)) [
      | inl d ↦ rw (go, l, d, first_down) (rw (go, l, d, first_down) at e)
      | inr d ↦
          rw (go, l, d, first_down)
            (first_down_mono hosts n q.parent_id (rw (go, l, d, first_down) at e))
    ]
  ]
]

-- The least number of steps that finds a host.
pub first_down_least :
    (hosts : Map Host) (n : ℕ) (pid : String) (p : Host)
    → first_down hosts n pid ≡ some p
    → (k : ℕ) × (first_down hosts (suc k) pid ≡ some p) × (first_down hosts k pid ≡ none)
unfolding first_down
first_down_least hosts zero pid p e = cc
first_down_least hosts (suc n) pid p e = elim (Option-cases (first_down hosts n pid)) [
  | inl l ↦ (n, e, l)
  | inr (q, l) ↦ first_down_least hosts n pid p (l ∙ sym (first_down_mono hosts n pid l) ∙ e)
]
