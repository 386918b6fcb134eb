-- ===== src/Blocklist/Extra.antt =====
-- What `applyExtra` makes of the list.
use excubra.Prelude.{
  ◌≡◌, refl, sym, ap, ◌∙◌, inl, inr, String, Bool, true, false, not, ◌&&◌, ◌||◌, Option, none, some,
  List, [], ◌∷◌, arith, eq_iff, eq_refl, str_eq, if◌then◌else◌, contains, Bool-cases, Option-cases,
}
use excubra.GoMap.{Map, lookup, insert, lookup-insert, Unique, Fresh, lookup-Fresh}
use excubra.Blocklist.{Service, is_stale, drop_stale, any_stale, add_wanted, rebuild, apply_extra}

-- The source under which a domain is listed afterwards.
abbrev pub after_extra : Bool → Option String → Option String
after_extra true none = some "extra"
after_extra false none = none
after_extra true (some src) = some src
after_extra false (some src) = if str_eq src "extra" then none else some src

abbrev unstale : Bool → Option String → Option String
unstale wanted none = none
unstale wanted (some src) = if str_eq src "extra" && not wanted then none else some src

drop_stale-Fresh :
    (extra : List String) (k : String) (ds : Map String)
    → Fresh k ds
    → Fresh k (drop_stale extra ds)
unfolding drop_stale
drop_stale-Fresh extra k [] f = tt
drop_stale-Fresh extra k ((d, src) ∷ ds) f = ground (arith, drop_stale-Fresh extra k ds f.1)

lookup-drop_stale :
    (extra : List String) (ds : Map String) (k : String)
    → Unique ds
    → lookup k (drop_stale extra ds) ≡ unstale (contains k extra) (lookup k ds)
unfolding drop_stale
lookup-drop_stale extra [] k u = refl
lookup-drop_stale extra ((d, src) ∷ ds) k u = elim (Bool-cases (str_eq d k)) [
  | inr miss ↦ rw miss (elim (Bool-cases (is_stale extra d src)) [
    | inl t ↦ rw t (lookup-drop_stale extra ds k u.1)
    | inr t ↦ rw (t, miss) (lookup-drop_stale extra ds k u.1)
  ])
  | inl hit ↦
      let same = (eq_iff d k).0 hit in
      let absent = lookup-Fresh d (drop_stale extra ds) (drop_stale-Fresh extra d ds u.0) in
      rw (hit, ← same)
        (elim (Bool-cases (is_stale extra d src)) [
          | inl t ↦ rw (t, absent)
          | inr t ↦ rw (t, eq_refl d)
        ])
]

abbrev wanted : Bool → Option String → Option String
wanted b (some src) = some src
wanted b none = if b then some "extra" else none

known_first :
    (d : String) (extra : List String) (ds : Map String) (k src : String)
    → lookup d ds ≡ some src
    → wanted (contains k extra) (lookup k ds) ≡ wanted (contains k (d ∷ extra)) (lookup k ds)
known_first d extra ds k src e = elim (Bool-cases (str_eq d k)) [
  | inr miss ↦ rw miss
  | inl hit ↦
      let there : lookup k ds ≡ some src =
        ap (λ (i : String). lookup i ds) (sym ((eq_iff d k).0 hit)) ∙ e in
      rw there
]

new_first :
    (d : String) (extra : List String) (ds : Map String) (k : String)
    → lookup d ds ≡ none
    → wanted (contains k extra) (lookup k (insert d "extra" ds))
      ≡ wanted (contains k (d ∷ extra)) (lookup k ds)
new_first d extra ds k e = elim (Bool-cases (str_eq d k)) [
  | inr miss ↦ rw (lookup-insert d k "extra" ds, miss)
  | inl hit ↦
      let there : lookup k ds ≡ none =
        ap (λ (i : String). lookup i ds) (sym ((eq_iff d k).0 hit)) ∙ e in
      rw (lookup-insert d k "extra" ds, hit, there)
]

lookup-add_wanted :
    (extra : List String) (ds : Map String) (k : String)
    → lookup k (add_wanted extra ds).0 ≡ wanted (contains k extra) (lookup k ds)
unfolding add_wanted
lookup-add_wanted [] ds k = elim (Option-cases (lookup k ds)) [ inl e ↦ rw e | inr (s, e) ↦ rw e ]
lookup-add_wanted (d ∷ extra) ds k = elim (Option-cases (lookup d ds)) [
  | inr (src, e) ↦
      rw (e, add_wanted) (lookup-add_wanted extra ds k ∙ known_first d extra ds k src e)
  | inl e ↦
      rw (e, add_wanted)
        (lookup-add_wanted extra (insert d "extra" ds) k ∙ new_first d extra ds k e)
]

both_loops : (b : Bool) (o : Option String) → wanted b (unstale b o) ≡ after_extra b o
both_loops true none = refl
both_loops false none = refl
both_loops true (some src) = ground arith
both_loops false (some src) = ground arith

-- On a list with no domain twice `applyExtra` lists every wanted domain, under the source that it had if it was listed, drops the
-- operator's domains that are no longer wanted, and keeps those of the other sources.
pub apply_extra_table :
    (digest : String → String) (s : Service) (extra : List String) (k : String)
    → Unique s.domains
    → lookup k (apply_extra digest s extra).0.domains
      ≡ after_extra (contains k extra) (lookup k s.domains)
unfolding apply_extra rebuild
apply_extra_table digest s extra k u =
    let kept = drop_stale extra s.domains in
    let list =
      lookup-add_wanted extra kept k
      ∙ ap (wanted (contains k extra)) (lookup-drop_stale extra s.domains k u)
      ∙ both_loops (contains k extra) (lookup k s.domains) in
    elim (Bool-cases (any_stale extra s.domains || (add_wanted extra kept).1)) [
      | inl t ↦ rw (t, apply_extra) list
      | inr t ↦ rw (t, apply_extra) list
    ]
