-- ===== src/Rules/Doors.antt =====
-- What is reported, and in what order.
use excubra.Prelude.{
  ℕ, ◌≡◌, inl, inr, refl, ap, ◌∙◌, Bool, true, false, ◌&&◌, ◌||◌, List, [], ◌∷◌, ◌++◌, ◌==◌,
  eq_refl, str_eq, if◌then◌else◌, Bool-cases, place, sort_by,
}
use excubra.GoTime.{Time}
use excubra.Rules.{high, rank, Finding, Service, one_of, service_key, finding_earlier}
use excubra.Rules.Outside.{
  is_web, admin_ui, urgent_ports, outside_door, outside_service, outside_all, evaluate_external,
}

abbrev pub any : (Finding → Bool) → List Finding → Bool
any p [] = false
any p (f ∷ fs) = p f || any p fs

or_swap : (a b c : Bool) → (b || (a || c)) ≡ (a || (b || c))
or_swap true true c = refl
or_swap true false c = refl
or_swap false true c = refl
or_swap false false c = refl

or_true : (b : Bool) → (b || true) ≡ true
or_true true = refl
or_true false = refl

or_assoc : (a b c : Bool) → (a || (b || c)) ≡ ((a || b) || c)
or_assoc true b c = refl
or_assoc false b c = refl

module _ (p : Finding → Bool) (less : Finding → Finding → Bool) where
  any-place : (f : Finding) (fs : List Finding) → any p (place less f fs) ≡ (p f || any p fs)
  any-place f [] = refl
  any-place f (g ∷ fs) = elim (Bool-cases (less g f)) [
    | inl e ↦ rw e (ap (λ b. p g || b) (any-place f fs) ∙ or_swap (p f) (p g) (any p fs))
    | inr e ↦ rw e refl
  ]

  any-sort : (fs : List Finding) → any p (sort_by less fs) ≡ any p fs
  any-sort [] = refl
  any-sort (f ∷ fs) = any-place f (sort_by less fs) ∙ ap (λ b. p f || b) (any-sort fs)

any-append : (p : Finding → Bool) (fs gs : List Finding) → any p (fs ++ gs) ≡ (any p fs || any p gs)
any-append p [] gs = refl
any-append p (f ∷ fs) gs =
    ap (λ b. p f || b) (any-append p fs gs) ∙ or_assoc (p f) (any p fs) (any p gs)

-- Whichever finding a test chooses, it has what both have.
either : (P : Finding → Type 0) (b : Bool) {f g : Finding} → P f → P g → P (if b then f else g)
either P true p q = p
either P false p q = q

-- Remote desktops, file shares, logins and interfaces without protection, and databases.
abbrev pub urgent : ℕ → Bool
urgent p =
    p == 3389
    || one_of p (445 ∷ 139 ∷ 135 ∷ [])
    || one_of p urgent_ports
    || one_of p (3306 ∷ 5432 ∷ 1433 ∷ 1521 ∷ 6379 ∷ 27017 ∷ 9200 ∷ [])

-- A finding tells of a service, with the highest severity where the port is urgent.
abbrev pub tells_of : Service → Finding → Bool
tells_of svc f =
    str_eq f.key (service_key svc) && (if urgent svc.port then rank f.severity == 0 else true)

door_key : (svc : Service) → (outside_door svc).key ≡ service_key svc
unfolding outside_door
door_key svc =
    let P = λ (f : Finding). f.key ≡ service_key svc in
    let p = svc.port in
    either P (p == 3389) refl (
      either P (one_of p (445 ∷ 139 ∷ 135 ∷ [])) refl (
        either P (one_of p urgent_ports) refl (
          either P (one_of p (3306 ∷ 5432 ∷ 1433 ∷ 1521 ∷ 6379 ∷ 27017 ∷ 9200 ∷ [])) refl (
            either P (p == 22) refl (
              either P (one_of p (5060 ∷ 5061 ∷ [])) refl (
                either P (one_of p (25 ∷ 465 ∷ 587 ∷ 110 ∷ 143 ∷ 993 ∷ 995 ∷ [])) refl (
                  either P (p == 1194) refl
                    (either P (is_web svc) (either P (admin_ui svc) refl refl) refl))))))))

-- One of four tests that holds chooses a finding of the highest severity.
one_of_four :
    (a b c d : Bool) (f g h i r : Finding)
    → f.severity ≡ high
    → g.severity ≡ high
    → h.severity ≡ high
    → i.severity ≡ high
    → (a || b || c || d) ≡ true
    → (if a then f else if b then g else if c then h else if d then i else r).severity ≡ high
one_of_four true b c d f g h i r p q s t e = p
one_of_four false true c d f g h i r p q s t e = q
one_of_four false false true d f g h i r p q s t e = s
one_of_four false false false true f g h i r p q s t e = t
one_of_four false false false false f g h i r p q s t e = cc e

door_urgent : (svc : Service) → urgent svc.port ≡ true → (outside_door svc).severity ≡ high
unfolding outside_door
door_urgent svc e = one_of_four (svc.port == 3389) _ _ _ _ _ _ _ _ refl refl refl refl e

door_tells : (svc : Service) → tells_of svc (outside_door svc) ≡ true
unfolding rank
door_tells svc = elim (Bool-cases (urgent svc.port)) [
  | inl e ↦ rw (door_key svc, eq_refl (service_key svc), e, door_urgent svc e, rank) refl
  | inr e ↦ rw (door_key svc, eq_refl (service_key svc), e) refl
]

outside_all-tells :
    (now : Time) (svc : Service) (before after : List Service)
    → any (tells_of svc) (outside_all now (before ++ (svc ∷ after))) ≡ true
unfolding outside_service
outside_all-tells now svc [] after = rw (door_tells svc) refl
outside_all-tells now svc (s ∷ before) after =
    any-append (tells_of svc) (outside_service now s) (outside_all now (before ++ (svc ∷ after)))
    ∙ rw (outside_all-tells now svc before after)
        (or_true (any (tells_of svc) (outside_service now s)))

-- Every service on a public address is reported under its key, and one on an urgent port (a remote desktop, a file share, an interface without
-- protection, a database) with the highest severity, whatever other services there are.
pub every_door_reported :
    (now : Time) (svc : Service) (before after : List Service)
    → any (tells_of svc) (evaluate_external now (before ++ (svc ∷ after))) ≡ true
unfolding evaluate_external
every_door_reported now svc before after =
    any-sort (tells_of svc) finding_earlier (outside_all now (before ++ (svc ∷ after)))
    ∙ outside_all-tells now svc before after
