-- ===== src/Auth/Replay.antt =====
-- Which one-time codes are taken.
use excubra.Prelude.{
  none, ◌≡◌, inl, inr, sym, ap, ◌∙◌, ◌⊎◌, String, true, Option, some, List, [], ◌∷◌, eq_iff, str_eq,
  ltb_ℤ, ◌==◌, ℤ, Bool-cases, Option-cases, some_inj,
}
use Prim.Native.String.{len}
use excubra.GoTime.{Time}
use excubra.GoText.{trim_space}
use excubra.Auth.{totp_digits, counter, next_ℤ, before_ℤ, try_steps, verify_totp}

-- One of the steps.
abbrev OneOf : ℤ → List ℤ → Type 0
OneOf c [] = ⊥
OneOf c (d ∷ ds) = (c ≡ d) ⊎ OneOf c ds

try_steps-taken :
    (code_of : ℤ → Option String) (code : String) (last c : ℤ) (cs : List ℤ)
    → try_steps code_of code last cs ≡ some c
    → (ltb_ℤ last c ≡ true) × (code_of c ≡ some code) × OneOf c cs
unfolding try_steps
try_steps-taken code_of code last c [] e = cc e
try_steps-taken code_of code last c (d ∷ ds) e = elim (Bool-cases (ltb_ℤ last d)) [
  | inr used ↦
      let (a, b, m) = try_steps-taken code_of code last c ds (rw (used, try_steps) at e) in
      (a, b, inr m)
  | inl new ↦ elim (Option-cases (code_of d)) [
    | inl bad ↦ cc (rw (new, bad, try_steps) at e)
    | inr (want, good) ↦ elim (Bool-cases (str_eq want code)) [
      | inr other ↦
          let (a, b, m) =
            try_steps-taken code_of code last c ds (rw (new, good, other, try_steps) at e) in
          (a, b, inr m)
      | inl right ↦
          let same : d ≡ c = some_inj (rw (new, good, right, try_steps) at e) in
          (
            rw (← same) new,
            rw (← same) (good ∙ ap some ((eq_iff want code).0 right)),
            inl (sym same),
          )
    ]
  ]
]

taken :
    (code_of : ℤ → Option String) (code : String) (now : Time) (last c : ℤ)
    → verify_totp code_of code now last ≡ some c
    → (ltb_ℤ last c ≡ true)
      × (code_of c ≡ some (trim_space code))
      × OneOf c (before_ℤ (counter now) ∷ counter now ∷ next_ℤ (counter now) ∷ [])
unfolding verify_totp
taken code_of code now last c e = elim (Bool-cases (len (trim_space code) == totp_digits)) [
  | inr short ↦ cc (rw short at e)
  | inl long ↦ try_steps-taken code_of (trim_space code) last c _ (rw long at e)
]

-- A code that is taken is the code of a step that is the current one or next to it, and that is later than the step given as the last one. Where
-- the step that it gives is the last one of another try, at whatever time, the same text is refused, unless it is also the code of a still later step,
-- which is then what the other try gives.
pub verify_totp_fresh :
    (code_of : ℤ → Option String) (code : String) (now later : Time) (last c : ℤ)
    → verify_totp code_of code now last ≡ some c
    → (ltb_ℤ last c ≡ true)
      × (code_of c ≡ some (trim_space code))
      × ((c ≡ before_ℤ (counter now)) ⊎ ((c ≡ counter now) ⊎ ((c ≡ next_ℤ (counter now)) ⊎ ⊥)))
      × ((verify_totp code_of code later c ≡ none)
          ⊎ ((d : ℤ) × (verify_totp code_of code later c ≡ some d)
              × (ltb_ℤ c d ≡ true)
              × (code_of d ≡ some (trim_space code))))
verify_totp_fresh code_of code now later last c e =
    let (new, right, near) = taken code_of code now last c e in
    (
      new,
      right,
      near,
      elim (Option-cases (verify_totp code_of code later c)) [
        | inl refused ↦ inl refused
        | inr (d, again) ↦
            let (after, same, step) = taken code_of code later c d again in
            inr (d, again, after, same)
      ],
    )
