-- ===== src/Auth.antt =====
-- internal/auth/auth.go: passwords and one-time codes.
mod Replay
mod Passwords
mod Tests
use excubra.Prelude.{
  ℕ, zero, suc, ◌+◌, ◌-◌, ◌*◌, ◌/◌, ◌%◌, String, Bool, true, false, not, ◌&&◌, ◌||◌, Option, none,
  some, List, [], ◌∷◌, map, ltb, leb, ltb_ℤ, ◌==◌, if◌then◌else◌, length, str_eq, ℤ, pos, negsuc,
  sub_ℕ, quot,
}
use Prim.Native.Char.{code}
use Prim.Native.String.{len, [] as empty, ◌∷◌ as ◌:>◌, ◌++◌ as ◌<>◌}
use excubra.GoTime.{Time, second}
use excubra.GoText.{after_plus, split, trim_space, itoa, natural}

abbrev pub totp_step : ℕ
totp_step = 30

abbrev pub totp_digits : ℕ
totp_digits = 6

-- `Counter`: the Unix time in steps, rounded towards zero.
unfoldable pub counter : Time → ℤ
counter t = elim (sub_ℕ (t / second) 62_135_596_800) [
  | pos s ↦ pos (s / totp_step)
  | negsuc s ↦ elim (suc s / totp_step) [ zero ↦ pos 0 | suc k ↦ negsuc k ]
]

abbrev pub next_ℤ : ℤ → ℤ
next_ℤ (pos n) = pos (suc n)
next_ℤ (negsuc zero) = pos 0
next_ℤ (negsuc (suc n)) = negsuc n

abbrev pub before_ℤ : ℤ → ℤ
before_ℤ (pos zero) = negsuc 0
before_ℤ (pos (suc n)) = pos n
before_ℤ (negsuc n) = negsuc (suc n)

-- The loop over the steps that are left; `code_of` is `TOTPCode` with the secret, `none` where it fails.
unfoldable pub try_steps : (ℤ → Option String) → String → ℤ → List ℤ → Option ℤ
try_steps code_of code last [] = none
try_steps code_of code last (c ∷ cs) =
    let later = try_steps code_of code last cs in
    if not (ltb_ℤ last c)
    then later
    else elim (code_of c) [ none ↦ none | some want ↦ if str_eq want code then some c else later ]

-- The counter to store, or a refusal.
unfoldable pub verify_totp : (ℤ → Option String) → String → Time → ℤ → Option ℤ
verify_totp code_of code now last =
    let base = counter now in
    let tried =
      try_steps code_of (trim_space code) last (before_ℤ base ∷ base ∷ next_ℤ base ∷ []) in
    if not (len (trim_space code) == totp_digits) then none else tried

abbrev pub pbkdf2_iterations : ℕ
pbkdf2_iterations = 600_000

abbrev pub key_bytes : ℕ
key_bytes = 32

abbrev pub min_password_len : ℕ
min_password_len = 12

-- Packages `encoding/base64` and `crypto/pbkdf2`.
pub record Kdf : Type 0 where
  pub encode : List ℕ → String
  pub decode : String → Option (List ℕ)
  pub derive : String → List ℕ → ℕ → ℕ → Option (List ℕ)

abbrev pub same_bytes : List ℕ → List ℕ → Bool
same_bytes [] [] = true
same_bytes [] (y ∷ ys) = false
same_bytes (x ∷ xs) [] = false
same_bytes (x ∷ xs) (y ∷ ys) = x == y && same_bytes xs ys

-- `salt` is what the random source gives, `none` if it fails.
unfoldable pub hash_password : Kdf → Option (List ℕ) → String → Option String
hash_password k salt password = if ltb (len password) min_password_len then none else elim salt [
  | none ↦ none
  | some s ↦ elim (k.derive password s pbkdf2_iterations key_bytes) [
    | none ↦ none
    | some key ↦ some (
        "pbkdf2-sha256"
        <> ("$" <> (itoa pbkdf2_iterations <> ("$" <> (k.encode s <> ("$" <> k.encode key))))))
  ]
]

-- The four parts of a stored hash; a negative number of iterations is refused like one that is no number.
unfoldable pub check_parts : Kdf → String → List String → Bool
check_parts k password (scheme ∷ rounds ∷ salt ∷ hash ∷ []) =
    if not (str_eq scheme "pbkdf2-sha256") then false else elim (natural (after_plus rounds)) [
      | none ↦ false
      | some n ↦ if ltb n 1000 then false else elim (k.decode salt) [
        | none ↦ false
        | some s ↦ elim (k.decode hash) [
          | none ↦ false
          | some want ↦ elim (k.derive password s n (length want)) [
            | none ↦ false
            | some got ↦ same_bytes got want
          ]
        ]
      ]
    ]
check_parts k password _ = false

unfoldable pub verify_password : Kdf → String → String → Bool
verify_password k stored password = check_parts k password (split 36 stored)
