-- ===== src/Auth/Passwords.antt =====
-- A stored hash takes the password that it was made of.
use Prim.Native.String.{len, [] as empty, ◌∷◌ as ◌:>◌, ◌++◌ as ◌<>◌}
use Prim.Native.Char.{Char, code}
use text.Mathlib.TextLemmas.{nil-append, cons-append}
use excubra.Prelude.{
  ℕ, ◌≡◌, inl, inr, refl, sym, ap, ◌∙◌, String, Bool, true, false, not, ◌&&◌, Option, some, List,
  [], ◌∷◌, arith, ltb, ◌==◌, length, Bool-cases, Option-cases, some_inj,
}
use excubra.GoText.{split, cons_first, itoa}
use excubra.Auth.{
  Kdf, same_bytes, hash_password, check_parts, verify_password, min_password_len, pbkdf2_iterations,
  key_bytes,
}

-- No dollar sign.
abbrev pub plain_text : String → Bool
plain_text empty = true
plain_text (c :> s) = not (code c == 36) && plain_text s

split-cons :
    (c : Char) (s : String)
    → not (code c == 36) ≡ true
    → split 36 (c :> s) ≡ cons_first c (split 36 s)
split-cons c s p = elim (Bool-cases (code c == 36)) [ inl e ↦ cc (rw e at p) | inr e ↦ rw e refl ]

and_both : (a b : Bool) → a && b ≡ true → (a ≡ true) × (b ≡ true)
and_both true b e = (refl, e)
and_both false b e = cc e

split-front : (s t : String) → plain_text s ≡ true → split 36 (s <> ("$" <> t)) ≡ s ∷ split 36 t
split-front empty t p =
    ap (split 36) (nil-append ("$" <> t) ∙ cons-append "$" "" t ∙ ap (λ r. "$" :> r) (nil-append t))
    ∙ refl
split-front (c :> s) t p =
    let (a, b) = and_both _ _ p in
    ap (split 36) (cons-append c s ("$" <> t))
    ∙ split-cons c (s <> ("$" <> t)) a
    ∙ ap (cons_first c) (split-front s t b)

split-plain : (s : String) → plain_text s ≡ true → split 36 s ≡ s ∷ []
split-plain empty p = refl
split-plain (c :> s) p =
    let (a, b) = and_both _ _ p in split-cons c s a ∙ ap (cons_first c) (split-plain s b)

same_refl : (n : ℕ) → n == n ≡ true
same_refl n = ground arith

same_bytes_refl : (bs : List ℕ) → same_bytes bs bs ≡ true
same_bytes_refl [] = refl
same_bytes_refl (b ∷ bs) = rw (same_refl b, same_bytes_refl bs) refl

four_parts :
    (salt hash : String)
    → plain_text salt ≡ true
    → plain_text hash ≡ true
    → split 36
        ("pbkdf2-sha256" <> ("$" <> (itoa pbkdf2_iterations <> ("$" <> (salt <> ("$" <> hash))))))
      ≡ "pbkdf2-sha256" ∷ "600000" ∷ salt ∷ hash ∷ []
four_parts salt hash p q =
    split-front "pbkdf2-sha256" ("600000" <> ("$" <> (salt <> ("$" <> hash)))) refl
    ∙ ap (λ ss. "pbkdf2-sha256" ∷ ss)
        (split-front "600000" (salt <> ("$" <> hash)) refl
          ∙ ap (λ ss. "600000" ∷ ss)
              (split-front salt hash p ∙ ap (λ ss. salt ∷ ss) (split-plain hash q)))

check_parts_lem :
    (k : Kdf) (password salt hash : String) (s key : List ℕ)
    → k.decode salt ≡ some s
    → k.decode hash ≡ some key
    → k.derive password s pbkdf2_iterations (length key) ≡ some key
    → check_parts k password ("pbkdf2-sha256" ∷ "600000" ∷ salt ∷ hash ∷ []) ≡ true
unfolding check_parts
check_parts_lem k password salt hash s key e f d = simp (e, f, d, same_bytes_refl key) refl

-- A password that `HashPassword` takes verifies against what it returns, where `encode` writes bytes without a dollar sign and `decode` reads
-- them back, and a derived key is as long as was asked for.
pub hash_password-verify_password :
    (k : Kdf) (salt : Option (List ℕ)) (password stored : String)
    → ((bs : List ℕ) → k.decode (k.encode bs) ≡ some bs)
    → ((bs : List ℕ) → plain_text (k.encode bs) ≡ true)
    → ((p : String) (s key : List ℕ) (n l : ℕ) → k.derive p s n l ≡ some key → length key ≡ l)
    → hash_password k salt password ≡ some stored
    → verify_password k stored password ≡ true
unfolding hash_password verify_password
hash_password-verify_password k salt password stored back plain long e =
    elim (Bool-cases (ltb (len password) min_password_len)) [
      | inl short ↦ cc (rw short at e)
      | inr enough ↦ elim (Option-cases salt) [
        | inl bad ↦ cc (rw (enough, bad) at e)
        | inr (s, ok) ↦ elim (Option-cases (k.derive password s pbkdf2_iterations key_bytes)) [
          | inl bad ↦ cc (rw (enough, ok, bad) at e)
          | inr (key, derived) ↦
              ap (λ t. check_parts k password (split 36 t))
                (sym (some_inj (rw (enough, ok, derived) at e)))
              ∙ ap (check_parts k password)
                  (four_parts (k.encode s) (k.encode key) (plain s) (plain key))
              ∙ check_parts_lem k password (k.encode s) (k.encode key) s key (back s) (back key) (
                  ap (k.derive password s pbkdf2_iterations) (long password s key _ _ derived)
                  ∙ derived)
        ]
      ]
    ]
