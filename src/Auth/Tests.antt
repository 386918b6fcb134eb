-- ===== src/Auth/Tests.antt =====
-- Runs of the console's authentication, and the theorems at concrete values.
use Prim.Native.String.{len, [] as empty, ◌∷◌ as ◌:>◌}
use Prim.Native.Char.{code}
use excubra.Prelude.{
  ℕ, zero, suc, ◌==◌, if◌then◌else◌, ◌⊎◌, ap, sym, some_inj, Option, ◌∙◌, ◌≡◌, refl, String, true,
  false, none, some, List, [], ◌∷◌, ltb_ℤ, pos, negsuc, ℤ, ◌*◌, ◌+◌, length,
}
use excubra.GoTime.{second}
use excubra.Auth.{
  Kdf, check_parts, counter, next_ℤ, before_ℤ, try_steps, verify_totp, hash_password,
  verify_password,
}
use excubra.GoText.{trim_space}
use excubra.Auth.Replay.{verify_totp_fresh}
use excubra.Auth.Passwords.{plain_text, hash_password-verify_password}

abbrev code_at : ℤ → Option String
code_at (pos n) = if n == 2 then some "287082" else some "000000"
code_at (negsuc n) = none

-- A minute after the start of 1970.
abbrev a_minute : ℕ
a_minute = (62_135_596_800 + 60) * second

counter_test : counter a_minute ≡ pos 2
unfolding counter
counter_test = refl

verify_totp_test : verify_totp code_at " 287082" a_minute (pos 1) ≡ some (pos 2)
unfolding verify_totp try_steps counter
verify_totp_test = refl

-- The same code again.
replay_test : verify_totp code_at "287082" a_minute (pos 2) ≡ none
unfolding verify_totp try_steps counter
replay_test = refl

verify_totp_fresh_example :
    (ltb_ℤ (pos 1) (pos 2) ≡ true)
    × (code_at (pos 2) ≡ some (trim_space " 287082"))
    × ((pos 2 ≡ before_ℤ (counter a_minute))
        ⊎ ((pos 2 ≡ counter a_minute) ⊎ ((pos 2 ≡ next_ℤ (counter a_minute)) ⊎ ⊥)))
    × ((verify_totp code_at " 287082" (a_minute + second) (pos 2) ≡ none)
        ⊎ ((d : ℤ) × (verify_totp code_at " 287082" (a_minute + second) (pos 2) ≡ some d)
            × (ltb_ℤ (pos 2) d ≡ true)
            × (code_at d ≡ some (trim_space " 287082"))))
verify_totp_fresh_example =
    verify_totp_fresh code_at " 287082" a_minute (a_minute + second) (pos 1) (pos 2)
      verify_totp_test

-- Bytes as runs of `a`, each ended by `b`.
abbrev run_of : ℕ → String → String
run_of zero r = "b" :> r
run_of (suc n) r = "a" :> run_of n r

abbrev as_runs : List ℕ → String
as_runs [] = empty
as_runs (n ∷ ns) = run_of n (as_runs ns)

abbrev one_more : List ℕ → List ℕ
one_more [] = []
one_more (n ∷ ns) = suc n ∷ ns

abbrev from_runs : String → List ℕ
from_runs empty = []
from_runs (c :> s) = let rest = from_runs s in if code c == 97 then one_more rest else zero ∷ rest

abbrev copies : ℕ → ℕ → List ℕ
copies zero n = []
copies (suc k) n = n ∷ copies k n

abbrev runs : Kdf
runs = record {
  encode = as_runs;
  decode = λ s. some (from_runs s);
  derive = λ p s n l. some (copies l (len p));
}

from_runs-run_of : (n : ℕ) (r : String) → from_runs (run_of n r) ≡ n ∷ from_runs r
from_runs-run_of zero r = refl
from_runs-run_of (suc n) r = ap one_more (from_runs-run_of n r)

from_runs-as_runs : (ns : List ℕ) → from_runs (as_runs ns) ≡ ns
from_runs-as_runs [] = refl
from_runs-as_runs (n ∷ ns) =
    from_runs-run_of n (as_runs ns) ∙ ap (λ r. n ∷ r) (from_runs-as_runs ns)

run_of-plain_text : (n : ℕ) (r : String) → plain_text r ≡ true → plain_text (run_of n r) ≡ true
run_of-plain_text zero r p = p
run_of-plain_text (suc n) r p = run_of-plain_text n r p

as_runs-plain_text : (ns : List ℕ) → plain_text (as_runs ns) ≡ true
as_runs-plain_text [] = refl
as_runs-plain_text (n ∷ ns) = run_of-plain_text n (as_runs ns) (as_runs-plain_text ns)

length-copies : (k n : ℕ) → length (copies k n) ≡ k
length-copies zero n = refl
length-copies (suc k) n = ap suc (length-copies k n)

abbrev stored : String
stored = elim (hash_password runs (some (1 ∷ 0 ∷ [])) "correct horse") [ none ↦ "" | some s ↦ s ]

hash_password_test : hash_password runs (some (1 ∷ 0 ∷ [])) "correct horse" ≡ some stored
unfolding hash_password
hash_password_test = refl

wrong_test : verify_password runs stored "correct horses" ≡ false
unfolding hash_password verify_password check_parts
wrong_test = refl

hash_password-verify_password_example : verify_password runs stored "correct horse" ≡ true
hash_password-verify_password_example =
    hash_password-verify_password runs (some (1 ∷ 0 ∷ [])) "correct horse" stored
      (λ bs. ap some (from_runs-as_runs bs)) as_runs-plain_text
      (λ p s key n l e. sym (ap length (some_inj e)) ∙ length-copies l (len p)) hash_password_test
