-- ===== src/Dnswatch/Framing.antt =====
-- Messages over TCP.
use excubra.Prelude.{
  ℕ, suc, ◌+◌, ◌*◌, ◌/◌, ◌%◌, ◌≤◌, ◌≡◌, refl, ap, false, none, some, List, [], ◌∷◌, ◌++◌, arith,
  ltb, if◌then◌else◌, length, length-append, take, drop, ◌>>=◌, inl, inr, Bool-cases,
}
use excubra.Dnswatch.Message.{header_len}
use excubra.Dnswatch.Watch.{max_tcp_msg}
use excubra.Dnswatch.Forward.{write_tcp, read_tcp}

take-append : (xs ys : List ℕ) → take (length xs) (xs ++ ys) ≡ xs
take-append [] ys = refl
take-append (x ∷ xs) ys = ap (λ l. x ∷ l) (take-append xs ys)

drop-append : (xs ys : List ℕ) → drop (length xs) (xs ++ ys) ≡ ys
drop-append [] ys = refl
drop-append (x ∷ xs) ys = drop-append xs ys

-- A message of a header and no more than 65535 bytes is framed, and comes back from the stream it is written to, with what follows it; a longer one
-- is not framed.
pub read_tcp-write_tcp :
    (msg rest : List ℕ)
    → header_len ≤ length msg
    → (write_tcp msg >>= λ framed. read_tcp (framed ++ rest))
      ≡ (if ltb max_tcp_msg (length msg) then none else some (msg, rest))
unfolding write_tcp read_tcp
read_tcp-write_tcp msg rest le = elim (Bool-cases (ltb max_tcp_msg (length msg))) [
  | inl long ↦ rw long refl
  | inr short ↦
      let n : length msg / 256 * 256 + length msg % 256 ≡ length msg = omega arith in
      let header : (ltb (length msg) header_len) ≡ false = ground arith in
      let whole : ltb (length (msg ++ rest)) (length msg) ≡ false =
        ground (arith, length-append msg rest) in
      let start : ltb (suc (suc (length (msg ++ rest)))) 2 ≡ false = ground arith in
      rw (short, start, n, header, short, whole)
        (ap some (rw (take-append msg rest, drop-append msg rest) refl))
]
