-- ===== src/Dnswatch/Questions.antt =====
-- What `parseQuestion` lets through, and what `answer` makes of it.
use excubra.Prelude.{
  ℕ, zero, suc, ◌+◌, ◌-◌, ◌%◌, ◌≤◌, ◌<◌, ◌≡◌, refl, sym, ap, inl, inr, ◌||◌, some, List, arith, ltb,
  leb, ◌==◌, length, pos, Bool-cases, >>=-eq-some, some_inj,
}
use excubra.Sentinel.Frames.{byte_at, bytes_from}
use excubra.Dnswatch.Message.{
  Question, header_len, max_name_len, uint16, read_labels, join_labels, parse_question, rcode,
  answer, answer_flags,
}

read_labels_end :
    (m : List ℕ) (fuel i : ℕ) (r : List (List ℕ) × ℕ)
    → read_labels m fuel i ≡ some r
    → (i < r.1) × (r.1 ≤ length m)
unfolding read_labels
read_labels_end m zero i r e = cc
read_labels_end m (suc fuel) i r e = elim (Bool-cases (leb (length m) i)) [
  | inl out ↦ cc (rw (out, read_labels) at e)
  | inr within ↦ elim (Bool-cases (byte_at m i == 0)) [
    | inl stop ↦
        let last : i + 1 ≡ r.1 =
          ap (λ (x : List (List ℕ) × ℕ). x.1) (some_inj (rw (within, stop, read_labels) at e)) in
        ground arith
    | inr more ↦ elim (Bool-cases (leb 64 (byte_at m i) || ltb (length m) (i + 1 + byte_at m i))) [
      | inl bad ↦ cc (rw (within, more, bad, read_labels) at e)
      | inr good ↦
          let (p, s, last) =
            >>=-eq-some (read_labels m fuel (i + 1 + byte_at m i)) _
              (rw (within, more, good, read_labels) at e) in
          let (low, high) = read_labels_end m fuel (i + 1 + byte_at m i) p s in
          let same : p.1 ≡ r.1 = ap (λ (x : List (List ℕ) × ℕ). x.1) (some_inj last) in
          (omega (arith, low, same), omega (arith, high, same))
    ]
  ]
]

length-bytes_from : (f : List ℕ) (i n : ℕ) → length (bytes_from f i n) ≡ n
length-bytes_from f i zero = refl
length-bytes_from f i (suc n) = ap suc (length-bytes_from f (i + 1) n)

-- A question that is read ends within the message and behind its header, and its name is at most
-- 253 bytes long.
pub parse_question_bounds :
    (m : List ℕ) (q : Question)
    → parse_question m ≡ some q
    → (header_len < q.end) × (q.end ≤ length m) × (length q.name ≤ max_name_len)
unfolding parse_question
parse_question_bounds m q e = elim (Bool-cases (ltb (length m) header_len || ltb (uint16 m 4) 1)) [
  | inl bad ↦ cc (rw bad at e)
  | inr good ↦
      let (p, s, e1) = >>=-eq-some (read_labels m (suc (length m)) header_len) _ (rw good at e) in
      let (low, high) = read_labels_end m (suc (length m)) header_len p s in
      elim (Bool-cases (ltb (length m) (p.1 + 4) || ltb max_name_len (length (join_labels p.0)))) [
        | inl long ↦ cc (rw long at e1)
        | inr short ↦
            let same = some_inj (rw short at e1) in
            let end : p.1 + 4 ≡ q.end = ap (λ (x : Question). x.end) same in
            let name : join_labels p.0 ≡ q.name = ap (λ (x : Question). x.name) same in
            (omega (arith, low, end), ground (arith, end), rw (sym name) (ground arith))
      ]
]

-- An answer to a question that ends behind the header is as long as the header and the question, is marked as a response with one question,
-- and carries the code that it was made with, of four bits.
pub answer_header :
    (query : List ℕ) (q : Question) (code : ℕ)
    → header_len ≤ q.end
    → (length (answer query q code) ≡ q.end)
      × (rcode (answer query q code) ≡ pos (code % 16))
      × (uint16 (answer query q code) 4 ≡ 1)
      × (32768 ≤ uint16 (answer query q code) 2)
unfolding answer rcode answer_flags
answer_header query q code le = (
  omega (arith, length-bytes_from query header_len (q.end - header_len)),
  ground arith,
  refl,
  omega arith,
)
