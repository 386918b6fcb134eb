-- ===== src/Id.antt =====
-- internal/id/id.go: the base32 characters of identifiers. Random bytes are arguments.
use Prim.Native.String.{◌++◌ as ◌<>◌, ◌∷◌ as ◌:>◌, char_at, count}
use text.Mathlib.TextLemmas.{length-nil, length-cons}
use excubra.Prelude.{
  ℕ, zero, suc, ◌+◌, ◌-◌, ◌*◌, ◌/◌, ◌%◌, ◌^◌, ◌≤◌, ◌<◌, ◌≡◌, ap, ◌∙◌, inl, inr, ◌⊎◌, String, ◌&&◌,
  List, [], ◌∷◌, ◌++◌, arith, leb, ltb, ◌==◌, if◌then◌else◌, length, length-append, Bool-cases,
}

abbrev pub alphabet : String
alphabet = "0123456789abcdefghjkmnpqrstvwxyz"

abbrev pub random_len : ℕ
random_len = 12

-- The inner loop of `encode`: the groups of five bits that are complete, the bits left over and the
-- characters still wanted.
unfoldable pub groups : ℕ → ℕ → ℕ → ℕ → List ℕ × ℕ × ℕ
groups zero acc bits left = ([], bits, left)
groups (suc fuel) acc bits left =
    let (more, bits1, left1) = groups fuel acc (bits - 5) (left - 1) in
    if leb 5 bits && ltb 0 left
    then (acc / 2 ^ (bits - 5) % 32 ∷ more, bits1, left1)
    else ([], bits, left)

-- The last group, filled up with zeros; fewer than five bits are left over.
unfoldable pub last_group : ℕ → ℕ → ℕ → List ℕ
last_group acc bits left =
    if ltb 0 left && ltb 0 bits then acc * 2 ^ (5 - bits) % 2 ^ 32 % 32 ∷ [] else []

-- The loop over the bytes; `acc` is a uint32. At most two groups are complete at a time.
unfoldable pub encode_bytes : List ℕ → ℕ → ℕ → ℕ → List ℕ
encode_bytes [] acc bits left = last_group acc bits left
encode_bytes (c ∷ b) acc bits left =
    let acc1 = acc * 256 % 2 ^ 32 + c in
    let (now, bits1, left1) = groups 2 acc1 (bits + 8) left in
    let rest = encode_bytes b acc1 bits1 left1 in if left1 == 0 then now else now ++ rest

abbrev pub characters : List ℕ → String
characters [] = ""
characters (d ∷ ds) = char_at alphabet d :> characters ds

unfoldable pub encode : List ℕ → ℕ → String
encode b out_len = characters (encode_bytes b 0 0 out_len)

-- `New`, on the eight random bytes.
unfoldable pub new : String → List ℕ → String
new prefix b = prefix <> ("_" <> encode b random_len)

-- `Secret`, on its random bytes.
unfoldable pub secret : List ℕ → String
secret b = encode b ((length b * 8 + 4) / 5)

record Grouped (bits left : ℕ) (r : List ℕ × ℕ × ℕ) : Type 0 where
  total : length r.0 + r.2 ≡ left
  used : r.1 + 5 * length r.0 ≡ bits
  stopped : (r.2 ≡ 0) ⊎ (r.1 < 5)

groups-Grouped :
    (fuel acc bits left : ℕ) → bits < 5 * fuel + 5 → Grouped bits left (groups fuel acc bits left)
unfolding groups
groups-Grouped zero acc bits left enough = record {
  total = omega arith;
  used = omega arith;
  stopped = inr (omega (arith, enough));
}
groups-Grouped (suc fuel) acc bits left enough = elim (Bool-cases (leb 5 bits && ltb 0 left)) [
  | inl go ↦
      let rest = groups-Grouped fuel acc (bits - 5) (left - 1) (omega (arith, enough)) in
      rw (go, groups)
        (record {
          total = ground (arith, rest.total);
          used = ground (arith, rest.used);
          stopped = rest.stopped;
        })
  | inr stop ↦
      rw (stop, groups) (record { total = omega arith; used = omega arith; stopped = ground arith })
]

encode_bytes-length :
    (b : List ℕ) (acc bits left : ℕ)
    → bits < 5
    → 5 * left ≤ 8 * length b + bits + 4
    → length (encode_bytes b acc bits left) ≡ left
unfolding encode_bytes last_group
encode_bytes-length [] acc bits left few fits = ground arith
encode_bytes-length (c ∷ b) acc bits left few fits =
    let acc1 = acc * 256 % 2 ^ 32 + c in
    let r = groups 2 acc1 (bits + 8) left in
    let g = groups-Grouped 2 acc1 (bits + 8) left (omega (arith, few)) in
    elim (Bool-cases (r.2 == 0)) [
      | inl done ↦ rw (done, encode_bytes) (ground (arith, g.total))
      | inr more ↦
          let low : r.1 < 5 = elim g.stopped [ inl full ↦ ground arith | inr low ↦ low ] in
          let rest =
            encode_bytes-length b acc1 r.1 r.2 low (omega (arith, g.total, g.used, fits)) in
          rw (more, encode_bytes)
            (omega (arith, length-append r.0 (encode_bytes b acc1 r.1 r.2), rest, g.total))
    ]

count-characters : (ds : List ℕ) → count (characters ds) ≡ length ds
count-characters [] = length-nil
count-characters (d ∷ ds) =
    length-cons (char_at alphabet d) (characters ds) ∙ ap suc (count-characters ds)

-- As long as the bits of the bytes, rounded up to groups of five, are enough, `encode` writes exactly
-- as many characters as it is asked for.
pub count-encode :
    (b : List ℕ) (out_len : ℕ) → 5 * out_len ≤ 8 * length b + 4 → count (encode b out_len) ≡ out_len
unfolding encode
count-encode b out_len fits =
    count-characters (encode_bytes b 0 0 out_len)
    ∙ encode_bytes-length b 0 0 out_len (omega arith) (omega (arith, fits))
