-- ===== src/Dnswatch/Message.antt =====
-- message.go: the header and the first question of a DNS message, and an answer to it. A message is
-- a list of bytes, each below 256.
use excubra.Prelude.{
  ℕ, zero, suc, ◌+◌, ◌-◌, ◌*◌, ◌/◌, ◌%◌, true, false, ◌&&◌, ◌||◌, Option, none, some, List, [], ◌∷◌,
  ◌++◌, map, ltb, leb, ◌==◌, if◌then◌else◌, length, ℤ, pos, negsuc, ◌>>=◌,
}
use excubra.Sentinel.Frames.{byte_at, bytes_from}

abbrev pub header_len : ℕ
header_len = 12

abbrev pub max_name_len : ℕ
max_name_len = 253

pub record Question : Type 0 where
  pub id : ℕ
  pub name : List ℕ
  pub type : ℕ
  pub end : ℕ
  pub flags : ℕ

-- `binary.BigEndian.Uint16`
abbrev pub uint16 : List ℕ → ℕ → ℕ
uint16 m i = byte_at m i * 256 + byte_at m (i + 1)

-- `ToLower` of a label of ASCII bytes.
abbrev pub lower_byte : ℕ → ℕ
lower_byte b = if leb 65 b && leb b 90 then b + 32 else b

-- The loop over the labels from an offset: the labels and the offset behind them. A length of 64 or
-- more has one of the two bits of a compression pointer.
unfoldable pub read_labels : List ℕ → ℕ → ℕ → Option (List (List ℕ) × ℕ)
read_labels m zero i = none
read_labels m (suc fuel) i = elim (leb (length m) i) [
  | true ↦ none
  | false ↦ elim (byte_at m i == 0) [
    | true ↦ some ([], i + 1)
    | false ↦ elim (leb 64 (byte_at m i) || ltb (length m) (i + 1 + byte_at m i)) [
      | true ↦ none
      | false ↦ do
        (labels, end) ← read_labels m fuel (i + 1 + byte_at m i)
        some (map lower_byte (bytes_from m (i + 1) (byte_at m i)) ∷ labels, end)
    ]
  ]
]

abbrev pub join_labels : List (List ℕ) → List ℕ
join_labels [] = []
join_labels (l ∷ []) = l
join_labels (l ∷ k ∷ ls) = l ++ (46 ∷ join_labels (k ∷ ls))

-- Every round of the loop goes on by a byte at least.
unfoldable pub parse_question : List ℕ → Option Question
parse_question m = if ltb (length m) header_len || ltb (uint16 m 4) 1 then none else (do
  (labels, i) ← read_labels m (suc (length m)) header_len
  if ltb (length m) (i + 4) || ltb max_name_len (length (join_labels labels))
      then none
      else some (record {
        id = uint16 m 0;
        name = join_labels labels;
        type = uint16 m i;
        end = i + 4;
        flags = uint16 m 2;
      }))

unfoldable pub rcode : List ℕ → ℤ
rcode m = if ltb (length m) header_len then negsuc 0 else pos (byte_at m 3 % 16)

-- The flags, the bits QR, RD as asked, RA and the response code, are disjoint and add up.
unfoldable pub answer_flags : ℕ → ℕ → ℕ
answer_flags flags code = 32768 + flags / 256 % 2 * 256 + 128 + code % 16

-- A question's end is behind the header.
unfoldable pub answer : List ℕ → Question → ℕ → List ℕ
answer query q code =
    let flags = answer_flags q.flags code in
    byte_at query 0
    ∷ byte_at query 1
    ∷ flags / 256
    ∷ flags % 256
    ∷ 0
    ∷ 1
    ∷ 0
    ∷ 0
    ∷ 0
    ∷ 0
    ∷ 0
    ∷ 0
    ∷ bytes_from query header_len (q.end - header_len)
