-- ===== src/Sentinel/Frames.antt =====
-- sentinel.go: `parseSYN`. A frame is a list of bytes.
use Prim.Native.Nat.{bit_and}
use Prim.Native.String.{◌++◌ as ◌<>◌}
use excubra.Prelude.{
  ℕ, zero, suc, ◌+◌, ◌*◌, ◌/◌, ◌%◌, String, not, ◌||◌, Option, none, some, List, [], ◌∷◌, map, ltb,
  ◌==◌, if◌then◌else◌, length,
}
use excubra.GoText.{digit, itoa, join}

abbrev pub byte_at : List ℕ → ℕ → ℕ
byte_at [] i = 0
byte_at (b ∷ bs) zero = b
byte_at (b ∷ bs) (suc i) = byte_at bs i

abbrev pub drop_bytes : ℕ → List ℕ → List ℕ
drop_bytes zero bs = bs
drop_bytes (suc n) [] = []
drop_bytes (suc n) (b ∷ bs) = drop_bytes n bs

-- The bytes from a position, as many as asked for.
abbrev pub bytes_from : List ℕ → ℕ → ℕ → List ℕ
bytes_from f i zero = []
bytes_from f i (suc n) = byte_at f i ∷ bytes_from f (i + 1) n

abbrev pub hex_byte : ℕ → String
hex_byte b = digit (b / 16) <> digit (b % 16)

abbrev pub hardware_addr : List ℕ → String
hardware_addr bs = join ":" (map hex_byte bs)

abbrev pub dotted : List ℕ → String
dotted bs = join "." (map itoa bs)

pub record Syn : Type 0 where
  pub src_mac : String
  pub src : String
  pub dst : String
  pub port : ℕ

-- The length of the IPv4 header.
unfoldable pub header_length : List ℕ → ℕ
header_length f = bit_and (byte_at f 14) 15 * 4

unfoldable pub parse_syn : List ℕ → Option Syn
parse_syn f =
    let ihl = header_length f in
    let tcp = drop_bytes (14 + ihl) f in
    if ltb (length f) 54 || not (byte_at f 12 == 8) || not (byte_at f 13 == 0)
    then none
    else if ltb ihl 20 || ltb (length f) (14 + ihl + 20) || not (byte_at f 23 == 6)
    then none
    else if not (bit_and (byte_at f 20) 31 * 256 + byte_at f 21 == 0)
    then none
    else if not (bit_and (byte_at tcp 13) 18 == 2)
    then none
    else some (record {
      src_mac = hardware_addr (bytes_from f 6 6);
      src = dotted (bytes_from f 26 4);
      dst = dotted (bytes_from f 30 4);
      port = byte_at tcp 2 * 256 + byte_at tcp 3;
    })
