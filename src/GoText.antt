-- ===== src/GoText.antt =====
-- Packages `strings` and `strconv`, as far as the program uses them.
use Prim.Native.String.{[] as empty, ◌∷◌ as ◌:>◌, ◌++◌ as ◌<>◌, char_at}
use Prim.Native.Char.{Char, code}
use excubra.Prelude.{
  ℕ, zero, suc, ◌+◌, ◌-◌, ◌*◌, ◌/◌, ◌%◌, ◌^◌, String, Bool, Option, none, some, List, [], ◌∷◌, ltb,
  leb, ◌==◌, ◌&&◌, ◌||◌, if◌then◌else◌, ℤ, pos, negsuc,
}

-- The digit of a number below 16.
abbrev pub digit : ℕ → String
digit n = char_at "0123456789abcdef" n :> empty

abbrev pub decimal : ℕ → ℕ → String
decimal zero n = ""
decimal (suc fuel) n =
    let rest = decimal fuel (n / 10) in if ltb n 10 then digit n else rest <> digit (n % 10)

-- `Itoa`; an int has at most 19 digits.
abbrev pub itoa : ℕ → String
itoa n = decimal 20 n

abbrev pub itoa_ℤ : ℤ → String
itoa_ℤ (pos n) = itoa n
itoa_ℤ (negsuc n) = "-" <> itoa (suc n)

abbrev pub is_digit : Char → Bool
is_digit c = leb 48 (code c) && leb (code c) 57

abbrev pub digits_value : String → ℕ → Option ℕ
digits_value empty n = some n
digits_value (c :> s) n =
    let rest = digits_value s (n * 10 + (code c - 48)) in if is_digit c then rest else none

-- The digits of a number that fits in an int.
abbrev pub natural : String → Option ℕ
natural empty = none
natural s = elim (digits_value s 0) [
  | none ↦ none
  | some n ↦ if ltb n (2 ^ 63) then some n else none
]

-- `Atoi` takes a plus sign.
abbrev pub after_plus : String → String
after_plus empty = ""
after_plus (c :> s) = if code c == 43 then s else c :> s

abbrev pub letter_in : List (ℕ × Char) → Char → Char
letter_in [] c = c
letter_in ((n, d) ∷ ls) c = let rest = letter_in ls c in if n == code c then d else rest

abbrev pub lower_char : Char → Char
lower_char = letter_in (
    (65, "a")
    ∷ (66, "b")
    ∷ (67, "c")
    ∷ (68, "d")
    ∷ (69, "e")
    ∷ (70, "f")
    ∷ (71, "g")
    ∷ (72, "h")
    ∷ (73, "i")
    ∷ (74, "j")
    ∷ (75, "k")
    ∷ (76, "l")
    ∷ (77, "m")
    ∷ (78, "n")
    ∷ (79, "o")
    ∷ (80, "p")
    ∷ (81, "q")
    ∷ (82, "r")
    ∷ (83, "s")
    ∷ (84, "t")
    ∷ (85, "u")
    ∷ (86, "v")
    ∷ (87, "w")
    ∷ (88, "x")
    ∷ (89, "y")
    ∷ (90, "z")
    ∷ [])

-- `ToLower` of an ASCII text.
abbrev pub to_lower : String → String
to_lower empty = ""
to_lower (c :> s) = lower_char c :> to_lower s

abbrev pub join : String → List String → String
join sep [] = ""
join sep (s ∷ []) = s
join sep (s ∷ t ∷ ss) = s <> (sep <> join sep (t ∷ ss))

-- `unicode.IsSpace`
abbrev pub is_space : Char → Bool
is_space c =
    let n = code c in
    (leb 9 n && leb n 13)
    || n == 32
    || n == 133
    || n == 160
    || n == 5760
    || (leb 8192 n && leb n 8202)
    || n == 8232
    || n == 8233
    || n == 8239
    || n == 8287
    || n == 12288

abbrev pub trim_left : String → String
trim_left empty = ""
trim_left (c :> s) = let rest = trim_left s in if is_space c then rest else c :> s

abbrev pub cons_unless : Bool → Char → String → String
cons_unless b c empty = if b then "" else c :> empty
cons_unless b c (d :> s) = c :> (d :> s)

abbrev pub trim_right : String → String
trim_right empty = ""
trim_right (c :> s) = cons_unless (is_space c) c (trim_right s)

abbrev pub trim_space : String → String
trim_space s = trim_right (trim_left s)

abbrev pub cons_first : Char → List String → List String
cons_first c [] = (c :> empty) ∷ []
cons_first c (s ∷ ss) = (c :> s) ∷ ss

-- `Split` by one character.
abbrev pub split : ℕ → String → List String
split sep empty = "" ∷ []
split sep (c :> s) =
    let rest = split sep s in if code c == sep then "" ∷ rest else cons_first c rest
