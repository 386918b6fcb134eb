-- ===== src/Dnswatch/Detect.antt =====
-- detect.go: the sliding windows and the judgement of names.
use Prim.Native.String.{[] as empty, ◌∷◌ as ◌:>◌, len}
use Prim.Native.Char.{Char, code}
use excubra.Prelude.{
  ℕ, zero, suc, ◌+◌, ◌-◌, ◌*◌, ◌/◌, String, Bool, true, false, ◌&&◌, ◌||◌, Option, none, some, List,
  [], ◌∷◌, map, ltb, leb, ◌==◌, str_eq, str_lt, if◌then◌else◌, length, pos, ltb_ℤ, sort_by,
}
use excubra.GoMap.{Map, insert, erase_if}
use excubra.GoTime.{Time, minute, time_sub}
use excubra.GoText.{split, join, is_digit}

abbrev pub window : ℕ
window = 5 * minute

abbrev pub dga_threshold : ℕ
dga_threshold = 20

abbrev pub tunnel_threshold : ℕ
tunnel_threshold = 30

abbrev pub max_clients : ℕ
max_clients = 1024

abbrev pub max_domains : ℕ
max_domains = 64

abbrev pub long_name : ℕ
long_name = 50

abbrev pub qtype_txt : ℕ
qtype_txt = 16

abbrev pub qtype_null : ℕ
qtype_null = 10

pub record Counter : Type 0 where
  pub items : Map Time
  pub pruned : Time
  pub alarm : Bool

unfoldable pub new_counter : Time → Counter
new_counter now = record { items = []; pruned = now; alarm = false }

-- What the sensor remembers of a source address.
pub record Client : Type 0 where
  pub nx : Counter
  pub tunnels : Map Counter
  pub seen : Time

unfoldable pub add_key : Counter → String → Time → Counter × ℕ
add_key c key now =
    let items = insert key now c.items in
    if ltb_ℤ (pos (window / 4)) (time_sub now c.pruned)
    then (let kept = erase_if (λ t. ltb_ℤ (pos window) (time_sub now t)) items in
        (
          record {
            items = kept;
            pruned = now;
            alarm = if length kept == 0 then false else c.alarm;
          },
          length kept,
        ))
    else (record c { items = items }, length items)

abbrev pub keys : Map Time → List String
keys = map (λ e. e.0)

abbrev pub first : ℕ → List String → List String
first zero ss = []
first (suc n) [] = []
first (suc n) (s ∷ ss) = s ∷ first n ss

unfoldable pub sample : Counter → ℕ → String
sample c n = join ", " (first n (sort_by str_lt (keys c.items)))

abbrev pub has_char : ℕ → String → Bool
has_char n empty = false
has_char n (c :> s) = code c == n || has_char n s

abbrev pub ends_with : String → String → Bool
ends_with suffix empty = str_eq suffix ""
ends_with suffix (c :> s) = str_eq suffix (c :> s) || ends_with suffix s

-- What the loop over a label has counted.
pub record Tally : Type 0 where
  pub letters : ℕ
  pub vowels : ℕ
  pub digits : ℕ
  pub run : ℕ
  pub max_run : ℕ

abbrev pub is_vowel : Char → Bool
is_vowel c = has_char (code c) "aeiouy"

abbrev pub is_lower : Char → Bool
is_lower c = leb 97 (code c) && leb (code c) 122

unfoldable pub tally_char : Tally → Char → Tally
tally_char t c =
    if is_digit c
    then record t { digits = t.digits + 1; run = 0 }
    else if is_vowel c
    then record t { letters = t.letters + 1; vowels = t.vowels + 1; run = 0 }
    else if is_lower c
    then record t {
      letters = t.letters + 1;
      run = t.run + 1;
      max_run = if ltb t.max_run (t.run + 1) then t.run + 1 else t.max_run;
    }
    else record t { run = 0 }

unfoldable pub tally : Tally → String → Tally
tally t empty = t
tally t (c :> s) = tally (tally_char t c) s

abbrev pub no_tally : Tally
no_tally = record { letters = 0; vowels = 0; digits = 0; run = 0; max_run = 0 }

-- The verdict on a label. The quotient of the two counts is below a quarter, as a float64 too,
-- exactly if four times the one is below the other.
unfoldable pub random_label : String → Bool
random_label label =
    let t = tally no_tally label in
    if ltb (len label) 7
    then false
    else if t.letters == 0
    then leb 7 t.digits
    else ltb (4 * t.vowels) t.letters || leb 5 t.max_run || (leb 12 (len label) && leb 3 t.digits)

-- The label that is judged: the first, or the second if it is longer and not the last.
unfoldable pub judged : List String → Option String
judged [] = none
judged (a ∷ []) = none
judged (a ∷ b ∷ []) = some a
judged (a ∷ b ∷ c ∷ ls) = if ltb (len a) (len b) then some b else some a

unfoldable pub random_looking : String → Bool
random_looking name =
    if has_char 95 name || ends_with ".arpa" name || ends_with ".local" name
    then false
    else elim (judged (split 46 name)) [ none ↦ false | some label ↦ random_label label ]

abbrev pub drop_labels : ℕ → List String → List String
drop_labels zero ls = ls
drop_labels (suc n) [] = []
drop_labels (suc n) (l ∷ ls) = drop_labels n ls

abbrev pub label_at : ℕ → List String → String
label_at i [] = ""
label_at zero (l ∷ ls) = l
label_at (suc i) (l ∷ ls) = label_at i ls

abbrev pub is_second_level : String → Bool
is_second_level s =
    str_eq s "co"
    || str_eq s "com"
    || str_eq s "org"
    || str_eq s "net"
    || str_eq s "gov"
    || str_eq s "ac"
    || str_eq s "edu"

-- How many labels the registrable domain has.
unfoldable pub base_length : List String → ℕ
base_length ls = if leb 3 (length ls) && is_second_level (label_at (length ls - 2) ls) then 3 else 2

unfoldable pub registrable : String → String
registrable name =
    let labels = split 46 name in
    let n = base_length labels in
    if leb (length labels) n then name else join "." (drop_labels (length labels - n) labels)

abbrev pub has_long : List String → Bool
has_long [] = false
has_long (l ∷ ls) = leb 20 (len l) || has_long ls

unfoldable pub tunnel_like : String → ℕ → Bool
tunnel_like name qtype =
    if qtype == qtype_txt || qtype == qtype_null
    then true
    else if ltb (len name) long_name
    then false
    else has_long (split 46 name)
