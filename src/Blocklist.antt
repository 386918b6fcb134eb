-- ===== src/Blocklist.antt =====
-- internal/server/blocklist/blocklist.go: the domains that the DNS sensors watch for. What the network
-- and the store answer are arguments, and so are the digest of a body (the first eight bytes of its
-- SHA-256 in hexadecimal) and the domains read from the CSV export.
pub mod Domains
pub mod Extra
use Prim.Native.String.{[] as empty, ◌∷◌ as ◌:>◌, ◌++◌ as ◌<>◌, len}
use Prim.Native.Char.{Char, code}
use excubra.Prelude.{
  ℕ, zero, suc, ◌+◌, ◌*◌, String, Bool, true, false, not, ◌&&◌, ◌||◌, Option, none, some, List, [],
  ◌∷◌, leb, ltb, ◌==◌, str_eq, str_lt, if◌then◌else◌, length, pos, ltb_ℤ, map, contains, add,
  sort_by,
}
use excubra.GoMap.{Map, lookup, insert}
use excubra.GoTime.{Time, hour, time_sub, zero_time}
use excubra.GoText.{to_lower, trim_space, trim_right, is_space, split, join, is_digit}

abbrev pub fresh : ℕ
fresh = 24 * hour

abbrev pub max_domains : ℕ
max_domains = 200_000

pub record Service : Type 0 where
  pub domains : Map String
  pub body : String
  pub version : String
  pub fetched_at : Time
  pub sources : Map ℕ

-- `TrimSuffix` of a dot.
abbrev pub trim_dot : String → String
trim_dot empty = ""
trim_dot (c :> s) = if str_eq (c :> s) "." then "" else c :> trim_dot s

abbrev pub until_colon : String → String
until_colon empty = ""
until_colon (c :> s) = let rest = until_colon s in if code c == 58 then "" else c :> rest

abbrev pub has_dot : String → Bool
has_dot empty = false
has_dot (c :> s) = code c == 46 || has_dot s

abbrev pub is_name_char : Char → Bool
is_name_char c = (leb 97 (code c) && leb (code c) 122) || code c == 45 || code c == 95

abbrev pub is_host_char : Char → Bool
is_host_char c = is_name_char c || is_digit c || code c == 46

abbrev pub all_host : String → Bool
all_host empty = true
all_host (c :> s) = is_host_char c && all_host s

-- Whether no character shows that the text is a name and not an address.
abbrev pub digits_only : String → Bool
digits_only empty = true
digits_only (c :> s) = not (is_name_char c) && digits_only s

unfoldable pub accept_domain : String → Option String
accept_domain d =
    if str_eq d ""
      || str_eq d "localhost"
      || str_eq d "localhost.localdomain"
      || not (has_dot d)
      || ltb 253 (len d)
    then none
    else if not (all_host d) || digits_only d
    then none
    else some d

unfoldable pub clean_domain : String → Option String
clean_domain s = accept_domain (until_colon (to_lower (trim_dot (trim_space s))))

-- The last of the `Fields` of a line that is neither empty nor begins or ends with space.
abbrev pub last_field : String → String → String
last_field empty field = field
last_field (c :> s) field = last_field s (if is_space c then "" else field <> (c :> empty))

abbrev pub is_comment : String → Bool
is_comment empty = true
is_comment (c :> s) = code c == 35

-- The loop of `parseHosts` over the lines, with the domains seen.
unfoldable pub hosts_of : List String → List String → List String
hosts_of [] seen = []
hosts_of (l ∷ ls) seen = elim (is_comment (trim_space l)) [
  | true ↦ hosts_of ls seen
  | false ↦ elim (clean_domain (last_field (trim_space l) "")) [
    | none ↦ hosts_of ls seen
    | some d ↦ elim (contains d seen) [
      | true ↦ hosts_of ls seen
      | false ↦ d ∷ hosts_of ls (d ∷ seen)
    ]
  ]
]

-- Lines are shorter than the scanner's buffer of a megabyte.
unfoldable pub parse_hosts : String → List String
parse_hosts b = hosts_of (split 10 b) []

-- The loop of `Contains`: a domain and its parents of two labels at least.
unfoldable pub listed : Map String → List String → Option String
listed domains [] = none
listed domains (l ∷ []) = none
listed domains (l ∷ k ∷ ls) = elim (lookup (join "." (l ∷ k ∷ ls)) domains) [
  | some src ↦ some src
  | none ↦ listed domains (k ∷ ls)
]

unfoldable pub source_of : Service → String → Option String
source_of s domain = listed s.domains (split 46 (to_lower (trim_dot domain)))

abbrev pub keys : Map String → List String
keys = map (λ e. e.0)

abbrev pub tally_of : Map ℕ → String → ℕ
tally_of m src = elim (lookup src m) [ none ↦ 0 | some n ↦ n ]

abbrev pub count_sources : Map String → Map ℕ → Map ℕ
count_sources [] counts = counts
count_sources ((d, src) ∷ ds) counts =
    count_sources ds (insert src (tally_of counts src + 1) counts)

abbrev pub first : ℕ → List String → List String
first zero ds = []
first (suc n) [] = []
first (suc n) (d ∷ ds) = d ∷ first n ds

abbrev pub lines : List String → String
lines [] = ""
lines (d ∷ ds) = d <> ("\n" <> lines ds)

unfoldable pub rebuild : (String → String) → Service → Service
rebuild digest s =
    let list = first max_domains (sort_by str_lt (keys s.domains)) in
    record s {
      sources = count_sources s.domains [];
      body = lines list;
      version = if length list == 0 then "" else digest (lines list);
    }

-- The first loop of `applyExtra`: the operator's domains that are no longer wanted go.
abbrev pub is_stale : List String → String → String → Bool
is_stale extra d src = str_eq src "extra" && not (contains d extra)

unfoldable pub drop_stale : List String → Map String → Map String
drop_stale extra [] = []
drop_stale extra ((d, src) ∷ ds) =
    let rest = drop_stale extra ds in if is_stale extra d src then rest else (d, src) ∷ rest

abbrev pub any_stale : List String → Map String → Bool
any_stale extra [] = false
any_stale extra ((d, src) ∷ ds) = is_stale extra d src || any_stale extra ds

-- Its second loop: the wanted ones that are not listed are added.
unfoldable pub add_wanted : List String → Map String → Map String × Bool
add_wanted [] ds = (ds, false)
add_wanted (d ∷ extra) ds = elim (lookup d ds) [
  | some src ↦ add_wanted extra ds
  | none ↦ ((add_wanted extra (insert d "extra" ds)).0, true)
]

unfoldable pub apply_extra : (String → String) → Service → List String → Service × Bool
apply_extra digest s extra =
    let kept = drop_stale extra s.domains in
    let (domains, added) = add_wanted extra kept in
    if any_stale extra s.domains || added
    then (rebuild digest (record s { domains = domains }), true)
    else (record s { domains = domains }, false)

-- What fetching a source came to.
pub data Fetch : Type 0 where
  off failed : Fetch
  answered : List String → Fetch

abbrev pub put_all : String → List String → Map String → Map String
put_all src [] m = m
put_all src (d ∷ ds) m = put_all src ds (insert d src m)

abbrev pub put_new : String → List String → Map String → Map String
put_new src [] m = m
put_new src (d ∷ ds) m = elim (lookup d m) [
  | none ↦ put_new src ds (insert d src m)
  | some s ↦ put_new src ds m
]

abbrev pub fetched_domains : Fetch → List String
fetched_domains (answered ds) = ds
fetched_domains _ = []

-- `Refresh`: the service and whether the list changed; `none` where no source answered.
unfoldable pub refresh :
    (String → String)
    → Service
    → Bool
    → Time
    → Fetch
    → Fetch
    → List String
    → Option (Service × Bool)
refresh digest s force now urlhaus threatfox extra =
    if not (ltb_ℤ (pos fresh) (time_sub now s.fetched_at)) && not force
    then some (apply_extra digest s extra)
    else (let first_list = put_all "urlhaus" (fetched_domains urlhaus) [] in
        let fetched = put_new "threatfox" (fetched_domains threatfox) first_list in
        if length fetched == 0
        then none
        else (let s1 =
              rebuild digest
                (record s { domains = put_all "extra" extra fetched; fetched_at = now }) in
            some (s1, not (str_eq s1.version s.version))))
