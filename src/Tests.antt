-- ===== src/Tests.antt =====
-- Runs of the smaller parts: versions, the fleet guard, DNS messages, the blocklist and identifiers.
use excubra.Prelude.{ℕ, ◌≡◌, refl, String, true, false, none, some, List, [], ◌∷◌, arith, ◌*◌, suc}
use excubra.GoMap.{lookup}
use excubra.Blocklist.{
  Service, clean_domain, accept_domain, parse_hosts, hosts_of, source_of, listed, apply_extra,
}
use excubra.Blocklist.Extra.{apply_extra_table}
use excubra.Id
use excubra.Id.{encode, encode_bytes, groups, last_group, secret, count-encode}
use excubra.GoTime.{Time, hour}
use excubra.Version.{Semver, parse, parse_parts, compatible}
use excubra.Fleet.{BoxRow, behind, behind_among, counts, lags}
use excubra.Dnswatch.Detect.{
  random_looking, random_label, judged, tally, tally_char, registrable, base_length,
}
use excubra.Dnswatch.Message.{Question, parse_question, read_labels}
use excubra.Dnswatch.Labels.{Decides, read_labels-Decides}

abbrev version_of : ℕ → ℕ → ℕ → Semver
version_of major minor patch = record { major = major; minor = minor; patch = patch }

versions :
    (parse " v1.2.3-rc1" ≡ some (version_of 1 2 3))
    × (parse "1.2" ≡ none)
    × (parse "1.x.3" ≡ none)
    × (compatible (version_of 0 7 4) (version_of 0 10 0) ≡ false)
unfolding parse parse_parts compatible
versions = (refl, refl, refl, refl)

abbrev row : String → String → Time → BoxRow
row id version seen = record {
  id = id;
  name = "";
  agent_version = version;
  revoked_at = none;
  last_seen = seen;
}

abbrev fleet : List BoxRow
fleet = row "box_1" "0.9.1" (1000 * hour) ∷ row "box_2" "0.7.4" (100 * hour) ∷ []

-- The second box has been away for longer than two weeks.
clear : behind (some fleet) (version_of 0 10 0) (1001 * hour) ≡ some []
unfolding behind behind_among counts lags parse parse_parts compatible
clear = refl

held :
    behind (some fleet) (version_of 0 10 0) (101 * hour)
    ≡ some (record { id = "box_2"; name = "box_2"; version = "0.7.4" } ∷ [])
unfolding behind behind_among counts lags parse parse_parts compatible
held = refl

judgements :
    (random_looking "xkqzvbnwrtpl.com" ≡ true)
    × (random_looking "wikipedia.org" ≡ false)
    × (registrable "a.b.example.co.uk" ≡ "example.co.uk")
    × (registrable "www.example.com" ≡ "example.com")
unfolding random_looking random_label judged tally tally_char registrable base_length
judgements = (refl, refl, refl, refl)

-- A query for the TXT record of A.bc.
abbrev query : List ℕ
query =
    18 ∷ 52 ∷ 1 ∷ 0 ∷ 0 ∷ 1 ∷ 0 ∷ 0 ∷ 0 ∷ 0 ∷ 0 ∷ 0 ∷ 1 ∷ 65 ∷ 2 ∷ 98 ∷ 99 ∷ 0 ∷ 0 ∷ 16 ∷ 0 ∷ 1 ∷ []

abbrev asked : Question
asked = record { id = 4660; name = 97 ∷ 46 ∷ 98 ∷ 99 ∷ []; type = 16; end = 22; flags = 256 }

parsed : parse_question query ≡ some asked
unfolding parse_question read_labels
parsed = refl

read_labels-Decides_example : Decides query 12 (read_labels query (suc 22) 12)
read_labels-Decides_example = read_labels-Decides query 22 12 (omega arith)

cleaned :
    (clean_domain " Evil.Example.com.:80" ≡ some "evil.example.com.")
    × (clean_domain "Evil.Example.com" ≡ some "evil.example.com")
    × (clean_domain "10.0.0.1" ≡ none)
    × (clean_domain "localhost" ≡ none)
unfolding clean_domain accept_domain
cleaned = (refl, refl, refl, refl)

hosts_file :
    parse_hosts "# list\n0.0.0.0 evil.example.com\n\nbad.example.org\nevil.example.com\n"
    ≡ "evil.example.com" ∷ "bad.example.org" ∷ []
unfolding parse_hosts hosts_of clean_domain accept_domain
hosts_file = refl

abbrev service : Service
service = record {
  domains = ("evil.example.com", "urlhaus") ∷ ("old.example.org", "extra") ∷ [];
  body = "";
  version = "";
  fetched_at = 1000 * hour;
  sources = [];
}

found :
    (source_of service "Www.Evil.Example.com." ≡ some "urlhaus")
    × (source_of service "example.com" ≡ none)
unfolding source_of listed
found = (refl, refl)

apply_extra_table_example :
    lookup "old.example.org" (apply_extra (λ body. body) service ("new.example.org" ∷ [])).0.domains
    ≡ none
apply_extra_table_example =
    apply_extra_table (λ body. body) service ("new.example.org" ∷ []) "old.example.org"
      ((refl, tt), (tt, tt))

abbrev random_bytes : List ℕ
random_bytes = 153 ∷ 7 ∷ 255 ∷ 0 ∷ 42 ∷ 17 ∷ 99 ∷ 201 ∷ []

encoded : (Id.new "box" random_bytes ≡ "box_k43zy01a25hw") × (secret (255 ∷ []) ≡ "zw")
unfolding Id.new secret encode encode_bytes groups last_group
encoded = (refl, refl)
