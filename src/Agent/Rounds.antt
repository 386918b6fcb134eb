-- ===== src/Agent/Rounds.antt =====
-- loop.go: the rounds that wait for a heartbeat, `addRound`, `takeRounds` and `putRounds`.
use excubra.Prelude.{
  ℕ, ◌+◌, ◌-◌, String, Bool, none, some, List, [], ◌∷◌, ◌++◌, ltb, if◌then◌else◌, length, drop,
  str_lt, sort_by,
}
use excubra.GoMap.{Map, lookup, insert}
use excubra.Wire.{Round, HostReport}

abbrev pub max_rounds_per_host : ℕ
max_rounds_per_host = 10

pub record Buffer : Type 0 where
  pub rounds : Map (List Round)
  pub dropped : ℕ

-- m[k]
abbrev pub rounds_of : String → Map (List Round) → List Round
rounds_of k m = elim (lookup k m) [ none ↦ [] | some rs ↦ rs ]

-- The newest rounds of a host are kept, the others are counted.
unfoldable pub keep_newest : String → List Round → Buffer → Buffer
keep_newest host rs b =
    if ltb max_rounds_per_host (length rs)
    then record {
      rounds = insert host (drop (length rs - max_rounds_per_host) rs) b.rounds;
      dropped = b.dropped + (length rs - max_rounds_per_host);
    }
    else record b { rounds = insert host rs b.rounds }

unfoldable pub add_round : Buffer → String → Round → Buffer
add_round b host r = keep_newest host (rounds_of host b.rounds ++ (r ∷ [])) b

abbrev pub reports_of : Map (List Round) → List HostReport
reports_of [] = []
reports_of ((k, rs) ∷ m) = record { host_id = k; rounds = rs } ∷ reports_of m

abbrev pub id_earlier : HostReport → HostReport → Bool
id_earlier a b = str_lt a.host_id b.host_id

unfoldable pub take_rounds : Buffer → List HostReport × Buffer
take_rounds b = (sort_by id_earlier (reports_of b.rounds), record b { rounds = [] })

unfoldable pub put_rounds : Buffer → List HostReport → Buffer
put_rounds b [] = b
put_rounds b (rep ∷ reps) =
    put_rounds (keep_newest rep.host_id (rep.rounds ++ rounds_of rep.host_id b.rounds) b) reps
