-- ===== src/Sentinel/Counters.antt =====
-- sentinel.go: the sliding windows, and which of them goes when there are too many.
use excubra.Prelude.{
  ℕ, suc, zero, ◌/◌, String, false, none, some, List, [], ◌∷◌, ltb, leb, ◌==◌, ◌||◌, if◌then◌else◌,
  length, pos, ltb_ℤ, str_eq, sort_by,
}
use excubra.GoMap.{Map, lookup, insert, erase, erase_if}
use excubra.GoTime.{Time, time_sub, zero_time}
use excubra.GoText.{itoa, natural, join}
use excubra.Sentinel.Types.{Counter, Claim, window, max_sources, detail_ports}

-- `add`: the counter after a key and the number of distinct keys in it.
unfoldable pub count_key : Counter → String → Time → Counter × ℕ
count_key c key now =
    let items = insert key now c.items in
    if ltb_ℤ (pos (window / 4)) (time_sub now c.pruned)
    then (let kept = erase_if (λ t. ltb_ℤ (pos window) (time_sub now t)) items in
        (
          record {
            items = kept;
            pruned = now;
            alarm = if length kept == 0 then false else c.alarm;
          },
          length kept,
        ))
    else (record c { items = items }, length items)

-- The loop of `counterFor` over the windows.
abbrev pub stalest : Map Counter → String → Time → String
stalest [] best at = best
stalest ((k, c) ∷ m) best at =
    stalest m (if ltb c.pruned at then k else best) (if ltb c.pruned at then c.pruned else at)

-- The windows with one for the source in them, and that one.
unfoldable pub counter_for : Map Counter → String → Time → Map Counter × Counter
counter_for m source now = elim (lookup source m) [
  | some c ↦ (m, c)
  | none ↦
      let c : Counter = record { items = []; pruned = now; alarm = false } in
      let room = if leb max_sources (length m) then erase (stalest m "" now) m else m in
      (insert source c room, c)
]

abbrev pub oldest_claim : Map Claim → String → Time → String
oldest_claim [] best at = best
oldest_claim ((k, c) ∷ m) best at =
    let older = str_eq best "" || ltb c.seen at in
    oldest_claim m (if older then k else best) (if older then c.seen else at)

unfoldable pub drop_claim : Map Claim → Map Claim
drop_claim m = erase (oldest_claim m "" zero_time) m

abbrev pub ports_of : Map Time → List ℕ
ports_of [] = []
ports_of ((k, t) ∷ m) =
    let rest = ports_of m in elim (natural k) [ none ↦ rest | some p ↦ p ∷ rest ]

abbrev pub first_ports : ℕ → List ℕ → List String
first_ports n [] = []
first_ports zero (p ∷ ps) = "…" ∷ []
first_ports (suc n) (p ∷ ps) = itoa p ∷ first_ports n ps

unfoldable pub detail : Counter → String
detail c = join ", " (first_ports detail_ports (sort_by ltb (ports_of c.items)))
