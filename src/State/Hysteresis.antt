-- ===== src/State/Hysteresis.antt =====
-- What the rounds make of a host: the counters against a reading of the whole history.
use excubra.Prelude.{
  ℕ, suc, ◌≡◌, refl, inl, inr, Bool, true, false, List, [], ◌∷◌, arith, leb, if◌then◌else◌,
  Bool-cases, ◌&&◌, ◌||◌, not, ◌==◌, ◌≢◌, ◌∙◌,
}
use excubra.GoTime.{Time}
use excubra.Wire.{Round}
use excubra.State.Types.{Host, HostState, unknown, up, down}
use excubra.State.Topology.{reset_host}
use excubra.State.Round.{succeed, fail, round_host}

-- A history, newest round first.
abbrev pub History : Type 0
History = List (Round × Time)

unfoldable pub play : Host → History → Host
unfolding round_host
play h [] = h
play h ((r, at) ∷ rs) = round_host (play h rs) r at

abbrev pub oks : History → List Bool
oks [] = []
oks ((r, at) ∷ rs) = r.ok ∷ oks rs

-- The state by the last rounds alone: two that are ok say up, three that failed say down, and
-- anything else says what was so before.
unfoldable pub verdict : List Bool → HostState
verdict [] = unknown
verdict (true ∷ []) = unknown
verdict (true ∷ true ∷ bs) = up
verdict (true ∷ false ∷ bs) = verdict (false ∷ bs)
verdict (false ∷ []) = unknown
verdict (false ∷ true ∷ bs) = verdict (true ∷ bs)
verdict (false ∷ false ∷ []) = unknown
verdict (false ∷ false ∷ true ∷ bs) = verdict (true ∷ bs)
verdict (false ∷ false ∷ false ∷ bs) = down

-- The length of the run of equal results at the head.
unfoldable pub run_of : Bool → List Bool → ℕ
run_of b [] = 0
run_of true (true ∷ bs) = suc (run_of true bs)
run_of true (false ∷ bs) = 0
run_of false (false ∷ bs) = suc (run_of false bs)
run_of false (true ∷ bs) = 0

abbrev Tracks : Host → List Bool → Type 0
Tracks h bs =
    (h.observed ≡ verdict bs) × (h.successes ≡ run_of true bs) × (h.failures ≡ run_of false bs)

verdict-true :
    (bs : List Bool)
    → verdict (true ∷ bs) ≡ (if leb 2 (suc (run_of true bs)) then up else verdict bs)
unfolding verdict run_of
verdict-true [] = refl
verdict-true (true ∷ bs) = ground arith
verdict-true (false ∷ bs) = refl

verdict-false :
    (bs : List Bool)
    → verdict (false ∷ bs) ≡ (if leb 3 (suc (run_of false bs)) then down else verdict bs)
unfolding verdict run_of
verdict-false [] = refl
verdict-false (true ∷ bs) = refl
verdict-false (false ∷ []) = refl
verdict-false (false ∷ true ∷ bs) = refl
verdict-false (false ∷ false ∷ bs) = ground arith

succeed-Tracks :
    (h : Host) (at : Time) (bs : List Bool) → Tracks h bs → Tracks (succeed h at) (true ∷ bs)
unfolding succeed run_of
succeed-Tracks h at bs t = ground (arith, verdict-true bs)

fail-Tracks :
    (h : Host) (r : Round) (at : Time) (bs : List Bool)
    → Tracks h bs
    → Tracks (fail h r at) (false ∷ bs)
unfolding fail run_of
fail-Tracks h r at bs t = ground (arith, verdict-false bs)

-- What a round writes before it is judged.
abbrev read : Host → Round → Host
read h r = record h { last_box_time = r.at; last_checks = r.checks }

step-Tracks :
    (h : Host) (r : Round) (at : Time) (bs : List Bool)
    → Tracks h bs
    → Tracks (round_host h r at) (r.ok ∷ bs)
unfolding round_host
step-Tracks h r at bs t = elim (Bool-cases r.ok) [
  | inl e ↦ rw e (succeed-Tracks (read h r) at bs t)
  | inr e ↦ rw e (fail-Tracks (read h r) r at bs t)
]

play-Tracks : (h : Host) (rs : History) → Tracks (play (reset_host h) rs) (oks rs)
unfolding play reset_host verdict run_of
play-Tracks h [] = (refl, refl, refl)
play-Tracks h ((r, at) ∷ rs) = step-Tracks (play (reset_host h) rs) r at (oks rs) (play-Tracks h rs)

-- Whatever rounds a reset host has been through, it is observed to be what the history says: `up`
-- from two rounds in a row that were ok, `down` from three that failed, until the other happens.
pub play-verdict : (h : Host) (rs : History) → (play (reset_host h) rs).observed ≡ verdict (oks rs)
play-verdict h rs = (play-Tracks h rs).0

-- When the run of equal results at the head of a history began.
unfoldable pub began : History → Time
began [] = 0
began ((r, at) ∷ []) = at
began ((r, at) ∷ (q, before) ∷ rs) =
    let rest = began ((q, before) ∷ rs) in
    if (r.ok && q.ok) || (not r.ok && not q.ok) then rest else at

round_start :
    (h : Host) (r : Round) (at : Time)
    → (round_host h r at).run_start
      ≡ (if (if r.ok then h.successes == 0 else h.failures == 0) then at else h.run_start)
unfolding round_host succeed fail
round_start h r at = ground arith

play_start :
    (h : Host) (r : Round) (at : Time) (rs : History)
    → (play (reset_host h) ((r, at) ∷ rs)).run_start ≡ began ((r, at) ∷ rs)
unfolding play began run_of
play_start h r at [] = ground (arith, round_start (reset_host h) r at, play-Tracks h [])
play_start h r at ((q, before) ∷ rs) =
    let earlier = play (reset_host h) ((q, before) ∷ rs) in
    ground
      (arith, round_start earlier r at, play-Tracks h ((q, before) ∷ rs), play_start h q before rs)

round_since :
    (h : Host) (r : Round) (at : Time)
    → (round_host h r at).observed ≢ h.observed
    → (round_host h r at).since ≡ (round_host h r at).run_start
unfolding round_host succeed fail
round_since h r at n = elim (Bool-cases r.ok) [ inl e ↦ ground arith | inr e ↦ ground arith ]

-- A round that changes what is observed dates the change back to the first round of the run.
pub play-since :
    (h : Host) (r : Round) (at : Time) (rs : History)
    → (play (reset_host h) ((r, at) ∷ rs)).observed ≢ (play (reset_host h) rs).observed
    → (play (reset_host h) ((r, at) ∷ rs)).since ≡ began ((r, at) ∷ rs)
unfolding play
play-since h r at rs n = round_since (play (reset_host h) rs) r at n ∙ play_start h r at rs
