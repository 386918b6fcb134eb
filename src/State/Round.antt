-- ===== src/State/Round.antt =====
-- state.go: what one round of checks does to a host.
use excubra.Prelude.{◌+◌, String, not, ◌&&◌, List, [], ◌∷◌, leb, ◌==◌, if◌then◌else◌, add}
use excubra.GoMap.{insert}
use excubra.GoTime.{Time}
use excubra.Wire.{CheckResult, Round}
use excubra.State.Types.{Host, Machine, up, down, is_up, is_down, failures_to_down, successes_to_up}

abbrev pub failed_labels : List CheckResult → List String
failed_labels [] = []
failed_labels (c ∷ cs) = let rest = failed_labels cs in if c.ok then rest else c.type ∷ rest

-- The branch of `applyRound` for a round that is ok.
unfoldable pub succeed : Host → Time → Host
succeed h at =
    let h1 = record h { run_start = if h.successes == 0 then at else h.run_start } in
    let h2 = record h1 { successes = h1.successes + 1; failures = 0 } in
    if not (is_up h2.observed) && leb successes_to_up h2.successes
    then record h2 { observed = up; since = h2.run_start }
    else h2

-- Its branch for a round that failed.
unfoldable pub fail : Host → Round → Time → Host
fail h r at =
    let h1 = record h { run_start = if h.failures == 0 then at else h.run_start } in
    let h2 = record h1 {
      failures = h1.failures + 1;
      successes = 0;
      last_failed_checks = failed_labels r.checks;
    } in
    if not (is_down h2.observed) && leb failures_to_down h2.failures
    then record h2 { observed = down; since = h2.run_start; down_since = h2.run_start }
    else h2

unfoldable pub round_host : Host → Round → Time → Host
unfolding succeed fail
round_host h r at =
    let h1 = record h { last_box_time = r.at; last_checks = r.checks } in
    if r.ok then succeed h1 at else fail h1 r at

unfoldable pub apply_round : Machine → Host → Round → Time → Machine
unfolding round_host
apply_round m h r at = record m {
  hosts = insert h.id (round_host h r at) m.hosts;
  dirty_hosts = add h.id m.dirty_hosts;
}

-- The rounds of one report, in order; the host is the pointer that the loop keeps.
unfoldable pub apply_rounds : Machine → Host → List Round → Time → Machine
unfolding apply_round
apply_rounds m h [] at = m
apply_rounds m h (r ∷ rs) at = apply_rounds (apply_round m h r at) (round_host h r at) rs at
