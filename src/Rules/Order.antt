-- ===== src/Rules/Order.antt =====
-- The order of a report, and findings inside and outside.
use excubra.Prelude.{
  ℕ, ◌≤◌, ◌≡◌, Bool, true, false, not, List, arith, ltb, ◌==◌, str_eq, str_lt, if◌then◌else◌,
  sort_by, Rising, ordered-Rising,
}
use excubra.GoTime.{Time}
use excubra.Rules.{rank, Finding, Service, finding_earlier}
use excubra.Rules.Inside.{inside_all, evaluate_scan}
use excubra.Rules.Outside.{outside_all, evaluate_external}

abbrev pub grade : Finding → ℕ
grade f = rank f.severity

by_grade-below : (m n : ℕ) (b : Bool) → (if not (m == n) then ltb m n else b) ≡ true → m ≤ n
by_grade-below m n b e = ground arith

by_grade-above : (m n : ℕ) (b : Bool) → (if not (m == n) then ltb m n else b) ≡ false → n ≤ m
by_grade-above m n b e = ground arith

abbrev by_text : Finding → Finding → Bool
by_text f g = if not (str_eq f.rule g.rule) then str_lt f.rule g.rule else str_lt f.key g.key

sort_by-grade : (fs : List Finding) → Rising grade (sort_by finding_earlier fs)
sort_by-grade =
    ordered-Rising grade finding_earlier
      (λ f g e. by_grade-below (grade f) (grade g) (by_text f g) e)
      (λ f g e. by_grade-above (grade f) (grade g) (by_text f g) e)

-- Both reports have the most serious findings first.
pub most_serious_first :
    (now : Time) (svcs : List Service)
    → Rising grade (evaluate_scan now svcs) × Rising grade (evaluate_external now svcs)
unfolding evaluate_scan evaluate_external
most_serious_first now svcs =
    (sort_by-grade (inside_all now svcs), sort_by-grade (outside_all now svcs))
