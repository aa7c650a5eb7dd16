-- ===== src/Analysis/Score/Thresholds.antt =====
-- internal/analysis/analyze.go: about verdictFor.
use scrutiny.Base.{
  ℕ, ◌^◌, ◌<◌, ◌≡◌, refl, ◌↔◌, Bool, false, not, ◌&&◌, List, [], ◌∷◌, arith, if◌then◌else◌, length,
  All,
}
use scrutiny.Schema.Anomaly.{
  Severity, Verdict, clean, suspicious, malicious, dimension_eq, Anomaly, anomaly_type_eq,
}
use scrutiny.Base.Eq.{nat_eq}
use scrutiny.Base.Int64.{Int64, add64}
use scrutiny.Base.Text.{text_eq}
use scrutiny.Schema.Platform.{context_eq}
use scrutiny.Schema.Baseline.{confidence_eq}
use scrutiny.Analysis.Score.{active_sum, risk_score, count_severity, verdict_for}
use scrutiny.Analysis.Score.{is_critical, is_high}
use scrutiny.Analysis.Score.Bounds.{IsSmall, total_weight, risk_score-exact}

-- No active finding has a severity that the test names.
abbrev pub NoneActive : (Severity → Bool) → List Anomaly → Type 0
NoneActive test = All (λ a. (not a.suppressed && test a.severity) ≡ false)

count_severity-zero :
    (test : Severity → Bool) (l : List Anomaly) → (count_severity test l ≡ 0) ↔ NoneActive test l
unfolding count_severity
count_severity-zero test [] = (λ _. tt, λ _. refl)
count_severity-zero test (a ∷ l) = (
  λ h. (ground arith, (count_severity-zero test l).0 (omega arith)),
  λ (p, h). ground (arith, (count_severity-zero test l).1 h),
)

-- For weights of at most 10 and fewer than 2 ^ 59 findings the verdict is clean exactly when no
-- active finding is critical or high and the active weights sum to less than 20.
pub verdict_clean_iff :
    (l : List Anomaly)
    → All IsSmall l
    → length l < 2 ^ 59
    → (verdict_for (risk_score l) l ≡ clean)
      ↔ (NoneActive is_critical l × NoneActive is_high l × (total_weight l < 20))
unfolding verdict_for
verdict_clean_iff l small few =
    let crit = count_severity-zero is_critical l in
    let hi = count_severity-zero is_high l in
    let score = risk_score-exact l small few in
    (
      λ h. (crit.0 (ground (arith, score)), hi.0 (ground (arith, score)), ground (arith, score)),
      λ (c, h, t). ground (arith, score, crit.1 c, hi.1 h),
    )

abbrev pub verdict_rank : Verdict → ℕ
verdict_rank clean = 0
verdict_rank suspicious = 1
verdict_rank malicious = 2

-- The findings that are not suppressed.
abbrev pub active : List Anomaly → List Anomaly
active [] = []
active (a ∷ l) = if a.suppressed then active l else a ∷ active l

active_sum-active : (sum : Int64) (l : List Anomaly) → active_sum sum (active l) ≡ active_sum sum l
unfolding active_sum
active_sum-active sum [] = refl
active_sum-active sum (a ∷ l) =
    ground (arith, active_sum-active sum l, active_sum-active (add64 sum a.weight) l)

count_severity-active :
    (test : Severity → Bool) (l : List Anomaly)
    → count_severity test (active l) ≡ count_severity test l
unfolding count_severity
count_severity-active test [] = refl
count_severity-active test (a ∷ l) = ground (arith, count_severity-active test l)

-- Suppressed findings count for nothing in the score and in the verdict.
pub verdict-active :
    (l : List Anomaly)
    → (risk_score (active l) ≡ risk_score l)
      × (verdict_for (risk_score (active l)) (active l) ≡ verdict_for (risk_score l) l)
unfolding verdict_for risk_score
verdict-active l = (
  rw (active_sum-active 0 l),
  rw (active_sum-active 0 l, count_severity-active is_critical l, count_severity-active is_high l),
)
