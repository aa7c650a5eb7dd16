-- ===== src/Analysis/Score/Bounds.antt =====
-- internal/analysis/analyze.go: about riskScore.
use scrutiny.Base.{
  ℕ, ◌+◌, ◌*◌, ◌^◌, ◌≤◌, ◌<◌, ◌≡◌, inl, inr, List, [], ◌∷◌, arith, if◌then◌else◌, Bool-cases,
  length, All,
}
use Prim.Native.Nat.{min}
use scrutiny.Schema.Anomaly.{dimension_eq, Anomaly, anomaly_type_eq}
use scrutiny.Base.Eq.{nat_eq}
use scrutiny.Base.Int64.{Int64, add64, sign_bit}
use scrutiny.Base.Text.{text_eq}
use scrutiny.Schema.Platform.{context_eq}
use scrutiny.Schema.Baseline.{confidence_eq}
use scrutiny.Analysis.Score.{active_sum, risk_score}

-- A weight between 0 and 10, as the defaults are.
abbrev pub IsSmall : Anomaly → Type 0
IsSmall a = a.weight ≤ 10

-- The sum of the active weights, as a number.
abbrev pub total_weight : List Anomaly → ℕ
total_weight [] = 0
total_weight (a ∷ l) = (if a.suppressed then 0 else a.weight) + total_weight l

pub active_sum-total :
    (sum : Int64) (l : List Anomaly)
    → sum + total_weight l < sign_bit
    → active_sum sum l ≡ sum + total_weight l
unfolding active_sum
active_sum-total sum [] h = omega arith
active_sum-total sum (a ∷ l) h = elim (Bool-cases a.suppressed) [
  | inl e ↦ ground (arith, e, active_sum-total sum l)
  | inr e ↦ ground (arith, e, active_sum-total (add64 sum a.weight) l)
]

total_weight-le : (l : List Anomaly) → All IsSmall l → total_weight l ≤ 10 * length l
total_weight-le [] h = omega arith
total_weight-le (a ∷ l) (p, h) = ground (arith, total_weight-le l h)

-- With weights of at most 10 and fewer than 2 ^ 59 anomalies the score is the exact sum of the
-- active weights, capped at 100.
pub risk_score-exact :
    (l : List Anomaly) → All IsSmall l → length l < 2 ^ 59 → risk_score l ≡ min 100 (total_weight l)
unfolding risk_score
risk_score-exact l h n = ground (arith, active_sum-total 0 l, total_weight-le l h)
