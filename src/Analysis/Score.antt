-- ===== src/Analysis/Score.antt =====
-- internal/analysis/analyze.go: riskScore and verdictFor. The sum is a Go int and wraps around;
-- the counters of findings are at most the length of a slice in memory, and do not.
pub mod Bounds
pub mod Thresholds
use scrutiny.Base.{ℕ, ◌+◌, Bool, true, false, not, ◌&&◌, ◌||◌, List, [], ◌∷◌, ltb, if◌then◌else◌}
use scrutiny.Base.Eq.{nat_eq}
use scrutiny.Base.Int64.{Int64, add64, slt, sle}
use scrutiny.Base.Text.{text_eq}
use scrutiny.Schema.Anomaly.{Severity, critical, Verdict, clean, suspicious, malicious, Anomaly}

-- the loop of riskScore, from the sum so far
unfoldable pub active_sum : Int64 → List Anomaly → Int64
active_sum sum [] = sum
active_sum sum (a ∷ l) = active_sum (if a.suppressed then sum else add64 sum a.weight) l

unfoldable pub risk_score : List Anomaly → Int64
unfolding active_sum
risk_score anomalies = let sum = active_sum 0 anomalies in if slt 100 sum then 100 else sum

abbrev pub is_critical : Severity → Bool
is_critical Severity.critical = true
is_critical _ = false

abbrev pub is_high : Severity → Bool
is_high Severity.high = true
is_high _ = false

-- the counters `crit` and `high` of verdictFor
unfoldable pub count_severity : (Severity → Bool) → List Anomaly → ℕ
count_severity test [] = 0
count_severity test (a ∷ l) =
    count_severity test l + (if not a.suppressed && test a.severity then 1 else 0)

unfoldable pub verdict_for : Int64 → List Anomaly → Verdict
verdict_for score anomalies =
    if ltb 0 (count_severity is_critical anomalies) || sle 60 score
    then malicious
    else if ltb 0 (count_severity is_high anomalies) || sle 20 score
    then suspicious
    else clean
