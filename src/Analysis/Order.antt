-- ===== src/Analysis/Order.antt =====
-- internal/analysis/analyze.go: sortAnomalies.
pub mod Laws
use scrutiny.Base.{Bool, true, false, not, List, if◌then◌else◌}
use scrutiny.Base.Eq.{◌==◌, nat_eq}
use scrutiny.Base.Int64.{slt, seq}
use scrutiny.Base.Text.{text_eq}
use scrutiny.Base.Text.Order.{text_lt}
use scrutiny.Base.Sort.{sort_by}
use scrutiny.Schema.Platform.{context_eq}
use scrutiny.Schema.Anomaly.{dimension_name, dimension_eq, Anomaly, anomaly_type_eq}
use scrutiny.Schema.Baseline.{confidence_eq}

abbrev pub same_flag : Bool → Bool → Bool
same_flag true b = b
same_flag false b = not b

unfoldable pub anomaly_less : Anomaly → Anomaly → Bool
anomaly_less a b =
    if not (same_flag a.suppressed b.suppressed)
    then not a.suppressed
    else if not (seq a.weight b.weight)
    then slt b.weight a.weight
    else if not (dimension_name a.dimension == dimension_name b.dimension)
    then text_lt (dimension_name a.dimension) (dimension_name b.dimension)
    else text_lt a.description b.description

unfoldable pub sort_anomalies : List Anomaly → List Anomaly
unfolding anomaly_less
sort_anomalies = sort_by anomaly_less
