-- ===== src/Baseline/Notes/Confidence.antt =====
-- internal/baseline/merge.go: about Confidence.
use scrutiny.Base.{ℕ, ◌≤◌, ◌<◌, ◌≡◌, ◌↔◌, Bool, false, arith}
use scrutiny.Base.Eq.{nat_eq, eq_iff, eq_refl}
use scrutiny.Base.Text.{text_eq}
use scrutiny.Schema.Baseline.{BaselineConfidence, confidence_eq}
use scrutiny.Baseline.Notes.{confidence}

-- The confidence is high exactly for three runs or more that show no variance, and low exactly for
-- fewer than two runs.
confidence_iff :
    (runs : ℕ) (v : Bool)
    → ((confidence runs v ≡ BaselineConfidence.high) ↔ ((3 ≤ runs) × (v ≡ false)))
      × ((confidence runs v ≡ BaselineConfidence.low) ↔ (runs < 2))
unfolding confidence
confidence_iff runs v = (
  (
    λ h. ground (arith, eq_refl BaselineConfidence.high),
    λ h. ground (arith, eq_refl BaselineConfidence.high),
  ),
  (
    λ h. ground (arith, eq_refl BaselineConfidence.high),
    λ h. ground (
      arith,
      eq_refl BaselineConfidence.high,
      eq_iff BaselineConfidence.low BaselineConfidence.high,
      eq_iff BaselineConfidence.medium BaselineConfidence.high,
    ),
  ),
)
