-- ===== src/Analysis/Order/Laws.antt =====
-- internal/analysis/analyze.go: about the comparison and the result of sortAnomalies.
use scrutiny.Base.{
  ℕ, ◌<◌, ◌≡◌, ◌⊎◌, Bool, true, false, List, [], ◌∷◌, All, All-map, arith, ltb, if◌then◌else◌,
}
use scrutiny.Schema.Anomaly.{dimension_name, dimension_eq, Anomaly, anomaly_type_eq}
use scrutiny.Base.Eq.{nat_eq, eq_iff}
use scrutiny.Base.Int64.{rank}
use scrutiny.Base.Text.{text_eq}
use scrutiny.Base.Text.Order.{text_lt, text_lt_irrefl, text_lt_total}
use scrutiny.Base.Sort.Laws.{WeakOrder, IsOrdered, sort_by-perm, sort_by-IsOrdered}
use scrutiny.Schema.Platform.{context_eq}
use scrutiny.Schema.Baseline.{confidence_eq}
use scrutiny.Analysis.Order.{anomaly_less, sort_anomalies}
use mathlib.Core.List.{Perm}
use mathlib.Core.Path.{fun_ext}
use scrutiny.Base.Sort.Lex.{
  then_by, then_by-WeakOrder, text_lt-WeakOrder, ltb-WeakOrder, gtb-WeakOrder,
}

flag_rank : Anomaly → ℕ
flag_rank a = if a.suppressed then 1 else 0

-- Active before suppressed, then by falling weight, then by dimension, then by description.
abbrev documented_less : Anomaly → Anomaly → Bool
documented_less =
    then_by (λ a b. ltb (flag_rank a) (flag_rank b))
      (then_by (λ a b. ltb (rank b.weight) (rank a.weight))
        (then_by (λ a b. text_lt (dimension_name a.dimension) (dimension_name b.dimension))
          (λ a b. text_lt a.description b.description)))

anomaly_less-documented : (a b : Anomaly) → anomaly_less a b ≡ documented_less a b
unfolding anomaly_less flag_rank
anomaly_less-documented a b = ground (
  arith,
  eq_iff (dimension_name a.dimension) (dimension_name b.dimension),
  text_lt_irrefl (dimension_name a.dimension),
  text_lt_total (dimension_name a.dimension) (dimension_name b.dimension),
)

pub anomaly_less-WeakOrder : WeakOrder anomaly_less
anomaly_less-WeakOrder = rw (fun_ext λ a. fun_ext (anomaly_less-documented a)) (
    then_by-WeakOrder _ _ (ltb-WeakOrder flag_rank) (
      then_by-WeakOrder _ _ (gtb-WeakOrder (λ a. rank a.weight)) (
        then_by-WeakOrder _ _ (text_lt-WeakOrder (λ a. dimension_name a.dimension))
          (text_lt-WeakOrder (λ a. a.description)))))

-- `a` may stand before `b`: an active finding before a suppressed one; of two alike the heavier one, by
-- signed weights; of equal weights the one whose dimension's name comes first; of the same dimension
-- the one whose description does not come later.
abbrev pub Precedes : Anomaly → Anomaly → Type 0
Precedes a b =
    ((a.suppressed ≡ false) × (b.suppressed ≡ true))
    ⊎ ((a.suppressed ≡ b.suppressed)
        × ((rank b.weight < rank a.weight)
            ⊎ ((rank a.weight ≡ rank b.weight)
                × ((text_lt (dimension_name a.dimension) (dimension_name b.dimension) ≡ true)
                    ⊎ ((dimension_name a.dimension ≡ dimension_name b.dimension)
                        × (text_lt b.description a.description ≡ false))))))

abbrev pub EachPrecedes : List Anomaly → Type 0
EachPrecedes [] = Unit
EachPrecedes (a ∷ l) = All (Precedes a) l × EachPrecedes l

not_less-Precedes : (a b : Anomaly) → anomaly_less b a ≡ false → Precedes a b
unfolding anomaly_less
not_less-Precedes a b h = ground (
  arith,
  eq_iff (dimension_name b.dimension) (dimension_name a.dimension),
  text_lt_irrefl (dimension_name a.dimension),
  text_lt_total (dimension_name a.dimension) (dimension_name b.dimension),
)

IsOrdered-EachPrecedes : (l : List Anomaly) → IsOrdered anomaly_less l → EachPrecedes l
IsOrdered-EachPrecedes [] h = tt
IsOrdered-EachPrecedes (a ∷ l) (below, h) = (
  All-map (λ b. anomaly_less b a ≡ false) (Precedes a) l (not_less-Precedes a) below,
  IsOrdered-EachPrecedes l h,
)

pub sort_anomalies-sorts :
    (l : List Anomaly) → Perm (sort_anomalies l) l × EachPrecedes (sort_anomalies l)
unfolding sort_anomalies
sort_anomalies-sorts l = (
  sort_by-perm anomaly_less l,
  IsOrdered-EachPrecedes _ (sort_by-IsOrdered anomaly_less anomaly_less-WeakOrder l),
)
