-- ===== src/Baseline/Notes.antt =====
-- internal/baseline/merge.go: varianceNotes and Confidence.
pub mod Confidence
use scrutiny.Base.{
  ℕ, ◌+◌, ◌/◌, Bool, not, ◌&&◌, none, some, List, [], ◌∷◌, ◌++◌, ltb, leb, if◌then◌else◌,
}
use scrutiny.Base.Eq.{◌==◌, nat_eq}
use scrutiny.Base.Text.{Text, codes, text_eq, join}
use scrutiny.Base.Text.Order.{text_lt}
use scrutiny.Base.Decimal.{decimal}
use scrutiny.Base.Assoc.{Assoc, lookup}
use scrutiny.Base.Sort.{sort_by}
use scrutiny.Schema.Baseline.{BaselineConfidence, confidence_eq}
use scrutiny.Baseline.Accumulator.{Accumulator}

abbrev text_less : Text → Text → Bool
text_less = text_lt

-- the entries seen fewer times than there were runs, each rendered by `show`
unfoldable pub unstable : ℕ → (Text → ℕ → Text) → Assoc Text ℕ → List Text
unstable runs show [] = []
unstable runs show ((k, c) ∷ m) =
    let rest = unstable runs show m in if ltb c runs then show k c ∷ rest else rest

-- " (c/runs)"
ratio : ℕ → ℕ → Text
ratio c runs = codes " (" ++ (decimal c ++ (codes "/" ++ (decimal runs ++ codes ")")))

unfoldable pub call_note : ℕ → Text → ℕ → Text
unfolding ratio
call_note runs name c = name ++ ratio c runs

-- a.ports[k] of a missing key is the zero value
unfoldable pub port_note : Accumulator → Text → ℕ → Text
unfolding ratio
port_note a k c = elim (lookup k a.ports) [
  | some p ↦ p.proto ++ (codes "/" ++ (decimal p.port ++ ratio c a.runs))
  | none ↦ codes "/" ++ (decimal 0 ++ ratio c a.runs)
]

unfoldable pub raw_note : Accumulator → Text → ℕ → Text
unfolding ratio
raw_note a k c = elim (lookup k a.raw) [
  | some r ↦ r.family ++ (codes "/" ++ (r.protocol ++ ratio c a.runs))
  | none ↦ codes "/" ++ ratio c a.runs
]

note : Text → List Text → List Text
note title [] = []
note title (u ∷ l) = (title ++ join (sort_by text_less (u ∷ l)) (codes ", ")) ∷ []

unfoldable pub variance_notes : Accumulator → List Text
unfolding note unstable
variance_notes a =
    if leb a.runs 1
    then []
    else note (codes "syscalls not seen in every run: ")
        (unstable a.runs (call_note a.runs) a.syscall_runs)
      ++ (note (codes "listening ports not seen in every run: ")
            (unstable a.runs (port_note a) a.port_runs)
          ++ note (codes "raw/packet sockets not seen in every run: ")
              (unstable a.runs (raw_note a) a.raw_runs))

unfoldable pub confidence : ℕ → Bool → BaselineConfidence
confidence runs has_variance =
    let c =
      if leb 3 runs
      then BaselineConfidence.high
      else if runs == 2
      then BaselineConfidence.medium
      else BaselineConfidence.low in
    if has_variance && c == BaselineConfidence.high then BaselineConfidence.medium else c
