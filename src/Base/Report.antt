-- ===== src/Base/Report.antt =====
-- The two loop shapes of the analysis: report each item that a test hits, and report each key once.
pub mod Laws
pub mod New
pub mod Picked
use mathlib.Core.Option.{Option, none, some}
use mathlib.Core.List.{List, [], ◌∷◌}
use scrutiny.Base.Tests.{if◌then◌else◌}
use scrutiny.Base.Eq.{Eq, has}

abbrev pub emit {ℓ} : {B : Type ℓ} → Option B → List B → List B
emit none out = out
emit (some b) out = b ∷ out

-- `for _, x := range l { if ... { continue }; out = append(out, ...) }`
unfoldable pub report_each {ℓ κ} : {A : Type ℓ} {B : Type κ} → (A → Option B) → List A → List B
report_each hit [] = []
report_each hit (x ∷ l) = emit (hit x) (report_each hit l)

-- The same with `if flagged[key] { continue }` and `flagged[key] = true` at each report.
unfoldable pub flag_each {ℓ κ ι} :
    {A : Type ℓ} {B : Type κ} {K : Type ι} ⦃e : Eq K⦄
    → (A → K)
    → (A → Option B)
    → List K
    → List A
    → List B
flag_each key hit flagged [] = []
flag_each key hit flagged (x ∷ l) =
    let skip = flag_each key hit flagged l in
    let mark = flag_each key hit (key x ∷ flagged) l in
    if has (key x) flagged then skip else elim (hit x) [ none ↦ skip | some b ↦ b ∷ mark ]
