-- ===== src/Base/Report/New.antt =====
-- Loops that report what a baseline lacks: the reported keys are those of the observation that the
-- baseline does not have.
use mathlib.Core.Path.{◌≡◌, refl}
use mathlib.Core.Bool.{Bool, true, false, not, ◌&&◌}
use mathlib.Core.Option.{Option, none, some}
use mathlib.Core.List.{List, [], ◌∷◌, map}
use native.Mathlib.Omega.{arith}
use scrutiny.Base.Eq.{Eq, has, Distinct}
use scrutiny.Base.Report.{report_each, flag_each}
use scrutiny.Base.Report.Laws.{hits, has-flag_each, flag_each-Distinct}

-- The test hits the items that `known` does not hold for, with reports that carry the item's key.
pub record Finds {ℓ κ ι} {A : Type ℓ} {B : Type κ} {K : Type ι} (key : A → K) (known : K → Bool)
    (hit : A → Option B) (tag : B → K) : Type (ℓ ⊔ κ ⊔ ι) where
  pub old : (x : A) → known (key x) ≡ true → hit x ≡ none
  pub report : A → B
  pub new : (x : A) → known (key x) ≡ false → hit x ≡ some (report x)
  pub tagged : (x : A) → tag (report x) ≡ key x

module _ {ℓ κ ι} {A : Type ℓ} {B : Type κ} {K : Type ι} ⦃e : Eq K⦄ (key : A → K) (known : K → Bool)
    (hit : A → Option B) (tag : B → K) (f : Finds key known hit tag) where
  pub has-report_each :
      (k : K) (l : List A)
      → has k (map tag (report_each hit l)) ≡ (has k (map key l) && not (known k))
  unfolding report_each has
  has-report_each k [] = refl
  has-report_each k (x ∷ l) =
      ground (arith, f.old x, f.new x, f.tagged x, e.test_iff k (key x), has-report_each k l)

  hits-known : (k : K) (l : List A) → hits key hit k l ≡ (has k (map key l) && not (known k))
  unfolding has
  hits-known k [] = refl
  hits-known k (x ∷ l) = ground (arith, f.old x, f.new x, e.test_iff k (key x), hits-known k l)

  Finds-tagged : (x : A) (b : B) → hit x ≡ some b → tag b ≡ key x
  Finds-tagged x b h = ground (arith, f.old x, f.new x, f.tagged x)

  pub has-flag_new :
      (k : K) (l : List A)
      → has k (map tag (flag_each key hit [] l)) ≡ (has k (map key l) && not (known k))
  unfolding has
  has-flag_new k l = ground (arith, has-flag_each key hit tag Finds-tagged k [] l, hits-known k l)

  pub flag_new-Distinct : (l : List A) → Distinct (map tag (flag_each key hit [] l))
  flag_new-Distinct l = flag_each-Distinct key hit tag Finds-tagged [] l
