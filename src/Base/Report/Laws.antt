-- ===== src/Base/Report/Laws.antt =====
-- What the two loops report.
use mathlib.Core.Path.{◌≡◌, refl}
use mathlib.Core.Bool.{Bool, false, not, ◌&&◌, ◌||◌}
use mathlib.Core.Logic.{inl, inr}
use mathlib.Core.Option.{Option, none, some}
use mathlib.Core.List.{List, [], ◌∷◌, ◌++◌, map}
use native.Mathlib.Omega.{arith}
use scrutiny.Base.Tests.{Bool-cases, Option-cases}
use scrutiny.Base.Lists.{All}
use scrutiny.Base.Eq.{Eq, ◌==◌, has, Distinct}
use scrutiny.Base.Report.{report_each, flag_each}

-- Does the test hit an item with this key?
abbrev pub hits {ℓ κ ι} :
    {A : Type ℓ} {B : Type κ} {K : Type ι} ⦃e : Eq K⦄ → (A → K) → (A → Option B) → K → List A → Bool
hits key hit k [] = false
hits key hit k (x ∷ l) = elim (hit x) [ none ↦ false | some _ ↦ k == key x ] || hits key hit k l

module _ {ℓ κ} {A : Type ℓ} {B : Type κ} (hit : A → Option B) where
  pub report_each-nil : (l : List A) → All (λ x. hit x ≡ none) l → report_each hit l ≡ []
  unfolding report_each
  report_each-nil [] h = refl
  report_each-nil (x ∷ l) (e, h) = rw e (report_each-nil l h)

  pub All-report_each {ι} :
      (P : B → Type ι) (l : List A)
      → ((x : A) (b : B) → hit x ≡ some b → P b)
      → All P (report_each hit l)
  unfolding report_each
  All-report_each P [] f = tt
  All-report_each P (x ∷ l) f = elim (Option-cases (hit x)) [
    | inl e ↦ rw e (All-report_each P l f)
    | inr (b, e) ↦ rw e (f x b e, All-report_each P l f)
  ]

  pub report_each-append :
      (l m : List A) → report_each hit (l ++ m) ≡ report_each hit l ++ report_each hit m
  unfolding report_each
  report_each-append [] m = refl
  report_each-append (x ∷ l) m = ground (arith, report_each-append l m)

module _ {ℓ κ ι} {A : Type ℓ} {B : Type κ} {K : Type ι} ⦃e : Eq K⦄ (key : A → K)
    (hit : A → Option B) where
  pub flag_each-nil :
      (seen : List K) (l : List A) → All (λ x. hit x ≡ none) l → flag_each key hit seen l ≡ []
  unfolding flag_each
  flag_each-nil seen [] h = refl
  flag_each-nil seen (x ∷ l) (n, h) = ground (arith, flag_each-nil seen l h)

  pub All-flag_each {μ} :
      (P : B → Type μ) (seen : List K) (l : List A)
      → ((x : A) (b : B) → hit x ≡ some b → P b)
      → All P (flag_each key hit seen l)
  unfolding flag_each
  All-flag_each P seen [] f = tt
  All-flag_each P seen (x ∷ l) f = elim (Bool-cases (has (key x) seen)) [
    | inl s ↦ rw s (All-flag_each P seen l f)
    | inr s ↦ elim (Option-cases (hit x)) [
      | inl n ↦ rw (s, n) (All-flag_each P seen l f)
      | inr (b, n) ↦ rw (s, n) (f x b n, All-flag_each P (key x ∷ seen) l f)
    ]
  ]

  module _ (tag : B → K) (tagged : (x : A) (b : B) → hit x ≡ some b → tag b ≡ key x) where
    -- Reported are the keys that the test hits, but for those flagged before.
    pub has-flag_each :
        (k : K) (seen : List K) (l : List A)
        → has k (map tag (flag_each key hit seen l)) ≡ (hits key hit k l && not (has k seen))
    unfolding flag_each has
    has-flag_each k seen [] = refl
    has-flag_each k seen (x ∷ l) = elim (Option-cases (hit x)) [
      | inl n ↦ ground (arith, n, has-flag_each k seen l)
      | inr (b, n) ↦ ground (
        arith,
        n,
        tagged x b n,
        e.test_iff k (key x),
        has-flag_each k seen l,
        has-flag_each k (key x ∷ seen) l,
      )
    ]

    -- No key is reported twice.
    pub flag_each-Distinct :
        (seen : List K) (l : List A) → Distinct (map tag (flag_each key hit seen l))
    unfolding flag_each has
    flag_each-Distinct seen [] = tt
    flag_each-Distinct seen (x ∷ l) = elim (Option-cases (hit x)) [
      | inl n ↦ ground (arith, n, flag_each-Distinct seen l)
      | inr (b, n) ↦ ground (
        arith,
        n,
        tagged x b n,
        e.test_iff (key x) (key x),
        has-flag_each (key x) (key x ∷ seen) l,
        flag_each-Distinct seen l,
        flag_each-Distinct (key x ∷ seen) l,
      )
    ]
