-- ===== src/Base/Sort/Lex.antt =====
-- Comparisons by one key after another are strict weak orders.
use Prim.Native.Nat.{ℕ}
use mathlib.Core.Bool.{Bool, true, false}
use mathlib.Core.List.{List}
use native.Mathlib.Omega.{arith}
use scrutiny.Base.Tests.{ltb, if◌then◌else◌}
use scrutiny.Base.Text.Order.{text_lt, text_lt_asymm, text_lt_trans}
use scrutiny.Base.Sort.Laws.{WeakOrder}

module _ {ℓ} {A : Type ℓ} where
  -- By `first`, and by `second` where that ties.
  abbrev pub then_by : (A → A → Bool) → (A → A → Bool) → A → A → Bool
  then_by first second a b = if first a b then true else if first b a then false else second a b

  pub then_by-WeakOrder :
      (first second : A → A → Bool)
      → WeakOrder first
      → WeakOrder second
      → WeakOrder (then_by first second)
  then_by-WeakOrder first second v w = record {
    asymm = λ a b h. ground (arith, v.asymm a b, w.asymm a b);
    neg_trans = λ a b c h k. ground (
      arith,
      v.asymm a b,
      v.asymm b c,
      v.asymm a c,
      v.asymm b a,
      v.asymm c b,
      v.neg_trans a b c,
      v.neg_trans c b a,
      v.neg_trans b c a,
      v.neg_trans c a b,
      v.neg_trans a c b,
      v.neg_trans b a c,
      w.neg_trans a b c,
    );
  }

  pub text_lt-WeakOrder : (f : A → List ℕ) → WeakOrder (λ a b. text_lt (f a) (f b))
  text_lt-WeakOrder f = record {
    asymm = λ a b. text_lt_asymm (f a) (f b);
    neg_trans = λ a b c. text_lt_trans (f a) (f b) (f c);
  }

  pub ltb-WeakOrder : (f : A → ℕ) → WeakOrder (λ a b. ltb (f a) (f b))
  ltb-WeakOrder f = record { asymm = λ a b h. ground arith; neg_trans = λ a b c h k. ground arith }

  -- The same in the opposite direction.
  pub gtb-WeakOrder : (f : A → ℕ) → WeakOrder (λ a b. ltb (f b) (f a))
  gtb-WeakOrder f = record { asymm = λ a b h. ground arith; neg_trans = λ a b c h k. ground arith }
