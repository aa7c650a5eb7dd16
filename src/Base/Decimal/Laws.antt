-- ===== src/Base/Decimal/Laws.antt =====
-- About `%d`: what it prints is read back.
use Prim.Native.Nat.{ℕ, zero, suc, ◌+◌, ◌-◌, ◌*◌, ◌/◌, ◌%◌, ◌≤◌, ◌<◌}
use mathlib.Core.Path.{◌≡◌, refl}
use mathlib.Core.Bool.{Bool, true}
use mathlib.Core.List.{[], ◌∷◌, ◌++◌}
use native.Mathlib.Omega.{arith}
use mathlib.Core.Logic.{◌⊎◌, inl, inr}
use scrutiny.Base.Tests.{ltb, Bool-cases}
use scrutiny.Base.Text.{Text}
use scrutiny.Base.Lists.{All, All-append}
use scrutiny.Base.Decimal.{digits, decimal_nat, decimal}
use scrutiny.Base.Int64.{Int64, word, sign_bit}
use scrutiny.Base.Numeral.{digits_from}
use scrutiny.Base.Text.Parts.{is_digit, take_while}

digits_from-append :
    (n : ℕ) (s : Text) (c : ℕ) → digits_from n (s ++ c ∷ []) ≡ digits_from n s * 10 + (c - b'0')
unfolding digits_from
digits_from-append n [] c = refl
digits_from-append n (d ∷ s) c = digits_from-append (n * 10 + (d - b'0')) s c

digits-value : (f n : ℕ) → n < f → digits_from 0 (digits f n) ≡ n
unfolding digits digits_from
digits-value zero n h = ground (arith, h)
digits-value (suc f) n h =
    ground
      (arith, digits-value f (n / 10), digits_from-append 0 (digits f (n / 10)) (b'0' + n % 10))

digit : (d : ℕ) → d < 10 → is_digit (b'0' + d) ≡ true
unfolding is_digit
digit d h = ground arith

digits-All : (f n : ℕ) → All (λ c. is_digit c ≡ true) (digits f n)
unfolding digits
digits-All zero n = tt
digits-All (suc f) n = elim (Bool-cases (ltb n 10)) [
  | inl e ↦ rw e (digit n (ground (arith, e)), tt)
  | inr e ↦ rw e (All-append _ _ _ (digits-All f (n / 10)) (digit (n % 10) (omega arith), tt))
]

-- A text that starts with a digit.
abbrev pub StartsWithDigit : Text → Type 0
StartsWithDigit s = (c : ℕ) × (t : Text) × (s ≡ c ∷ t) × (is_digit c ≡ true)

append-StartsWithDigit :
    (s : Text) (c : ℕ)
    → All (λ d. is_digit d ≡ true) s
    → is_digit c ≡ true
    → StartsWithDigit (s ++ c ∷ [])
append-StartsWithDigit [] c h p = (c, [], refl, p)
append-StartsWithDigit (d ∷ s) c (q, h) p = (d, s ++ c ∷ [], refl, q)

digits-StartsWithDigit : (f n : ℕ) → StartsWithDigit (digits (suc f) n)
unfolding digits
digits-StartsWithDigit f n = elim (Bool-cases (ltb n 10)) [
  | inl e ↦ rw e (b'0' + n, [], refl, digit n (ground (arith, e)))
  | inr e ↦ rw e (
      append-StartsWithDigit (digits f (n / 10)) _ (digits-All f (n / 10))
        (digit (n % 10) (omega arith)))
]

pub decimal_nat-StartsWithDigit : (n : ℕ) → StartsWithDigit (decimal_nat n)
unfolding decimal_nat
decimal_nat-StartsWithDigit n = digits-StartsWithDigit n n

take_while-all : (test : ℕ → Bool) (s : Text) → All (λ c. test c ≡ true) s → take_while test s ≡ s
unfolding take_while
take_while-all test [] h = refl
take_while-all test (c ∷ s) (p, h) = ground (arith, p, take_while-all test s h)

pub decimal_nat-value : (n : ℕ) → digits_from 0 (decimal_nat n) ≡ n
unfolding decimal_nat
decimal_nat-value n = digits-value (suc n) n (omega arith)

pub take_while-decimal_nat : (n : ℕ) → take_while is_digit (decimal_nat n) ≡ decimal_nat n
unfolding decimal_nat
take_while-decimal_nat n = take_while-all is_digit _ (digits-All (suc n) n)

pub decimal-cases :
    (n : Int64)
    → ((decimal n ≡ decimal_nat n) × (n < sign_bit))
      ⊎ ((decimal n ≡ b'-' ∷ decimal_nat (word - n)) × (sign_bit ≤ n))
unfolding decimal
decimal-cases n = elim (Bool-cases (ltb n sign_bit)) [
  | inl e ↦ inl (rw e refl, ground (arith, e))
  | inr e ↦ inr (rw e refl, ground (arith, e))
]
