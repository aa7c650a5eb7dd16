-- ===== src/Command/Args/Scan.antt =====
-- cmd/scrutiny/main.go: about fmt.Sscanf on the decimal print of a number.
use scrutiny.Base.{
  get_or, ℕ, ◌-◌, ◌<◌, ◌≤◌, not, ◌&&◌, sym, ◌≡◌, refl, ap, ◌∙◌, true, false, some, [], ◌∷◌, arith,
  inl, inr,
}
use scrutiny.Base.Int64.{Int64, word, sign_bit}
use scrutiny.Base.Eq.{◌==◌, list_beq, nat_eq}
use scrutiny.Base.Text.{Text, text_eq}
use scrutiny.Base.Text.Parts.{is_space, is_digit, drop_while}
use scrutiny.Base.Decimal.{decimal, decimal_nat}
use scrutiny.Base.Decimal.Laws.{
  decimal_nat-value, take_while-decimal_nat, decimal_nat-StartsWithDigit, decimal-cases,
}
use scrutiny.Command.Args.{scan_digits, scan_signed, scan_int}

decimal_nat-present : (n : ℕ) → (decimal_nat n == []) ≡ false
unfolding list_beq
decimal_nat-present n = let (c, t, e, _) = decimal_nat-StartsWithDigit n in ap (λ s. s == []) e

scan_digits-decimal_nat : (n : ℕ) → n < sign_bit → scan_digits false (decimal_nat n) ≡ some n
unfolding scan_digits
scan_digits-decimal_nat n h =
    rw (take_while-decimal_nat n)
      (rw (decimal_nat-present n) (rw (decimal_nat-value n) (ground (arith, h))))

scan_digits-negative :
    (n : Int64) → n < word → sign_bit ≤ n → scan_digits true (decimal_nat (word - n)) ≡ some n
unfolding scan_digits
scan_digits-negative n h g =
    rw (take_while-decimal_nat (word - n)) (
      rw (decimal_nat-present (word - n))
        (rw (decimal_nat-value (word - n)) (ground (arith, h, g))))

-- Before digits there is neither a sign nor white space.
scan_signed-digit :
    (c : ℕ) (s : Text) → is_digit c ≡ true → scan_signed (c ∷ s) ≡ scan_digits false (c ∷ s)
unfolding scan_signed is_digit
scan_signed-digit c s h = ground (arith, h)

skips_nothing :
    (c : ℕ) (s : Text)
    → is_digit c ≡ true
    → drop_while (λ b. is_space b && not (b == b'\n')) (c ∷ s) ≡ c ∷ s
unfolding drop_while is_space is_digit
skips_nothing c s h = ground (arith, h)

scan_int-digit :
    (c : ℕ) (s : Text) (old : Int64)
    → is_digit c ≡ true
    → scan_int (c ∷ s) old ≡ get_or old (scan_digits false (c ∷ s))
unfolding scan_int
scan_int-digit c s old h =
    ap (λ t. get_or old (scan_signed t)) (skips_nothing c s h)
    ∙ ap (get_or old) (scan_signed-digit c s h)

scan_int-minus :
    (s : Text) (old : Int64) → scan_int (b'-' ∷ s) old ≡ get_or old (scan_digits true s)
unfolding scan_int scan_signed drop_while is_space
scan_int-minus s old = refl

pub scan_int-decimal : (n old : Int64) → n < word → scan_int (decimal n) old ≡ n
scan_int-decimal n old h = elim (decimal-cases n) [
  | inl (e, few) ↦
      let (c, t, start, d) = decimal_nat-StartsWithDigit n in
      ap (λ s. scan_int s old) (e ∙ start)
      ∙ scan_int-digit c t old d
      ∙ ap (λ s. get_or old (scan_digits false s)) (sym start)
      ∙ ap (get_or old) (scan_digits-decimal_nat n few)
  | inr (e, many) ↦
      ap (λ s. scan_int s old) e
      ∙ scan_int-minus _ old
      ∙ ap (get_or old) (scan_digits-negative n h many)
]
