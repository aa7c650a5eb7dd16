-- ===== src/Base/Numeral.antt =====
-- strconv.ParseUint in base 16 and strconv.Atoi on a text of digits.
use Prim.Native.Nat.{ℕ, ◌+◌, ◌-◌, ◌*◌, ◌%◌}
use mathlib.Core.Bool.{Bool, true, false, not, ◌&&◌}
use mathlib.Core.Option.{Option, none, some}
use mathlib.Core.List.{List, [], ◌∷◌}
use scrutiny.Base.Tests.{ltb, leb, nat_beq, if◌then◌else◌}
use scrutiny.Base.Int64.{Int64, word, sign_bit}

unfoldable pub hex_digit : ℕ → Option ℕ
hex_digit c =
    if leb b'0' c && leb c b'9'
    then some (c - b'0')
    else if leb b'a' c && leb c b'f'
    then some (c - b'a' + 10)
    else if leb b'A' c && leb c b'F'
    then some (c - b'A' + 10)
    else none

-- The digits that are left, after digits of value `n`; none on another byte or beyond 64 bits.
unfoldable pub hex_from : ℕ → List ℕ → Option ℕ
unfolding hex_digit
hex_from n [] = some n
hex_from n (c ∷ s) = elim (hex_digit c) [
  | none ↦ none
  | some d ↦ if ltb (n * 16 + d) word then hex_from (n * 16 + d) s else none
]

unfoldable pub parse_hex : List ℕ → Option ℕ
unfolding hex_from
parse_hex [] = none
parse_hex (c ∷ s) = hex_from 0 (c ∷ s)

unfoldable pub digits_from : ℕ → List ℕ → ℕ
digits_from n [] = n
digits_from n (c ∷ s) = digits_from (n * 10 + (c - b'0')) s

-- A value that is too large is the largest int64, and an error that the callers ignore.
unfoldable pub atoi_digits : List ℕ → Int64
unfolding digits_from
atoi_digits s = let n = digits_from 0 s in if ltb n sign_bit then n else sign_bit - 1

unfoldable pub all_digits : List ℕ → Bool
all_digits [] = true
all_digits (c ∷ s) = leb b'0' c && leb c b'9' && all_digits s

-- strconv.Atoi: the value, and whether there is no error. On a syntax error the value is 0, and out
-- of range it is the nearest int64.
unfoldable pub atoi_unsigned : Bool → List ℕ → Int64 × Bool
unfolding all_digits digits_from
atoi_unsigned negative [] = (0, false)
atoi_unsigned negative (c ∷ s) =
    let n = digits_from 0 (c ∷ s) in
    if not (all_digits (c ∷ s))
    then (0, false)
    else if negative
    then if leb n sign_bit then ((word - n) % word, true) else (sign_bit, false)
    else if ltb n sign_bit
    then (n, true)
    else (sign_bit - 1, false)

unfoldable pub parse_int : List ℕ → Int64 × Bool
unfolding atoi_unsigned
parse_int [] = (0, false)
parse_int (c ∷ s) =
    if nat_beq c b'-'
    then atoi_unsigned true s
    else if nat_beq c b'+'
    then atoi_unsigned false s
    else atoi_unsigned false (c ∷ s)
