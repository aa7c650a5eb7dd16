-- ===== src/Base/Decimal.antt =====
-- `%d`, decimal print of an int64, and `%x`, hexadecimal print of a number.
pub mod Laws
use Prim.Native.Nat.{ℕ, zero, suc, ◌+◌, ◌-◌, ◌/◌, ◌%◌}
use mathlib.Core.List.{[], ◌∷◌, ◌++◌}
use scrutiny.Base.Tests.{ltb, if◌then◌else◌}
use scrutiny.Base.Text.{Text}
use scrutiny.Base.Int64.{Int64, word, sign_bit}

-- One round for each digit; `suc n` rounds are enough, since n / 10 < n.
digits : ℕ → ℕ → Text
digits zero n = []
digits (suc f) n =
    let front = digits f (n / 10) in
    if ltb n 10 then (b'0' + n) ∷ [] else front ++ (b'0' + n % 10) ∷ []

unfoldable pub decimal_nat : ℕ → Text
unfolding digits
decimal_nat n = digits (suc n) n

unfoldable pub decimal : Int64 → Text
unfolding decimal_nat
decimal n = if ltb n sign_bit then decimal_nat n else b'-' ∷ decimal_nat (word - n)

hex_byte : ℕ → ℕ
hex_byte d = if ltb d 10 then b'0' + d else b'a' + (d - 10)

hex_digits : ℕ → ℕ → Text
unfolding hex_byte
hex_digits zero n = []
hex_digits (suc f) n =
    let front = hex_digits f (n / 16) in
    if ltb n 16 then hex_byte n ∷ [] else front ++ hex_byte (n % 16) ∷ []

-- `%x` of a number that is not negative
unfoldable pub hex_nat : ℕ → Text
unfolding hex_digits
hex_nat n = hex_digits (suc n) n
