-- ===== src/Base/Int64.antt =====
-- Go's `int` and `int64` on a 64-bit platform: the two's complement bit pattern, a number
-- below 2 ^ 64. Signed order compares the patterns with the sign bit flipped.
use Prim.Native.Nat.{ℕ, ◌+◌, ◌-◌, ◌/◌, ◌%◌, ◌^◌, ◌<◌}
use mathlib.Core.Path.{◌≡◌}
use mathlib.Core.Bool.{Bool}
use native.Mathlib.Omega.{arith}
use scrutiny.Base.Tests.{ltb, leb, nat_beq, if◌then◌else◌}

abbrev pub Int64 : Type 0
Int64 = ℕ

abbrev pub word : ℕ
word = 2 ^ 64

abbrev pub sign_bit : ℕ
sign_bit = 2 ^ 63

abbrev pub add64 : Int64 → Int64 → Int64
add64 a b = (a + b) % word

abbrev pub sub64 : Int64 → Int64 → Int64
sub64 a b = (a + word - b) % word

-- -1
abbrev pub minus_one : Int64
minus_one = word - 1

-- The place of a pattern in the signed order.
abbrev pub rank : Int64 → ℕ
rank a = (a + sign_bit) % word

abbrev pub slt : Int64 → Int64 → Bool
slt a b = ltb (rank a) (rank b)

abbrev pub sle : Int64 → Int64 → Bool
sle a b = leb (rank a) (rank b)

-- `a == b`, on the words that the numbers stand for.
abbrev pub seq : Int64 → Int64 → Bool
seq a b = nat_beq (rank a) (rank b)

-- `if a > b { b = a }`
abbrev pub smax : Int64 → Int64 → Int64
smax a b = if slt a b then b else a

abbrev pub smin : Int64 → Int64 → Int64
smin a b = if slt b a then b else a

-- On patterns of values that are not negative the signed order is the order of numbers.
pub slt-ltb : (a b : Int64) → a < sign_bit → b < sign_bit → slt a b ≡ ltb a b
slt-ltb a b ha hb = ground arith

pub sle-leb : (a b : Int64) → a < sign_bit → b < sign_bit → sle a b ≡ leb a b
sle-leb a b ha hb = ground arith

-- `a / d` of a positive divisor, rounded to zero.
abbrev pub sdiv : Int64 → ℕ → Int64
sdiv a d = if ltb a sign_bit then a / d else (word - (word - a) / d) % word
