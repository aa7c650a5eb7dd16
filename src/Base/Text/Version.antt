-- ===== src/Base/Text/Version.antt =====
-- The regular expressions on version numbers, as searches: leftmost match, greedy digits.
use mathlib.Core.Bool.{Bool, false, ◌||◌, not}
use mathlib.Core.Option.{Option, none, some}
use mathlib.Core.List.{[], ◌∷◌, ◌++◌}
use Prim.Native.Nat.{ℕ}
use scrutiny.Base.Tests.{nat_beq, if◌then◌else◌}
use scrutiny.Base.Text.{Text}
use scrutiny.Base.Text.Search.{has_prefix}
use scrutiny.Base.Text.Parts.{is_digit, take_while, drop_like}

-- The result at the first place where there is one.
unfoldable pub find_first {ℓ} : {A : Type ℓ} → (Text → Option A) → Text → Option A
find_first at [] = at []
find_first at (c ∷ s) = elim (at (c ∷ s)) [ none ↦ find_first at s | some a ↦ some a ]

unfoldable pub starts_digit : Text → Bool
unfolding is_digit
starts_digit [] = false
starts_digit (c ∷ s) = is_digit c

-- `\d+\.`: the digits, and what follows the point.
unfoldable pub dotted : Text → Option (Text × Text)
unfolding starts_digit take_while drop_like has_prefix is_digit
dotted s =
    let d = take_while is_digit s in
    let r = drop_like d s in
    if starts_digit s
    then if has_prefix r (b'.' ∷ []) then some (d, drop_like (b'.' ∷ []) r) else none
    else none

is_version_byte : ℕ → Bool
unfolding is_digit
is_version_byte c = is_digit c || nat_beq c b'.'

-- `\d+\.\d+[\.\d]*` at the start
unfoldable pub two_part_at : Text → Option Text
unfolding dotted is_version_byte
two_part_at s = elim (dotted s) [
  | none ↦ none
  | some (d, r) ↦ if starts_digit r then some (d ++ b'.' ∷ take_while is_version_byte r) else none
]

-- `\d+\.\d+\.\d+[\.\d]*` at the start
unfoldable pub three_part_at : Text → Option Text
unfolding dotted two_part_at
three_part_at s = elim (dotted s) [
  | none ↦ none
  | some (d, r) ↦ elim (two_part_at r) [
    | none ↦ none
    | some v ↦ elim (dotted r) [
      | none ↦ none
      | some (e, q) ↦ if starts_digit q then some (d ++ b'.' ∷ v) else none
    ]
  ]
]

-- `(\d+)\.(\d+)\.(\d+)` at the start: the three groups
unfoldable pub three_groups_at : Text → Option (Text × Text × Text)
unfolding dotted
three_groups_at s = elim (dotted s) [
  | none ↦ none
  | some (d, r) ↦ elim (dotted r) [
    | none ↦ none
    | some (e, q) ↦ if starts_digit q then some (d, e, take_while is_digit q) else none
  ]
]

-- `\S`
unfoldable pub is_word_byte : ℕ → Bool
is_word_byte c = not (nat_beq c 32 || nat_beq c 9 || nat_beq c 10 || nat_beq c 12 || nat_beq c 13)

-- The prefix, and then `(\S+)`: the group.
unfoldable pub word_after : Text → Text → Option Text
unfolding has_prefix drop_like take_while is_word_byte
word_after p s =
    if has_prefix s p
    then elim (take_while is_word_byte (drop_like p s)) [ [] ↦ none | c ∷ w ↦ some (c ∷ w) ]
    else none
