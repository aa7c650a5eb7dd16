-- ===== src/Base/Text/Parts.antt =====
-- strings.TrimSpace, Trim, TrimPrefix, Split, SplitN and ToUpper over bytes.
use Prim.Native.Nat.{ℕ, ◌-◌}
use mathlib.Core.Path.{◌≡◌, refl}
use mathlib.Core.Bool.{Bool, ◌&&◌, ◌||◌}
use mathlib.Core.List.{List, [], ◌∷◌, ◌++◌, map}
use mathlib.Core.Option.{Option, none, some}
use scrutiny.Base.Tests.{leb, nat_beq, if◌then◌else◌}
use scrutiny.Base.Text.Search.{has_prefix}

-- The ASCII white space.
unfoldable pub is_space : ℕ → Bool
is_space c = nat_beq c 32 || leb 9 c && leb c 13

unfoldable pub is_digit : ℕ → Bool
is_digit c = leb b'0' c && leb c b'9'

unfoldable pub drop_while : (ℕ → Bool) → List ℕ → List ℕ
drop_while test [] = []
drop_while test (c ∷ s) = if test c then drop_while test s else c ∷ s

unfoldable pub take_while : (ℕ → Bool) → List ℕ → List ℕ
take_while test [] = []
take_while test (c ∷ s) = let rest = take_while test s in if test c then c ∷ rest else []

-- The text without its longest end of bytes that pass the test.
unfoldable pub trim_end : (ℕ → Bool) → List ℕ → List ℕ
trim_end test [] = []
trim_end test (c ∷ s) = elim (trim_end test s) [
  | [] ↦ if test c then [] else c ∷ []
  | d ∷ r ↦ c ∷ d ∷ r
]

unfoldable pub trim : (ℕ → Bool) → List ℕ → List ℕ
unfolding drop_while trim_end
trim test s = drop_while test (trim_end test s)

unfoldable pub trim_space : List ℕ → List ℕ
unfolding trim is_space
trim_space = trim is_space

-- The text after as many bytes as the first argument has.
unfoldable pub drop_like : List ℕ → List ℕ → List ℕ
drop_like [] s = s
drop_like (c ∷ p) [] = []
drop_like (c ∷ p) (d ∷ s) = drop_like p s

unfoldable pub trim_prefix : List ℕ → List ℕ → List ℕ
unfolding has_prefix drop_like
trim_prefix s p = if has_prefix s p then drop_like p s else s

-- The part before the first separator, and the parts after it.
unfoldable pub split : ℕ → List ℕ → List (List ℕ)
split sep [] = [] ∷ []
split sep (c ∷ s) =
    let rest = split sep s in
    if nat_beq c sep
    then [] ∷ rest
    else elim rest [ [] ↦ (c ∷ []) ∷ [] | part ∷ parts ↦ (c ∷ part) ∷ parts ]

upper_byte : ℕ → ℕ
upper_byte c = if leb b'a' c && leb c b'z' then c - 32 else c

-- On ASCII text; `strings.ToUpper` also maps the small letters of other scripts.
unfoldable pub to_upper : List ℕ → List ℕ
unfolding upper_byte
to_upper = map upper_byte

pub drop_like-append : (p s : List ℕ) → drop_like p (p ++ s) ≡ s
unfolding drop_like
drop_like-append [] s = refl
drop_like-append (c ∷ p) s = drop_like-append p s

-- strings.Fields: the words between white space, after the start of a word.
unfoldable pub fields_from : List ℕ → List ℕ → List (List ℕ)
unfolding is_space
fields_from [] [] = []
fields_from (c ∷ w) [] = (c ∷ w) ∷ []
fields_from [] (b ∷ s) =
    let inside = fields_from (b ∷ []) s in
    let outside = fields_from [] s in if is_space b then outside else inside
fields_from (c ∷ w) (b ∷ s) =
    let inside = fields_from ((c ∷ w) ++ b ∷ []) s in
    let outside = fields_from [] s in if is_space b then (c ∷ w) ∷ outside else inside

unfoldable pub fields : List ℕ → List (List ℕ)
unfolding fields_from
fields s = fields_from [] s

-- strings.SplitN with 2 parts, and strings.Cut: the texts around the first separator.
unfoldable pub cut : ℕ → List ℕ → Option (List ℕ × List ℕ)
cut sep [] = none
cut sep (c ∷ s) =
    let rest = cut sep s in
    if nat_beq c sep
    then some ([], s)
    else elim rest [ none ↦ none | some (before, after) ↦ some (c ∷ before, after) ]
