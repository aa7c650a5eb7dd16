-- ===== src/Base/Text/Search.antt =====
-- strings.HasPrefix, HasSuffix, Contains and ToLower over bytes.
use Prim.Native.Nat.{ℕ, ◌+◌}
use mathlib.Core.Path.{◌≡◌, refl}
use mathlib.Core.Bool.{Bool, true, false, ◌&&◌, ◌||◌}
use mathlib.Core.List.{List, [], ◌∷◌, ◌++◌, map}
use native.Mathlib.Omega.{arith}
use scrutiny.Base.Tests.{leb, nat_beq, if◌then◌else◌}

-- has_prefix s p: does `s` begin with `p`?
unfoldable pub has_prefix : List ℕ → List ℕ → Bool
has_prefix s [] = true
has_prefix [] (c ∷ p) = false
has_prefix (b ∷ s) (c ∷ p) = nat_beq b c && has_prefix s p

unfoldable pub contains : List ℕ → List ℕ → Bool
unfolding has_prefix
contains [] p = has_prefix [] p
contains (b ∷ s) p = has_prefix (b ∷ s) p || contains s p

lower_byte : ℕ → ℕ
lower_byte c = if leb b'A' c && leb c b'Z' then c + 32 else c

-- On ASCII text; `strings.ToLower` also maps the capitals of other scripts.
unfoldable pub to_lower : List ℕ → List ℕ
unfolding lower_byte
to_lower = map lower_byte

pub has_prefix-append : (p s : List ℕ) → has_prefix (p ++ s) p ≡ true
unfolding has_prefix
has_prefix-append [] s = refl
has_prefix-append (c ∷ p) s = ground (arith, has_prefix-append p s)

-- What begins with `p` is `p` followed by some text.
pub has_prefix_rest : (s p : List ℕ) → has_prefix s p ≡ true → (r : List ℕ) × (s ≡ p ++ r)
unfolding has_prefix
has_prefix_rest s [] h = (s, refl)
has_prefix_rest [] (c ∷ p) h = ([], cc)
has_prefix_rest (b ∷ s) (c ∷ p) h =
    let (r, e) = has_prefix_rest s p (ground arith) in (r, ground (arith, e))

-- has_suffix s p: does `s` end with `p`?
unfoldable pub has_suffix : List ℕ → List ℕ → Bool
unfolding has_prefix
has_suffix [] p = has_prefix [] p
has_suffix (b ∷ s) p = has_prefix (b ∷ s) p && has_prefix p (b ∷ s) || has_suffix s p
