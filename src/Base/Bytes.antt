-- ===== src/Base/Bytes.antt =====
-- encoding/binary: unsigned little-endian words as lists of bytes, and a chain of reads.
use Prim.Native.Nat.{ℕ, zero, suc, ◌+◌, ◌*◌, ◌/◌, ◌%◌, ◌<◌}
use mathlib.Core.Path.{◌≡◌, refl, ap, ◌∙◌}
use mathlib.Core.Option.{Option, none, some}
use mathlib.Core.List.{List, [], ◌∷◌, ◌++◌, append_assoc}
use native.Mathlib.Omega.{arith}
use scrutiny.Base.Lists.{length, All}

infixl 5 ◌>>=◌
abbrev pub ◌>>=◌ {ℓ κ} : {A : Type ℓ} {B : Type κ} → Option A → (A → Option B) → Option B
none >>= f = none
some a >>= f = f a

-- 256 ^ n
abbrev pub byte_power : ℕ → ℕ
byte_power zero = 1
byte_power (suc n) = 256 * byte_power n

-- The first `n` bytes as a number, and the bytes after them.
unfoldable pub read_word : ℕ → List ℕ → Option (ℕ × List ℕ)
read_word zero s = some (0, s)
read_word (suc n) [] = none
read_word (suc n) (b ∷ s) = read_word n s >>= λ (v, rest). some (b + 256 * v, rest)

unfoldable pub write_word : ℕ → ℕ → List ℕ
write_word zero v = []
write_word (suc n) v = v % 256 ∷ write_word n (v / 256)

pub read_word-write_word :
    (n v : ℕ) (s : List ℕ) → v < byte_power n → read_word n (write_word n v ++ s) ≡ some (v, s)
unfolding read_word write_word
read_word-write_word zero v s h = ground arith
read_word-write_word (suc n) v s h =
    let rest = read_word-write_word n (v / 256) s (omega arith) in ground (arith, rest)

-- As many bytes as they are, apart.
unfoldable pub read_bytes : ℕ → List ℕ → Option (List ℕ × List ℕ)
read_bytes zero s = some ([], s)
read_bytes (suc n) [] = none
read_bytes (suc n) (b ∷ s) = read_bytes n s >>= λ (v, rest). some (b ∷ v, rest)

pub read_bytes-append : (n : ℕ) (v s : List ℕ) → length v ≡ n → read_bytes n (v ++ s) ≡ some (v, s)
unfolding read_bytes
read_bytes-append zero [] s h = refl
read_bytes-append (suc n) [] s h = ground arith
read_bytes-append zero (b ∷ v) s h = ground arith
read_bytes-append (suc n) (b ∷ v) s h = rw (read_bytes-append n v s (omega arith))

-- `n` words of eight bytes
unfoldable pub read_words : ℕ → List ℕ → Option (List ℕ × List ℕ)
unfolding read_word
read_words zero s = some ([], s)
read_words (suc n) s =
    read_word 8 s >>= λ (v, rest). read_words n rest >>= λ (vs, rest). some (v ∷ vs, rest)

unfoldable pub write_words : List ℕ → List ℕ
unfolding write_word
write_words [] = []
write_words (v ∷ vs) = write_word 8 v ++ write_words vs

pub read_words-write_words :
    (n : ℕ) (vs s : List ℕ)
    → length vs ≡ n
    → All (λ v. v < byte_power 8) vs
    → read_words n (write_words vs ++ s) ≡ some (vs, s)
unfolding read_words write_words
read_words-write_words zero [] s e h = refl
read_words-write_words (suc n) [] s e h = ground arith
read_words-write_words zero (v ∷ vs) s e h = ground arith
read_words-write_words (suc n) (v ∷ vs) s e (hv, h) =
    let tail = write_words vs ++ s in
    let short : length vs ≡ n = omega (arith, e) in
    let rest =
      λ (o : Option (ℕ × List ℕ)). o >>= λ (x, r). read_words n r >>= λ (xs, r). some (x ∷ xs, r) in
    let last = λ (o : Option (List ℕ × List ℕ)). o >>= λ (xs, r). some (v ∷ xs, r) in
    ap (read_words (suc n)) (append_assoc (write_word 8 v) (write_words vs) s)
    ∙ ap rest (read_word-write_word 8 v tail hv)
    ∙ ap last (read_words-write_words n vs s short h)
