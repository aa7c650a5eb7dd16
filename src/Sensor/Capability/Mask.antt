-- ===== src/Sensor/Capability/Mask.antt =====
-- internal/sensor/capability.go: about the mask that checkCapFromProcStatus reads.
use scrutiny.Base.{
  ℕ, ◌+◌, ◌*◌, ◌<◌, ◌≤◌, ◌≡◌, refl, false, some, List, [], ◌∷◌, ◌++◌, map, arith, ltb,
  if◌then◌else◌, All,
}
use scrutiny.Base.Int64.{word}
use scrutiny.Base.Numeral.{hex_digit, hex_from, parse_hex}
use scrutiny.Base.Text.{Text, codes}
use scrutiny.Base.Text.Search.{has_prefix, has_prefix-append}
use scrutiny.Base.Text.Parts.{is_space, drop_while, trim_end, trim, trim_space, drop_like-append}
use scrutiny.Sensor.Capability.{cap_name_to_bit, bit, cap_in_lines}

-- A hexadecimal digit in print, as the kernel prints it.
abbrev pub hex_char : ℕ → ℕ
hex_char d = if ltb d 10 then d + b'0' else d + 87

-- The number of the digits, after digits of value `n`.
abbrev pub hex_value : ℕ → List ℕ → ℕ
hex_value n [] = n
hex_value n (d ∷ ds) = hex_value (n * 16 + d) ds

hex_value-le : (n : ℕ) (ds : List ℕ) → n ≤ hex_value n ds
hex_value-le n [] = omega arith
hex_value-le n (d ∷ ds) = omega (arith, hex_value-le (n * 16 + d) ds)

hex_digit-char : (d : ℕ) → d < 16 → hex_digit (hex_char d) ≡ some d
unfolding hex_digit
hex_digit-char d h = ground arith

hex_from-chars :
    (n : ℕ) (ds : List ℕ)
    → All (λ d. d < 16) ds
    → hex_value n ds < word
    → hex_from n (map hex_char ds) ≡ some (hex_value n ds)
unfolding hex_from
hex_from-chars n [] a h = refl
hex_from-chars n (d ∷ ds) (small, a) h =
    rw (hex_digit-char d small, hex_from)
      (ground (arith, hex_value-le (n * 16 + d) ds, hex_from-chars (n * 16 + d) ds a h))

not_space : (d : ℕ) → d < 16 → is_space (hex_char d) ≡ false
unfolding is_space
not_space d h = ground arith

trim_end-chars :
    (ds : List ℕ) → All (λ d. d < 16) ds → trim_end is_space (map hex_char ds) ≡ map hex_char ds
unfolding trim_end
trim_end-chars [] a = refl
trim_end-chars (d ∷ []) (small, a) = rw (not_space d small) refl
trim_end-chars (d ∷ e ∷ ds) (small, a) = rw (trim_end-chars (e ∷ ds) a, trim_end) refl

trim_tab : (ds : List ℕ) → All (λ d. d < 16) ds → trim_space (9 ∷ map hex_char ds) ≡ map hex_char ds
unfolding trim_space trim drop_while
trim_tab [] a = refl
trim_tab (d ∷ ds) (small, a) =
    rw (trim_end-chars (d ∷ ds) (small, a), trim_end) (rw (not_space d small, drop_while) refl)

-- The line of the effective set in /proc/self/status.
abbrev pub cap_line : List ℕ → Text
cap_line ds = codes "CapEff:" ++ b'\t' ∷ map hex_char ds

own_line :
    (name : Text) (n d : ℕ) (ds : List ℕ) (post : List Text)
    → cap_name_to_bit name ≡ some n
    → All (λ d. d < 16) (d ∷ ds)
    → hex_value 0 (d ∷ ds) < word
    → cap_in_lines name (cap_line (d ∷ ds) ∷ post) ≡ bit (hex_value 0 (d ∷ ds)) n
unfolding cap_in_lines parse_hex
own_line name n d ds post known a small =
    let digits = b'\t' ∷ map hex_char (d ∷ ds) in
    rw
      (
        has_prefix-append (codes "CapEff:") digits,
        drop_like-append (codes "CapEff:") digits,
        trim_tab (d ∷ ds) a,
        hex_from-chars 0 (d ∷ ds) a small,
        known,
      )
      refl

-- A known capability is held exactly when its bit is set in the mask of the first line that begins
-- with `CapEff:`, whatever the other lines say; for a mask of at most 64 bits in hexadecimal digits.
pub cap_in_lines-mask :
    (name : Text) (n d : ℕ) (ds : List ℕ) (pre post : List Text)
    → cap_name_to_bit name ≡ some n
    → All (λ d. d < 16) (d ∷ ds)
    → hex_value 0 (d ∷ ds) < word
    → All (λ line. has_prefix line (codes "CapEff:") ≡ false) pre
    → cap_in_lines name (pre ++ cap_line (d ∷ ds) ∷ post) ≡ bit (hex_value 0 (d ∷ ds)) n
unfolding cap_in_lines
cap_in_lines-mask name n d ds [] post known a small other = own_line name n d ds post known a small
cap_in_lines-mask name n d ds (line ∷ pre) post known a small (p, other) =
    rw (p) (cap_in_lines-mask name n d ds pre post known a small other)
