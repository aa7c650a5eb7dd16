-- ===== src/Network/Address.antt =====
-- internal/sensor/network/parse.go: parseHexAddr, and net.IP with its String method.
pub mod RoundTrip
use scrutiny.Base.{
  ℕ, ◌+◌, ◌*◌, ◌-◌, ◌^◌, Bool, true, false, ◌&&◌, ◌||◌, Option, none, some, List, [], ◌∷◌, ◌++◌,
  if◌then◌else◌, ltb, length, reverse,
}
use scrutiny.Base.Eq.{◌==◌, nat_eq}
use scrutiny.Base.Int64.{Int64}
use scrutiny.Base.Text.{Text, codes, join}
use scrutiny.Base.Text.Search.{has_prefix}
use scrutiny.Base.Text.Parts.{drop_like}
use scrutiny.Base.Decimal.{decimal_nat, hex_nat}
use scrutiny.Base.Numeral.{hex_digit, parse_hex}

-- net.IPv4 of four bytes, and a net.IP of sixteen.
pub data Ip : Type 0 where
  v4 : ℕ → ℕ → ℕ → ℕ → Ip
  v6 : List ℕ → Ip

dotted : ℕ → ℕ → ℕ → ℕ → Text
unfolding decimal_nat join
dotted a b c d =
    join (decimal_nat a ∷ decimal_nat b ∷ decimal_nat c ∷ decimal_nat d ∷ []) (codes ".")

-- The eight 16-bit groups of sixteen bytes.
groups_of : List ℕ → List ℕ
groups_of (a ∷ b ∷ s) = (a * 256 + b) ∷ groups_of s
groups_of _ = []

leading_zeros : List ℕ → ℕ
leading_zeros [] = 0
leading_zeros (g ∷ l) = let rest = leading_zeros l in if g == 0 then rest + 1 else 0

-- The start and the length of the first longest run of two zero groups or more, from an index on.
longest_run : ℕ → ℕ × ℕ → List ℕ → ℕ × ℕ
unfolding leading_zeros
longest_run i best [] = best
longest_run i (start, size) (g ∷ l) =
    let run = leading_zeros (g ∷ l) in
    longest_run (i + 1) (if ltb 1 run && ltb size run then (i, run) else (start, size)) l

-- The groups in hexadecimal, from an index on; a run is written as two colons.
groups_text : ℕ → ℕ → ℕ → List ℕ → Text
unfolding hex_nat
groups_text i start size [] = []
groups_text i start size (g ∷ l) =
    let rest = groups_text (i + 1) start size l in
    let inside = ltb 0 size && ltb start (i + 1) && ltb i (start + size) in
    let after = ltb 0 size && i == start + size in
    if inside
    then if i == start then codes "::" ++ rest else rest
    else if i == 0 || after
    then hex_nat g ++ rest
    else codes ":" ++ hex_nat g ++ rest

-- The first bytes of an address that stands for an IPv4 one.
abbrev mapped_prefix : List ℕ
mapped_prefix = 0 ∷ 0 ∷ 0 ∷ 0 ∷ 0 ∷ 0 ∷ 0 ∷ 0 ∷ 0 ∷ 0 ∷ 255 ∷ 255 ∷ []

dotted_bytes : List ℕ → Text
unfolding dotted
dotted_bytes (a ∷ b ∷ c ∷ d ∷ []) = dotted a b c d
dotted_bytes _ = []

unfoldable pub ip_string : Ip → Text
unfolding dotted dotted_bytes groups_of longest_run groups_text has_prefix drop_like
ip_string (v4 a b c d) = dotted a b c d
ip_string (v6 bytes) =
    let groups = groups_of bytes in
    let (start, size) = longest_run 0 (0, 0) groups in
    if has_prefix bytes mapped_prefix
    then dotted_bytes (drop_like mapped_prefix bytes)
    else groups_text 0 start size groups

-- The bytes of pairs of hexadecimal digits.
unfoldable pub decode_hex : Text → Option (List ℕ)
unfolding hex_digit
decode_hex [] = some []
decode_hex (c ∷ []) = none
decode_hex (c ∷ d ∷ s) =
    let rest = decode_hex s in
    elim (hex_digit c) [
      | none ↦ none
      | some high ↦ elim (hex_digit d) [
        | none ↦ none
        | some low ↦ elim rest [ none ↦ none | some bytes ↦ some ((high * 16 + low) ∷ bytes) ]
      ]
    ]

-- ParseUint in base 16 of at most so many bits.
unfoldable pub parse_hex_bits : ℕ → Text → Option ℕ
unfolding parse_hex
parse_hex_bits bits s = elim (parse_hex s) [
  | none ↦ none
  | some n ↦ if ltb n (2 ^ bits) then some n else none
]

-- The texts around the last separator.
unfoldable pub cut_last : ℕ → Text → Option (Text × Text)
cut_last sep [] = none
cut_last sep (c ∷ s) = elim (cut_last sep s) [
  | some (before, after) ↦ some (c ∷ before, after)
  | none ↦ if c == sep then some ([], s) else none
]

-- The bytes of each little-endian word, in order.
unfoldable pub ip_of : List ℕ → Option Ip
ip_of (a ∷ b ∷ c ∷ d ∷ []) = some (v4 d c b a)
ip_of (a0 ∷ a1 ∷ a2 ∷ a3 ∷ b0 ∷ b1 ∷ b2 ∷ b3 ∷ c0 ∷ c1 ∷ c2 ∷ c3 ∷ d0 ∷ d1 ∷ d2 ∷ d3 ∷ []) =
    some (v6 (a3 ∷ a2 ∷ a1 ∷ a0 ∷ b3 ∷ b2 ∷ b1 ∷ b0 ∷ c3 ∷ c2 ∷ c1 ∷ c0 ∷ d3 ∷ d2 ∷ d1 ∷ d0 ∷ []))
ip_of _ = none

-- None where the function returns an error.
unfoldable pub parse_hex_addr : Text → Option (Ip × Int64)
unfolding cut_last parse_hex_bits decode_hex ip_of
parse_hex_addr token = elim (cut_last b':' token) [
  | none ↦ none
  | some (addr, port) ↦ elim (parse_hex_bits 32 port) [
    | none ↦ none
    | some n ↦ elim (decode_hex addr) [
      | none ↦ none
      | some bytes ↦ elim (ip_of bytes) [ none ↦ none | some ip ↦ some (ip, n) ]
    ]
  ]
]
