-- ===== src/Network/Address/RoundTrip.antt =====
-- internal/sensor/network/parse.go: about the addresses that the kernel prints.
use scrutiny.Base.{
  ℕ, ◌+◌, ◌*◌, ◌-◌, ◌/◌, ◌%◌, ◌<◌, ◌≡◌, refl, ap, ◌∙◌, none, some, List, [], ◌∷◌, ◌++◌,
  if◌then◌else◌, ltb, arith,
}
use scrutiny.Base.Eq.{nat_eq}
use scrutiny.Base.Int64.{word}
use scrutiny.Base.Text.{Text}
use scrutiny.Base.Numeral.{hex_digit, hex_from, parse_hex}
use scrutiny.Network.Address.{v4, decode_hex, parse_hex_bits, cut_last, parse_hex_addr}

-- `%X` of a digit, a byte and a port, with leading zeros.
abbrev upper_hex : ℕ → ℕ
upper_hex d = if ltb d 10 then b'0' + d else b'A' + (d - 10)

unfoldable pub hex_byte : ℕ → Text
hex_byte n = upper_hex (n / 16) ∷ upper_hex (n % 16) ∷ []

unfoldable pub port_text : ℕ → Text
port_text port = hex_byte (port / 256) ++ hex_byte (port % 256)

-- The token of an address a.b.c.d: the bytes of the word that the kernel prints, the last first.
abbrev pub kernel_token : ℕ → ℕ → ℕ → ℕ → ℕ → Text
kernel_token a b c d port =
    (hex_byte d ++ (hex_byte c ++ (hex_byte b ++ hex_byte a))) ++ b':' ∷ port_text port

hex_digit-upper_hex : (d : ℕ) → d < 16 → hex_digit (upper_hex d) ≡ some d
unfolding hex_digit
hex_digit-upper_hex d h = ground arith

decode_hex-hex_byte :
    (n : ℕ) (s : Text) {bytes : List ℕ}
    → n < 256
    → decode_hex s ≡ some bytes
    → decode_hex (hex_byte n ++ s) ≡ some (n ∷ bytes)
unfolding decode_hex hex_byte
decode_hex-hex_byte n s h e =
    ground (arith, e, hex_digit-upper_hex (n / 16), hex_digit-upper_hex (n % 16))

hex_from-upper_hex :
    (m d : ℕ) (s : Text)
    → d < 16
    → m * 16 + d < word
    → hex_from m (upper_hex d ∷ s) ≡ hex_from (m * 16 + d) s
unfolding hex_from
hex_from-upper_hex m d s h small = ground (arith, hex_digit-upper_hex d h, small)

hex_from-hex_byte :
    (m n : ℕ) (s : Text)
    → n < 256
    → m * 256 + n < word
    → hex_from m (hex_byte n ++ s) ≡ hex_from (m * 256 + n) s
unfolding hex_byte
hex_from-hex_byte m n s h small =
    let value : (m * 16 + n / 16) * 16 + n % 16 ≡ m * 256 + n = omega arith in
    hex_from-upper_hex m (n / 16) (upper_hex (n % 16) ∷ s) (omega (arith, h)) (omega (arith, small))
    ∙ hex_from-upper_hex (m * 16 + n / 16) (n % 16) s (omega arith) (omega (arith, small))
    ∙ ap (λ v. hex_from v s) value

cut_last-append :
    (sep : ℕ) (s t : Text) → cut_last sep t ≡ none → cut_last sep (s ++ sep ∷ t) ≡ some (s, t)
unfolding cut_last
cut_last-append sep [] t h = ground (arith, h)
cut_last-append sep (c ∷ s) t h = ground (arith, cut_last-append sep s t h)

cut_last-hex_byte :
    (n : ℕ) (s : Text) → cut_last b':' s ≡ none → cut_last b':' (hex_byte n ++ s) ≡ none
unfolding cut_last hex_byte
cut_last-hex_byte n s h = ground (arith, h)

cut_last-port : (port : ℕ) → cut_last b':' (port_text port) ≡ none
unfolding port_text hex_byte cut_last
cut_last-port port =
    cut_last-hex_byte (port / 256) (hex_byte (port % 256)) (cut_last-hex_byte (port % 256) [] refl)

parse_hex-port : (port : ℕ) → port < 65536 → parse_hex (port_text port) ≡ some port
unfolding port_text hex_byte parse_hex hex_from
parse_hex-port port h =
    let value : (0 * 256 + port / 256) * 256 + port % 256 ≡ port = omega arith in
    hex_from-hex_byte 0 (port / 256) (hex_byte (port % 256)) (omega (arith, h)) (omega (arith, h))
    ∙ hex_from-hex_byte (0 * 256 + port / 256) (port % 256) [] (omega arith) (omega (arith, h))
    ∙ ap some value

parse_hex_bits-port : (port : ℕ) → port < 65536 → parse_hex_bits 32 (port_text port) ≡ some port
unfolding parse_hex_bits
parse_hex_bits-port port h = ground (arith, h, parse_hex-port port h)

decode_hex-word :
    (a b c d : ℕ)
    → a < 256
    → b < 256
    → c < 256
    → d < 256
    → decode_hex (hex_byte d ++ (hex_byte c ++ (hex_byte b ++ hex_byte a)))
      ≡ some (d ∷ c ∷ b ∷ a ∷ [])
unfolding hex_byte decode_hex
decode_hex-word a b c d ha hb hc hd =
    let last : decode_hex (hex_byte a ++ []) ≡ some (a ∷ []) = decode_hex-hex_byte a [] ha refl in
    let tail : decode_hex (hex_byte b ++ hex_byte a) ≡ some (b ∷ a ∷ []) =
      decode_hex-hex_byte b (hex_byte a) hb last in
    decode_hex-hex_byte d (hex_byte c ++ (hex_byte b ++ hex_byte a)) hd
      (decode_hex-hex_byte c (hex_byte b ++ hex_byte a) hc tail)

-- An IPv4 address and a port that the kernel prints are read back: the four bytes in their order.
pub parse_hex_addr-kernel_token :
    (a b c d port : ℕ)
    → a < 256
    → b < 256
    → c < 256
    → d < 256
    → port < 65536
    → parse_hex_addr (kernel_token a b c d port) ≡ some (v4 a b c d, port)
unfolding parse_hex_addr
parse_hex_addr-kernel_token a b c d port ha hb hc hd hp =
    let word = hex_byte d ++ (hex_byte c ++ (hex_byte b ++ hex_byte a)) in
    ground (
      arith,
      cut_last-append b':' word (port_text port) (cut_last-port port),
      parse_hex_bits-port port hp,
      decode_hex-word a b c d ha hb hc hd,
    )
