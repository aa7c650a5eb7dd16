-- ===== src/Analysis/Keys.antt =====
-- internal/analysis/analyze.go: the keys by which sockets are compared, and the small helpers.
use scrutiny.Base.{
  ℕ, ◌+◌, ◌-◌, ◌/◌, ◌%◌, Bool, false, not, ◌&&◌, ◌||◌, List, [], ◌∷◌, ◌++◌, ltb, if◌then◌else◌,
  length,
}
use scrutiny.Base.Eq.{◌==◌, nat_eq, has}
use scrutiny.Base.Text.{Text, codes, text_eq}
use scrutiny.Base.Text.Search.{has_prefix}
use scrutiny.Base.Decimal.{decimal}
use scrutiny.Schema.Platform.{context_eq}
use scrutiny.Schema.Observed.{ListeningPort, OutboundConnection, RawSocket}
use scrutiny.Schema.Anomaly.{dimension_eq, anomaly_type_eq}
use scrutiny.Schema.Baseline.{confidence_eq}

unfoldable pub port_key : ListeningPort → Text
port_key p = p.proto ++ (codes "|" ++ (p.address ++ (codes "|" ++ decimal p.port)))

unfoldable pub conn_key : OutboundConnection → Text
conn_key c =
    c.proto ++ (codes "|" ++ (c.destination_ip ++ (codes "|" ++ decimal c.destination_port)))

unfoldable pub raw_key : RawSocket → Text
raw_key r = r.family ++ (codes "|" ++ (r.protocol ++ (codes "|" ++ r.interface)))

-- The entries of the new list that the old one lacks.
unfoldable pub diff_strings : List Text → List Text → List Text
diff_strings old [] = []
diff_strings old (s ∷ l) =
    let rest = diff_strings old l in if not (has s old) then s ∷ rest else rest

unfoldable pub has_prefix_any : Text → List Text → Bool
has_prefix_any path [] = false
has_prefix_any path (p ∷ prefixes) =
    (ltb 0 (length p) && has_prefix path p) || has_prefix_any path prefixes

hex_digit : ℕ → ℕ
hex_digit d = if ltb d 10 then b'0' + d else b'a' + (d - 10)

quote_byte : ℕ → Text
unfolding codes hex_digit
quote_byte c =
    if c == b'"'
    then codes "\\\""
    else if c == b'\\'
    then codes "\\\\"
    else if c == 7
    then codes "\\a"
    else if c == 8
    then codes "\\b"
    else if c == 12
    then codes "\\f"
    else if c == 10
    then codes "\\n"
    else if c == 13
    then codes "\\r"
    else if c == 9
    then codes "\\t"
    else if c == 11
    then codes "\\v"
    else if ltb c 32 || c == 127
    then codes "\\x" ++ (hex_digit (c / 16) ∷ hex_digit (c % 16) ∷ [])
    else c ∷ []

quote_bytes : Text → Text
unfolding quote_byte
quote_bytes [] = []
quote_bytes (c ∷ s) = quote_byte c ++ quote_bytes s

-- `%q` on ASCII text; bytes from 128 on are copied, as those of printable UTF-8 are.
unfoldable pub quote : Text → Text
unfolding quote_bytes
quote s = b'"' ∷ (quote_bytes s ++ b'"' ∷ [])
