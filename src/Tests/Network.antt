-- ===== src/Tests/Network.antt =====
-- The network sensor on concrete input.
use scrutiny.Base.{◌≡◌, refl, none, some, Option, List, [], ◌∷◌, ◌++◌, map, if◌then◌else◌, arith}
use scrutiny.Base.Eq.{◌==◌, nat_eq, has, Distinct, list_beq}
use scrutiny.Base.Int64.{Int64}
use scrutiny.Base.Text.{Text, codes, text_eq}
use scrutiny.Procfs.Collect.{Snapshot}
use scrutiny.Network.Address.{Ip, v4, v6, ip_string, parse_hex_addr}
use scrutiny.Network.Address.RoundTrip.{kernel_token, parse_hex_addr-kernel_token}
use scrutiny.Network.Collect.{listen_key, out_key, seen_raw_key, collect_network}
use scrutiny.Network.Collect.Union.{
  some_poll, own_ports, own_connections, own_raw, promiscuous, collect_network-union,
}

abbrev address : Ip
address = v4 127 0 0 1

parsed : parse_hex_addr (codes "0100007F:1F90") ≡ some (address, 8080)
unfolding parse_hex_addr codes
parsed = refl

printed : ip_string address ≡ codes "127.0.0.1"
unfolding ip_string codes
printed = refl

shortened :
    ip_string (v6 (32 ∷ 1 ∷ 13 ∷ 184 ∷ 0 ∷ 0 ∷ 0 ∷ 0 ∷ 0 ∷ 0 ∷ 0 ∷ 0 ∷ 0 ∷ 0 ∷ 0 ∷ 1 ∷ []))
    ≡ codes "2001:db8::1"
unfolding ip_string codes
shortened = refl

mapped :
    ip_string (v6 (0 ∷ 0 ∷ 0 ∷ 0 ∷ 0 ∷ 0 ∷ 0 ∷ 0 ∷ 0 ∷ 0 ∷ 255 ∷ 255 ∷ 10 ∷ 0 ∷ 0 ∷ 1 ∷ []))
    ≡ codes "10.0.0.1"
unfolding ip_string codes
mapped = refl

unspecified :
    ip_string (v6 (0 ∷ 0 ∷ 0 ∷ 0 ∷ 0 ∷ 0 ∷ 0 ∷ 0 ∷ 0 ∷ 0 ∷ 0 ∷ 0 ∷ 0 ∷ 0 ∷ 0 ∷ 0 ∷ [])) ≡ codes "::"
unfolding ip_string codes
unspecified = refl

parse_hex_addr-kernel_token_example :
    parse_hex_addr (kernel_token 127 0 0 1 8080) ≡ some (address, 8080)
parse_hex_addr-kernel_token_example =
    parse_hex_addr-kernel_token 127 0 0 1 8080 (omega arith) (omega arith) (omega arith)
      (omega arith) (omega arith)

-- The target 7 owns the listening socket 55, and not the socket 66.
abbrev snapshot : Snapshot
snapshot = record {
  read_file = λ path.
      if path == codes "/proc/7/net/tcp"
      then some (
          codes "header\n 0: 0100007F:1F90 00000000:0000 0A 0:0 00:0 0 0 0 55 1\n"
          ++ codes " 1: 0100007F:0050 00000000:0000 0A 0:0 00:0 0 0 0 66 1\n")
      else none;
  read_dir = λ path. if path == codes "/proc/7/fd" then some (codes "3" ∷ []) else none;
  readlink = λ path. if path == codes "/proc/7/fd/3" then some (codes "socket:[55]") else none;
  sha256 = λ path. none;
  offset_ms = 5;
}

abbrev unnamed : Int64 → Option Text
unnamed index = none

one_port :
    map listen_key (collect_network unnamed 7 (snapshot ∷ snapshot ∷ [])).listening_ports
    ≡ codes "tcp|127.0.0.1|8080" ∷ []
unfolding collect_network listen_key list_beq codes scrutiny.Baseline.Maps.keep_first
    scrutiny.Base.Assoc.lookup scrutiny.Base.Assoc.insert
one_port = refl

abbrev port : Text
port = codes "tcp|127.0.0.1|8080"

abbrev polls : List Snapshot
polls = snapshot ∷ snapshot ∷ []

collect_network-union_example :
    let r = collect_network unnamed 7 polls in
    (has port (map listen_key r.listening_ports)
      ≡ some_poll (λ p. has port (map listen_key (own_ports unnamed 7 p))) polls)
    × Distinct (map listen_key r.listening_ports)
    × (has port (map out_key r.outbound_connections)
        ≡ some_poll (λ p. has port (map out_key (own_connections unnamed 7 p))) polls)
    × Distinct (map out_key r.outbound_connections)
    × (has port (map seen_raw_key r.raw_sockets)
        ≡ some_poll (λ p. has port (map seen_raw_key (own_raw unnamed 7 p))) polls)
    × Distinct (map seen_raw_key r.raw_sockets)
    × (has port r.promiscuous_interfaces
        ≡ some_poll (λ p. has port (promiscuous unnamed 7 p)) polls)
collect_network-union_example = collect_network-union unnamed 7 port polls
