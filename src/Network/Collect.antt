-- ===== src/Network/Collect.antt =====
-- internal/sensor/network/collector_linux.go: the polls of Collect and the order of its results. A
-- poll is a snapshot of /proc and /sys, and the sequence of polls is a parameter.
pub mod Union
use scrutiny.Base.{
  ℕ, ◌-◌, ◌%◌, Bool, true, false, not, ◌&&◌, Option, none, some, List, [], ◌∷◌, ◌++◌, map,
  if◌then◌else◌, ltb, nat_beq, leb,
}
use scrutiny.Base.Eq.{◌==◌, nat_eq, has}
use scrutiny.Base.Int64.{Int64, slt, word, sign_bit}
use scrutiny.Base.Text.{Text, codes, text_eq}
use scrutiny.Base.Text.Order.{text_lt}
use scrutiny.Base.Text.Search.{has_prefix, has_suffix}
use scrutiny.Base.Text.Parts.{trim_space, trim_prefix, drop_like}
use scrutiny.Base.Decimal.{decimal}
use scrutiny.Base.Numeral.{parse_hex}
use scrutiny.Base.Assoc.{Assoc, values}
use scrutiny.Base.Sort.{sort_by}
use scrutiny.Schema.Observed.{
  ListeningPort, OutboundConnection, RawSocket, NetworkObservation, no_network,
}
use scrutiny.Sensor.Capability.{bit}
use scrutiny.Baseline.Maps.{keep_first, add_names}
use scrutiny.Procfs.Collect.{Snapshot, proc_path}
use scrutiny.Network.System.{socket_inodes, promiscuous_interfaces_now}
use scrutiny.Network.Parse.{parse_proc_net, parse_raw_sockets, parse_packet_sockets}

-- The keys of the maps of seen sockets.
unfoldable pub listen_key : ListeningPort → Text
listen_key p = p.proto ++ codes "|" ++ p.address ++ codes "|" ++ decimal p.port

unfoldable pub out_key : OutboundConnection → Text
out_key c = c.proto ++ codes "|" ++ c.destination_ip ++ codes "|" ++ decimal c.destination_port

unfoldable pub seen_raw_key : RawSocket → Text
seen_raw_key r =
    r.family ++ codes "|" ++ r.protocol ++ codes "|" ++ r.interface ++ codes "|" ++ r.inode

pub record NetState : Type 0 where
  pub listen_seen : Assoc Text ListeningPort
  pub out_seen : Assoc Text OutboundConnection
  pub raw_seen : Assoc Text RawSocket
  pub promisc_seen : List Text

abbrev pub no_sockets : NetState
no_sockets = record { listen_seen = []; out_seen = []; raw_seen = []; promisc_seen = [] }

unfoldable pub stamp_port : Int64 → ListeningPort → ListeningPort
stamp_port offset p = record p { first_seen_offset_ms = offset }

unfoldable pub stamp_connection : Int64 → OutboundConnection → OutboundConnection
stamp_connection offset c = record c { first_seen_offset_ms = offset }

unfoldable pub stamp_raw : Int64 → RawSocket → RawSocket
stamp_raw offset r = record r { first_seen_offset_ms = offset }

-- The contents of a table; empty where it is not read, which is a table without sockets.
unfoldable pub table : Snapshot → Int64 → Text → Text
unfolding proc_path
table p pid file = elim (p.read_file (proc_path pid (codes "net/" ++ file))) [
  | none ↦ []
  | some contents ↦ contents
]

-- The tcp and udp tables, with the label of each.
abbrev pub net_tables : List (Text × Text)
net_tables =
    (codes "tcp", codes "tcp")
    ∷ (codes "tcp6", codes "tcp")
    ∷ (codes "udp", codes "udp")
    ∷ (codes "udp6", codes "udp")
    ∷ []

unfoldable pub ports_in : Snapshot → Int64 → List Text → List (Text × Text) → List ListeningPort
unfolding table parse_proc_net stamp_port
ports_in p pid own [] = []
ports_in p pid own ((file, proto) ∷ l) =
    map (stamp_port p.offset_ms) (parse_proc_net (table p pid file) proto (some own)).0
    ++ ports_in p pid own l

unfoldable pub connections_in :
    Snapshot → Int64 → List Text → List (Text × Text) → List OutboundConnection
unfolding table parse_proc_net stamp_connection
connections_in p pid own [] = []
connections_in p pid own ((file, proto) ∷ l) =
    map (stamp_connection p.offset_ms) (parse_proc_net (table p pid file) proto (some own)).1
    ++ connections_in p pid own l

-- `name` is the name of the interface with an index.
unfoldable pub raw_in : (Int64 → Option Text) → Snapshot → Int64 → List Text → List RawSocket
unfolding table parse_raw_sockets parse_packet_sockets stamp_raw
raw_in name p pid own = map (stamp_raw p.offset_ms) (
    parse_raw_sockets (table p pid (codes "raw")) (some own)
    ++ parse_raw_sockets (table p pid (codes "raw6")) (some own)
    ++ parse_packet_sockets name (table p pid (codes "packet")) (some own))

unfoldable pub poll_network : (Int64 → Option Text) → Int64 → Snapshot → NetState → NetState
unfolding socket_inodes ports_in connections_in raw_in promiscuous_interfaces_now
poll_network name pid p s = elim (socket_inodes p pid) [
  | none ↦ s
  | some own ↦ record {
    listen_seen = keep_first listen_key (ports_in p pid own net_tables) s.listen_seen;
    out_seen = keep_first out_key (connections_in p pid own net_tables) s.out_seen;
    raw_seen = keep_first seen_raw_key (raw_in name p pid own) s.raw_seen;
    promisc_seen = add_names (promiscuous_interfaces_now p) s.promisc_seen;
  }
]

unfoldable pub poll_networks : (Int64 → Option Text) → Int64 → List Snapshot → NetState → NetState
unfolding poll_network
poll_networks name pid [] s = s
poll_networks name pid (p ∷ l) s = poll_networks name pid l (poll_network name pid p s)

abbrev pub listen_less : ListeningPort → ListeningPort → Bool
listen_less a b =
    if not (a.proto == b.proto)
    then text_lt a.proto b.proto
    else if not (a.port == b.port)
    then slt a.port b.port
    else text_lt a.address b.address

abbrev pub out_less : OutboundConnection → OutboundConnection → Bool
out_less a b =
    if not (a.proto == b.proto)
    then text_lt a.proto b.proto
    else if not (a.destination_ip == b.destination_ip)
    then text_lt a.destination_ip b.destination_ip
    else slt a.destination_port b.destination_port

abbrev pub raw_less : RawSocket → RawSocket → Bool
raw_less a b =
    if not (a.family == b.family)
    then text_lt a.family b.family
    else if not (a.protocol == b.protocol)
    then text_lt a.protocol b.protocol
    else text_lt a.interface b.interface

unfoldable pub finalize : NetState → NetworkObservation
unfolding sort_by
finalize s = record no_network {
  listening_ports = sort_by listen_less (values s.listen_seen);
  outbound_connections = sort_by out_less (values s.out_seen);
  raw_sockets = sort_by raw_less (values s.raw_seen);
  promiscuous_interfaces = sort_by text_lt s.promisc_seen;
}

unfoldable pub collect_network : (Int64 → Option Text) → Int64 → List Snapshot → NetworkObservation
unfolding poll_networks finalize
collect_network name pid polls = finalize (poll_networks name pid polls no_sockets)
