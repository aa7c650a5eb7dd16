-- ===== src/Network/Parse.antt =====
-- internal/sensor/network/parse.go: the socket tables. What a table says of a line that is kept, and
-- the loop that appends it.
use scrutiny.Base.{
  ℕ, false, not, ◌&&◌, ◌||◌, Option, none, some, List, [], ◌∷◌, ◌++◌, if◌then◌else◌,
}
use scrutiny.Base.Eq.{◌==◌, nat_eq, has}
use scrutiny.Base.Int64.{Int64}
use scrutiny.Base.Text.{Text, codes, text_eq}
use scrutiny.Base.Text.Parts.{split, fields}
use scrutiny.Base.Decimal.{decimal}
use scrutiny.Base.Numeral.{parse_int}
use scrutiny.Base.Bytes.{◌>>=◌}
use scrutiny.Base.Report.{report_each}
use scrutiny.Schema.Observed.{ListeningPort, OutboundConnection, RawSocket}
use scrutiny.Network.Address.{Ip, ip_string, parse_hex_addr, parse_hex_bits}

abbrev pub tcp_established : ℕ
tcp_established = 1

abbrev pub tcp_syn_sent : ℕ
tcp_syn_sent = 2

abbrev pub tcp_listen : ℕ
tcp_listen = 10

-- The inodes of the target's sockets; without them every socket is kept.
unfoldable pub owned : Option (List Text) → Text → Option Text
unfolding has
owned none inode = some inode
owned (some inodes) inode = if has inode inodes then some inode else none

-- The lines after the header row.
unfoldable pub table_lines : Text → List Text
unfolding split
table_lines contents = elim (split b'\n' contents) [ [] ↦ [] | header ∷ lines ↦ lines ]

-- What parseProcNet reads of a line.
pub record NetLine : Type 0 where
  pub inode : Text
  pub state : ℕ
  pub local : Ip × Int64
  pub remote : Ip × Int64

-- The fields 1 to 3 and 9 of a line, where there are ten fields.
unfoldable pub net_fields : List Text → Option (Text × Text × Text × Text)
net_fields (f0 ∷ f1 ∷ f2 ∷ f3 ∷ f4 ∷ f5 ∷ f6 ∷ f7 ∷ f8 ∷ f9 ∷ rest) = some (f1, f2, f3, f9)
net_fields _ = none

unfoldable pub net_line : Option (List Text) → Text → Option NetLine
unfolding net_fields fields owned parse_hex_bits parse_hex_addr
net_line own line = do
  (local_text, remote_text, state_text, inode_text) ← net_fields (fields line)
  inode ← owned own inode_text
  state ← parse_hex_bits 8 state_text
  local ← parse_hex_addr local_text
  remote ← parse_hex_addr remote_text
  some (record { inode = inode; state = state; local = local; remote = remote })

unfoldable pub listening_of : Text → NetLine → Option ListeningPort
unfolding ip_string
listening_of proto l =
    if proto == codes "tcp" && l.state == tcp_listen
    then some (record {
      port = l.local.1;
      proto = proto;
      address = ip_string l.local.0;
      first_seen_offset_ms = 0;
      expected = false;
    })
    else none

unfoldable pub outbound_of : Text → NetLine → Option OutboundConnection
unfolding ip_string
outbound_of proto l =
    let connected = l.state == tcp_established || l.state == tcp_syn_sent in
    if not (l.remote.1 == 0) && (not (proto == codes "tcp") || connected)
    then some (record {
      destination_ip = ip_string l.remote.0;
      destination_port = l.remote.1;
      proto = proto;
      dns_name = [];
      bytes_sent = 0;
      bytes_received = 0;
      first_seen_offset_ms = 0;
    })
    else none

unfoldable pub parse_proc_net :
    Text → Text → Option (List Text) → List ListeningPort × List OutboundConnection
unfolding table_lines net_line listening_of outbound_of report_each
parse_proc_net contents proto own =
    let lines = report_each (net_line own) (table_lines contents) in
    (report_each (listening_of proto) lines, report_each (outbound_of proto) lines)

unfoldable pub ip_proto_name : Int64 → Text
unfolding decimal
ip_proto_name n =
    if n == 1
    then codes "icmp"
    else if n == 6
    then codes "tcp"
    else if n == 17
    then codes "udp"
    else if n == 58
    then codes "icmpv6"
    else codes "proto_" ++ decimal n

unfoldable pub raw_line : Option (List Text) → Text → Option RawSocket
unfolding net_fields fields owned parse_hex_addr ip_proto_name
raw_line own line = do
  (local_text, remote_text, state_text, inode_text) ← net_fields (fields line)
  inode ← owned own inode_text
  local ← parse_hex_addr local_text
  some (record {
    family = codes "raw";
    protocol = ip_proto_name local.1;
    interface = [];
    inode = inode;
    first_seen_offset_ms = 0;
  })

unfoldable pub parse_raw_sockets : Text → Option (List Text) → List RawSocket
unfolding table_lines raw_line report_each
parse_raw_sockets contents own = report_each (raw_line own) (table_lines contents)

-- The fields 3, 4 and 8 of a line, where there are nine fields.
unfoldable pub packet_fields : List Text → Option (Text × Text × Text)
packet_fields (f0 ∷ f1 ∷ f2 ∷ f3 ∷ f4 ∷ f5 ∷ f6 ∷ f7 ∷ f8 ∷ rest) = some (f3, f4, f8)
packet_fields _ = none

-- `name` is the name of the interface with an index, which the system gives.
unfoldable pub interface_text : (Int64 → Option Text) → Text → Text
unfolding parse_int
interface_text name field =
    let (index, valid) = parse_int field in
    if valid && not (index == 0) then elim (name index) [ none ↦ field | some n ↦ n ] else codes "*"

unfoldable pub packet_line : (Int64 → Option Text) → Option (List Text) → Text → Option RawSocket
unfolding packet_fields fields owned interface_text
packet_line name own line = do
  (proto, index, inode_text) ← packet_fields (fields line)
  inode ← owned own inode_text
  some (record {
    family = codes "packet";
    protocol = codes "0x" ++ proto;
    interface = interface_text name index;
    inode = inode;
    first_seen_offset_ms = 0;
  })

unfoldable pub parse_packet_sockets :
    (Int64 → Option Text) → Text → Option (List Text) → List RawSocket
unfolding table_lines packet_line report_each
parse_packet_sockets name contents own = report_each (packet_line name own) (table_lines contents)
