-- ===== src/Analysis/Diff/Network.antt =====
-- internal/analysis/analyze.go: diffNetwork.
use scrutiny.Base.{
  Bool, false, ◌||◌, Option, none, some, List, [], ◌∷◌, ◌++◌, map, ltb, if◌then◌else◌, length,
}
use scrutiny.Base.Eq.{◌==◌, nat_eq, has}
use scrutiny.Base.Text.{Text, codes, text_eq, join}
use scrutiny.Base.Decimal.{decimal}
use scrutiny.Base.Report.{report_each}
use scrutiny.Schema.Platform.{context_eq}
use scrutiny.Schema.Observed.{ListeningPort, OutboundConnection, RawSocket, NetworkObservation}
use scrutiny.Schema.Anomaly.{
  new_listening_port, new_outbound_connection, raw_socket_opened, promiscuous_mode_observed,
  AnomalyConfig, Dimension, dimension_eq, null, strings, listening_port, outbound_connection,
  raw_socket, Anomaly, anomaly_type_eq,
}
use scrutiny.Schema.Baseline.{confidence_eq}
use scrutiny.Analysis.Config.{new_anomaly}
use scrutiny.Analysis.Keys.{port_key, conn_key, raw_key, diff_strings}

unfoldable pub port_anomaly : List ListeningPort → AnomalyConfig → ListeningPort → Option Anomaly
port_anomaly base cfg p =
    if has (port_key p) (map port_key base)
    then none
    else some (
        new_anomaly cfg Dimension.network new_listening_port
          (codes "new listening port "
            ++ (p.proto ++ (codes "/" ++ (decimal p.port ++ (codes " on " ++ p.address)))))
          null (listening_port p) p.first_seen_offset_ms)

unfoldable pub conn_anomaly :
    List OutboundConnection → AnomalyConfig → OutboundConnection → Option Anomaly
conn_anomaly base cfg c =
    let dst = if c.dns_name == [] then c.destination_ip else c.dns_name in
    if has (conn_key c) (map conn_key base)
    then none
    else some (
        new_anomaly cfg Dimension.network new_outbound_connection
          (codes "new outbound connection to "
            ++ (dst
                ++ (codes ":"
                    ++ (decimal c.destination_port ++ (codes " (" ++ (c.proto ++ codes ")"))))))
          null (outbound_connection c) c.first_seen_offset_ms)

is_packet : RawSocket → Bool
is_packet r = r.family == codes "packet"

unfoldable pub raw_description : RawSocket → Text
unfolding is_packet
raw_description r =
    if is_packet r
    then codes "new packet-capture socket: protocol "
      ++ (r.protocol ++ (codes " on interface " ++ r.interface))
    else codes "new raw socket: family " ++ (r.family ++ (codes ", protocol " ++ r.protocol))

unfoldable pub raw_anomaly : List RawSocket → AnomalyConfig → RawSocket → Option Anomaly
raw_anomaly base cfg r =
    if has (raw_key r) (map raw_key base)
    then none
    else some (
        new_anomaly cfg Dimension.network raw_socket_opened (raw_description r) null (raw_socket r)
          r.first_seen_offset_ms)

unfoldable pub has_packet_socket : List RawSocket → Bool
unfolding is_packet
has_packet_socket [] = false
has_packet_socket (r ∷ l) = is_packet r || has_packet_socket l

unfoldable pub promiscuous_anomalies :
    NetworkObservation → NetworkObservation → AnomalyConfig → List Anomaly
promiscuous_anomalies b o cfg =
    let fresh = diff_strings b.promiscuous_interfaces o.promiscuous_interfaces in
    if has_packet_socket o.raw_sockets
    then (if ltb 0 (length fresh)
        then new_anomaly cfg Dimension.network promiscuous_mode_observed
            (codes "interface(s) newly in promiscuous mode while process holds a packet socket: "
              ++ join fresh (codes ", "))
            (strings b.promiscuous_interfaces) (strings o.promiscuous_interfaces) 0
          ∷ []
        else [])
    else []

unfoldable pub diff_network : NetworkObservation → NetworkObservation → AnomalyConfig → List Anomaly
diff_network b o cfg =
    report_each (port_anomaly b.listening_ports cfg) o.listening_ports
    ++ (report_each (conn_anomaly b.outbound_connections cfg) o.outbound_connections
        ++ (report_each (raw_anomaly b.raw_sockets cfg) o.raw_sockets
            ++ promiscuous_anomalies b o cfg))
