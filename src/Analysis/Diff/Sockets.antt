-- ===== src/Analysis/Diff/Sockets.antt =====
-- internal/analysis/analyze.go: about the sockets that diffNetwork reports.
use scrutiny.Base.{◌≡◌, ap, ◌∙◌, not, ◌&&◌, some, List, [], ◌∷◌, ◌++◌, map, arith, All, All-map}
use mathlib.Core.List.{append-nil}
use scrutiny.Base.Eq.{nat_eq, has}
use scrutiny.Base.Text.{Text, text_eq}
use scrutiny.Base.Report.{report_each}
use scrutiny.Base.Report.Laws.{All-report_each}
use scrutiny.Base.Report.New.{has-report_each}
use scrutiny.Base.Report.Picked.{picked, picked-append, picked-none, picked-tags}
use scrutiny.Schema.Platform.{context_eq}
use scrutiny.Schema.Observed.{ListeningPort, OutboundConnection, RawSocket, NetworkObservation}
use scrutiny.Schema.Anomaly.{
  AnomalyConfig, dimension_eq, listening_port, outbound_connection, raw_socket, Anomaly,
  anomaly_type_eq,
}
use scrutiny.Schema.Baseline.{confidence_eq}
use scrutiny.Analysis.Config.{new_anomaly}
use scrutiny.Analysis.Keys.{port_key, conn_key, raw_key}
use scrutiny.Analysis.Diff.Network.{
  port_anomaly, conn_anomaly, raw_anomaly, promiscuous_anomalies, diff_network,
}
use scrutiny.Analysis.Diff.Laws.{
  reported_port, reported_conn, reported_raw, port-Finds, conn-Finds, raw-Finds,
}

-- The key of the socket that a finding shows, where it shows one of this sort.
abbrev pub port_of : Anomaly → List Text
port_of a = elim a.observed_value [ listening_port p ↦ port_key p ∷ [] | _ ↦ [] ]

abbrev pub conn_of : Anomaly → List Text
conn_of a = elim a.observed_value [ outbound_connection c ↦ conn_key c ∷ [] | _ ↦ [] ]

abbrev pub raw_of : Anomaly → List Text
raw_of a = elim a.observed_value [ raw_socket r ↦ raw_key r ∷ [] | _ ↦ [] ]

-- What one part of diffNetwork shows of each sort.
module _ (b : NetworkObservation) (cfg : AnomalyConfig) where
  abbrev IsPort : Anomaly → Type 0
  IsPort a = (port_of a ≡ reported_port a ∷ []) × (conn_of a ≡ []) × (raw_of a ≡ [])

  abbrev IsConn : Anomaly → Type 0
  IsConn a = (port_of a ≡ []) × (conn_of a ≡ reported_conn a ∷ []) × (raw_of a ≡ [])

  abbrev IsRaw : Anomaly → Type 0
  IsRaw a = (port_of a ≡ []) × (conn_of a ≡ []) × (raw_of a ≡ reported_raw a ∷ [])

  abbrev IsNone : Anomaly → Type 0
  IsNone a = (port_of a ≡ []) × (conn_of a ≡ []) × (raw_of a ≡ [])

  port_anomaly-IsPort :
      (p : ListeningPort) (a : Anomaly) → port_anomaly b.listening_ports cfg p ≡ some a → IsPort a
  unfolding port_anomaly new_anomaly
  port_anomaly-IsPort p a h = ground (arith, h)

  conn_anomaly-IsConn :
      (c : OutboundConnection) (a : Anomaly)
      → conn_anomaly b.outbound_connections cfg c ≡ some a
      → IsConn a
  unfolding conn_anomaly new_anomaly
  conn_anomaly-IsConn c a h = ground (arith, h)

  raw_anomaly-IsRaw :
      (r : RawSocket) (a : Anomaly) → raw_anomaly b.raw_sockets cfg r ≡ some a → IsRaw a
  unfolding raw_anomaly new_anomaly
  raw_anomaly-IsRaw r a h = ground (arith, h)

  promiscuous_anomalies-IsNone :
      (o : NetworkObservation) → All IsNone (promiscuous_anomalies b o cfg)
  unfolding promiscuous_anomalies new_anomaly
  promiscuous_anomalies-IsNone o = ground arith

picked-parts :
    (pick : Anomaly → List Text) (p c r i : List Anomaly) {s t u v : List Text}
    → picked pick p ≡ s
    → picked pick c ≡ t
    → picked pick r ≡ u
    → picked pick i ≡ v
    → picked pick (p ++ (c ++ (r ++ i))) ≡ s ++ (t ++ (u ++ v))
picked-parts pick p c r i hp hc hr hi = cc (
  hp,
  hc,
  hr,
  hi,
  picked-append pick p (c ++ (r ++ i)),
  picked-append pick c (r ++ i),
  picked-append pick r i,
)

module _ (b o : NetworkObservation) (cfg : AnomalyConfig) where
  abbrev found_ports : List Anomaly
  found_ports = report_each (port_anomaly b.listening_ports cfg) o.listening_ports

  abbrev found_conns : List Anomaly
  found_conns = report_each (conn_anomaly b.outbound_connections cfg) o.outbound_connections

  abbrev found_raws : List Anomaly
  found_raws = report_each (raw_anomaly b.raw_sockets cfg) o.raw_sockets

  picked-ports : picked port_of (diff_network b o cfg) ≡ map reported_port found_ports
  unfolding diff_network
  picked-ports =
      picked-parts port_of found_ports found_conns found_raws (promiscuous_anomalies b o cfg)
        (picked-tags port_of reported_port _ (
          All-report_each (port_anomaly b.listening_ports cfg) _ o.listening_ports
            (λ x a h. (port_anomaly-IsPort b cfg x a h).0)))
        (picked-none port_of _ (
          All-report_each (conn_anomaly b.outbound_connections cfg) _ o.outbound_connections
            (λ x a h. (conn_anomaly-IsConn b cfg x a h).0)))
        (picked-none port_of _ (
          All-report_each (raw_anomaly b.raw_sockets cfg) _ o.raw_sockets
            (λ x a h. (raw_anomaly-IsRaw b cfg x a h).0)))
        (picked-none port_of _ (
          All-map (IsNone b cfg) (λ a. port_of a ≡ []) _ (λ a h. h.0)
            (promiscuous_anomalies-IsNone b cfg o)))
      ∙ append-nil _

  picked-conns : picked conn_of (diff_network b o cfg) ≡ map reported_conn found_conns
  unfolding diff_network
  picked-conns =
      picked-parts conn_of found_ports found_conns found_raws (promiscuous_anomalies b o cfg)
        (picked-none conn_of _ (
          All-report_each (port_anomaly b.listening_ports cfg) _ o.listening_ports
            (λ x a h. (port_anomaly-IsPort b cfg x a h).1)))
        (picked-tags conn_of reported_conn _ (
          All-report_each (conn_anomaly b.outbound_connections cfg) _ o.outbound_connections
            (λ x a h. (conn_anomaly-IsConn b cfg x a h).1)))
        (picked-none conn_of _ (
          All-report_each (raw_anomaly b.raw_sockets cfg) _ o.raw_sockets
            (λ x a h. (raw_anomaly-IsRaw b cfg x a h).1)))
        (picked-none conn_of _ (
          All-map (IsNone b cfg) (λ a. conn_of a ≡ []) _ (λ a h. h.1)
            (promiscuous_anomalies-IsNone b cfg o)))
      ∙ append-nil _

  picked-raws : picked raw_of (diff_network b o cfg) ≡ map reported_raw found_raws
  unfolding diff_network
  picked-raws =
      picked-parts raw_of found_ports found_conns found_raws (promiscuous_anomalies b o cfg)
        (picked-none raw_of _ (
          All-report_each (port_anomaly b.listening_ports cfg) _ o.listening_ports
            (λ x a h. (port_anomaly-IsPort b cfg x a h).2)))
        (picked-none raw_of _ (
          All-report_each (conn_anomaly b.outbound_connections cfg) _ o.outbound_connections
            (λ x a h. (conn_anomaly-IsConn b cfg x a h).2)))
        (picked-tags raw_of reported_raw _ (
          All-report_each (raw_anomaly b.raw_sockets cfg) _ o.raw_sockets
            (λ x a h. (raw_anomaly-IsRaw b cfg x a h).2)))
        (picked-none raw_of _ (
          All-map (IsNone b cfg) (λ a. raw_of a ≡ []) _ (λ a h. h.2)
            (promiscuous_anomalies-IsNone b cfg o)))
      ∙ append-nil _

-- diffNetwork reports a listening port, an outbound connection and a raw socket exactly when the
-- observation has one with this key and the baseline has none.
pub sockets-reports :
    (k : Text) (b o : NetworkObservation) (cfg : AnomalyConfig)
    → (has k (picked port_of (diff_network b o cfg))
        ≡ (has k (map port_key o.listening_ports) && not (has k (map port_key b.listening_ports))))
      × (has k (picked conn_of (diff_network b o cfg)) ≡ (
          has k (map conn_key o.outbound_connections)
          && not (has k (map conn_key b.outbound_connections))))
      × (has k (picked raw_of (diff_network b o cfg))
          ≡ (has k (map raw_key o.raw_sockets) && not (has k (map raw_key b.raw_sockets))))
sockets-reports k b o cfg = (
  ap (has k) (picked-ports b o cfg)
      ∙ has-report_each port_key _ _ reported_port (port-Finds b.listening_ports cfg) k
          o.listening_ports,
  ap (has k) (picked-conns b o cfg)
      ∙ has-report_each conn_key _ _ reported_conn (conn-Finds b.outbound_connections cfg) k
          o.outbound_connections,
  ap (has k) (picked-raws b o cfg)
      ∙ has-report_each raw_key _ _ reported_raw (raw-Finds b.raw_sockets cfg) k o.raw_sockets,
)
