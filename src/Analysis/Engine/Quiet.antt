-- ===== src/Analysis/Engine/Quiet.antt =====
-- internal/analysis/analyze.go: about observations that hold nothing new.
use scrutiny.Base.{◌≡◌, refl, true, List, [], ◌∷◌, map, arith, All}
use scrutiny.Base.Eq.{nat_eq, has}
use scrutiny.Base.Text.{Text, text_eq}
use scrutiny.Base.Assoc.{Assoc, keys}
use scrutiny.Base.Assoc.Laws.{is_some-lookup}
use scrutiny.Base.Report.{report_each}
use scrutiny.Schema.Platform.{context_eq}
use scrutiny.Schema.Observed.{
  SyscallRecord, SyscallsObservation, ListeningPort, OutboundConnection, RawSocket,
  NetworkObservation,
}
use scrutiny.Schema.Anomaly.{AnomalyConfig, dimension_eq, anomaly_type_eq}
use scrutiny.Schema.Baseline.{confidence_eq}
use scrutiny.Analysis.Keys.{port_key, conn_key, raw_key, diff_strings}
use scrutiny.Analysis.Diff.Syscalls.{syscall_anomaly, diff_syscalls}
use scrutiny.Analysis.Diff.Network.{
  port_anomaly, conn_anomaly, raw_anomaly, promiscuous_anomalies, diff_network,
}

-- What the baseline has to hold for an observation to be silent in each dimension.
module _ (cfg : AnomalyConfig) where
  known_calls :
      (b : SyscallsObservation) (l : Assoc Text SyscallRecord)
      → All (λ k. has k (keys b.observed) ≡ true) (keys l)
      → report_each (syscall_anomaly b cfg) l ≡ []
  unfolding report_each syscall_anomaly
  known_calls b [] h = refl
  known_calls b ((k, r) ∷ l) (p, h) = ground (arith, is_some-lookup k b.observed, known_calls b l h)

  known_ports :
      (b l : List ListeningPort)
      → All (λ p. has (port_key p) (map port_key b) ≡ true) l
      → report_each (port_anomaly b cfg) l ≡ []
  unfolding report_each port_anomaly
  known_ports b [] h = refl
  known_ports b (p ∷ l) (e, h) = ground (arith, known_ports b l h)

  known_conns :
      (b l : List OutboundConnection)
      → All (λ c. has (conn_key c) (map conn_key b) ≡ true) l
      → report_each (conn_anomaly b cfg) l ≡ []
  unfolding report_each conn_anomaly
  known_conns b [] h = refl
  known_conns b (c ∷ l) (e, h) = ground (arith, known_conns b l h)

  known_raw :
      (b l : List RawSocket)
      → All (λ r. has (raw_key r) (map raw_key b) ≡ true) l
      → report_each (raw_anomaly b cfg) l ≡ []
  unfolding report_each raw_anomaly
  known_raw b [] h = refl
  known_raw b (r ∷ l) (e, h) = ground (arith, known_raw b l h)

known_strings : (b l : List Text) → All (λ s. has s b ≡ true) l → diff_strings b l ≡ []
unfolding diff_strings
known_strings b [] h = refl
known_strings b (s ∷ l) (e, h) = ground (arith, known_strings b l h)

-- Everything that the network observation holds is in the baseline.
pub record KnownNetwork (b o : NetworkObservation) : Type 0 where
  pub ports : All (λ p. has (port_key p) (map port_key b.listening_ports) ≡ true) o.listening_ports
  pub conns :
      All
        (λ c. has (conn_key c) (map conn_key b.outbound_connections) ≡ true)
        o.outbound_connections
  pub raw : All (λ r. has (raw_key r) (map raw_key b.raw_sockets) ≡ true) o.raw_sockets
  pub promiscuous : All (λ i. has i b.promiscuous_interfaces ≡ true) o.promiscuous_interfaces

-- A network observation that holds nothing new raises no finding.
pub diff_network-known :
    (b o : NetworkObservation) (cfg : AnomalyConfig) → KnownNetwork b o → diff_network b o cfg ≡ []
unfolding diff_network promiscuous_anomalies
diff_network-known b o cfg k =
    rw
      (
        known_ports cfg b.listening_ports o.listening_ports k.ports,
        known_conns cfg b.outbound_connections o.outbound_connections k.conns,
        known_raw cfg b.raw_sockets o.raw_sockets k.raw,
        known_strings b.promiscuous_interfaces o.promiscuous_interfaces k.promiscuous,
      )
      (ground arith)

pub diff_syscalls-known :
    (b o : SyscallsObservation) (cfg : AnomalyConfig)
    → All (λ k. has k (keys b.observed) ≡ true) (keys o.observed)
    → diff_syscalls b o cfg ≡ []
unfolding diff_syscalls
diff_syscalls-known b o cfg h = known_calls cfg b o.observed h
