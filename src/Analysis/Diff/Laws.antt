-- ===== src/Analysis/Diff/Laws.antt =====
-- internal/analysis/analyze.go: about what the comparisons of syscalls, sockets and modules report.
use scrutiny.Base.{◌≡◌, refl, not, ◌&&◌, List, [], map, arith, get_or}
use scrutiny.Base.Eq.{nat_eq, has, Distinct}
use scrutiny.Base.Text.{Text, text_eq}
use scrutiny.Base.Assoc.{keys, lookup}
use scrutiny.Base.Assoc.Laws.{is_some, is_some-lookup}
use scrutiny.Base.Report.{flag_each}
use scrutiny.Schema.Platform.{context_eq}
use scrutiny.Schema.Observed.{
  SyscallRecord, SyscallsObservation, ListeningPort, OutboundConnection, RawSocket,
}
use scrutiny.Schema.Anomaly.{
  new_listening_port, new_outbound_connection, unexpected_syscall, raw_socket_opened,
  unexpected_module_load, AnomalyConfig, Dimension, dimension_eq, null, string, listening_port,
  outbound_connection, raw_socket, Anomaly, anomaly_type_eq,
}
use scrutiny.Schema.Baseline.{confidence_eq}
use scrutiny.Analysis.Config.{new_anomaly, suppress}
use scrutiny.Analysis.Keys.{port_key, conn_key, raw_key}
use scrutiny.Analysis.Diff.Syscalls.{syscall_anomaly, diff_syscalls}
use scrutiny.Analysis.Diff.Network.{port_anomaly, conn_anomaly, raw_anomaly}
use scrutiny.Analysis.Diff.Memory.{module_name, module_anomaly}
use scrutiny.Base.Report.New.{Finds, has-report_each, has-flag_new, flag_new-Distinct}

abbrev pub reported_name : Anomaly → Text
reported_name a = elim a.observed_value [ string s ↦ s | _ ↦ [] ]

abbrev pub reported_port : Anomaly → Text
reported_port a = elim a.observed_value [ listening_port p ↦ port_key p | _ ↦ [] ]

abbrev pub reported_conn : Anomaly → Text
reported_conn a = elim a.observed_value [ outbound_connection c ↦ conn_key c | _ ↦ [] ]

abbrev pub reported_raw : Anomaly → Text
reported_raw a = elim a.observed_value [ raw_socket r ↦ raw_key r | _ ↦ [] ]

abbrev pub entry_name : Text × SyscallRecord → Text
entry_name (name, rec) = name

-- what syscall_anomaly makes of a name that the baseline lacks
syscall_report : SyscallsObservation → AnomalyConfig → Text × SyscallRecord → Anomaly
syscall_report b cfg e =
    get_or (new_anomaly cfg Dimension.syscalls unexpected_syscall [] null (string e.0) 0)
      (syscall_anomaly (record b { observed = [] }) cfg e)

syscall-Finds :
    (b : SyscallsObservation) (cfg : AnomalyConfig)
    → Finds entry_name (λ k. is_some (lookup k b.observed)) (syscall_anomaly b cfg) reported_name
unfolding syscall_anomaly syscall_report lookup new_anomaly suppress
syscall-Finds b cfg = record {
  old = λ (k, r) h. ground arith;
  report = syscall_report b cfg;
  new = λ (k, r) h. ground arith;
  tagged = λ (k, r). ground arith;
}

-- A syscall is reported exactly when it was observed and the baseline has no record of it.
pub diff_syscalls-reports :
    (k : Text) (b o : SyscallsObservation) (cfg : AnomalyConfig)
    → has k (map reported_name (diff_syscalls b o cfg))
      ≡ (has k (keys o.observed) && not (has k (keys b.observed)))
unfolding diff_syscalls
diff_syscalls-reports k b o cfg =
    rw (← is_some-lookup k b.observed)
      (has-report_each entry_name _ _ reported_name (syscall-Finds b cfg) k o.observed)

pub port-Finds :
    (b : List ListeningPort) (cfg : AnomalyConfig)
    → Finds port_key (λ k. has k (map port_key b)) (port_anomaly b cfg) reported_port
unfolding port_anomaly new_anomaly
port-Finds b cfg = record {
  old = λ p h. ground arith;
  report = λ p.
      get_or (new_anomaly cfg Dimension.network new_listening_port [] null null 0)
        (port_anomaly [] cfg p);
  new = λ p h. unfold has in ground arith;
  tagged = λ p. unfold has in refl;
}

pub conn-Finds :
    (b : List OutboundConnection) (cfg : AnomalyConfig)
    → Finds conn_key (λ k. has k (map conn_key b)) (conn_anomaly b cfg) reported_conn
unfolding conn_anomaly new_anomaly
conn-Finds b cfg = record {
  old = λ c h. ground arith;
  report = λ c.
      get_or (new_anomaly cfg Dimension.network new_outbound_connection [] null null 0)
        (conn_anomaly [] cfg c);
  new = λ c h. unfold has in ground arith;
  tagged = λ c. unfold has in refl;
}

pub raw-Finds :
    (b : List RawSocket) (cfg : AnomalyConfig)
    → Finds raw_key (λ k. has k (map raw_key b)) (raw_anomaly b cfg) reported_raw
unfolding raw_anomaly new_anomaly
raw-Finds b cfg = record {
  old = λ r h. ground arith;
  report = λ r.
      get_or (new_anomaly cfg Dimension.network raw_socket_opened [] null null 0)
        (raw_anomaly [] cfg r);
  new = λ r h. unfold has in ground arith;
  tagged = λ r. unfold has in refl;
}

module-Finds :
    (b : List Text) (cfg : AnomalyConfig)
    → Finds module_name (λ k. has k b) (module_anomaly b cfg) reported_name
unfolding module_anomaly new_anomaly
module-Finds b cfg = record {
  old = λ m h. ground arith;
  report = λ m.
      get_or (new_anomaly cfg Dimension.memory unexpected_module_load [] null null 0)
        (module_anomaly [] cfg m);
  new = λ m h. unfold has in ground arith;
  tagged = λ m. unfold has in refl;
}

-- A mapped module is reported exactly when the baseline did not map it, and once, however often
-- the observation lists it.
modules-reports :
    (k : Text) (b l : List Text) (cfg : AnomalyConfig)
    → let found = map reported_name (flag_each module_name (module_anomaly b cfg) [] l) in
      (has k found ≡ (has k (map module_name l) && not (has k b))) × Distinct found
modules-reports k b l cfg = (
  has-flag_new module_name _ _ reported_name (module-Finds b cfg) k l,
  flag_new-Distinct module_name _ _ reported_name (module-Finds b cfg) l,
)
