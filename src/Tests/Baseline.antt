-- ===== src/Tests/Baseline.antt =====
-- The merge of baseline runs on concrete input.

use scrutiny.Base.{◌+◌, ◌≡◌, refl, true, none, some, List, [], ◌∷◌, arith, length, All, get_or}
use scrutiny.Base.Eq.{nat_eq, has}
use scrutiny.Base.Text.{codes, text_eq}
use scrutiny.Base.Assoc.{values, lookup}
use scrutiny.Base.Eq.{list_beq}
use scrutiny.Schema.Observed.{RegistryObservation, ProcessObservation, no_process}
use scrutiny.Tests.Samples.{fresh_baseline, call_record, tracing, listening}
use mathlib.Core.List.Perm
use scrutiny.Analysis.Keys.{port_key, conn_key, raw_key}
use scrutiny.Analysis.Diff.Registry.{diff_registry}
use scrutiny.Analysis.Diff.Process.{diff_process}
use scrutiny.Schema.Anomaly.{registry_defense_impair, procfs_read_other_pid}
use scrutiny.Baseline.Accumulator.{Run, empty, add_runs}
use scrutiny.Baseline.Build.{build, by_key}
use scrutiny.Baseline.Build.Coverage.{run_calls, run_ports, run_raw}
use scrutiny.Baseline.Build.Union.{Union, build-Union}
use scrutiny.Baseline.Build.Records.{all_records, build-records}
use scrutiny.Baseline.Maps.Combined.{IsSound}
use scrutiny.Baseline.Maps.Combined.Calls.{ComesTo}
use scrutiny.Baseline.Build.Replay.{replay_calls, replay_network, replay-quiet}
use scrutiny.Baseline.Build.Counts.{appearances, brought, counters-add_runs, syscall_runs-exact}
use scrutiny.Baseline.Build.Unique.{build_order}
use scrutiny.Baseline.Build.Gaps.{reports, weakening-reported_again, procfs-reported_again}

abbrev first_run : Run
first_run = record {
  syscalls = some tracing;
  network = some listening;
  files = none;
  process = none;
  memory = none;
  registry = none;
}

abbrev second_run : Run
second_run = record first_run { network = none }

abbrev two_runs : List Run
two_runs = first_run ∷ second_run ∷ []

abbrev weakened : RegistryObservation
weakened = record fresh_baseline.registry { security_weakened = true }

abbrev snooping : ProcessObservation
snooping = record no_process { procfs_reads = codes "lsass.exe" ∷ [] }

replay-quiet_example :
    All
      (λ r.
        (replay_calls (build (add_runs two_runs empty)) fresh_baseline.anomaly_cfg r ≡ [])
        × (replay_network (build (add_runs two_runs empty)) fresh_baseline.anomaly_cfg r ≡ []))
      two_runs
replay-quiet_example = replay-quiet two_runs fresh_baseline.anomaly_cfg

build-Union_example : Union two_runs (build (add_runs two_runs empty)) (codes "ptrace") 4096
build-Union_example = build-Union two_runs (codes "ptrace") 4096

call_record-IsSound : IsSound call_record
call_record-IsSound = (omega arith, omega arith, omega arith, omega arith, omega arith, omega arith)

build-records_example :
    ComesTo
      (all_records (codes "read") two_runs)
      (lookup (codes "read") (build (add_runs two_runs empty)).syscalls.observed)
unfolding codes list_beq
build-records_example =
    build-records (codes "read") two_runs (call_record-IsSound, (call_record-IsSound, tt))

counters-add_runs_example :
    (get_or 0 (lookup (codes "read") (add_runs two_runs empty).syscall_runs)
      ≡ get_or 0 (lookup (codes "read") empty.syscall_runs)
        + brought run_calls (codes "read") two_runs)
    × (get_or 0 (lookup (codes "read") (add_runs two_runs empty).port_runs)
        ≡ get_or 0 (lookup (codes "read") empty.port_runs)
          + brought run_ports (codes "read") two_runs)
    × (get_or 0 (lookup (codes "read") (add_runs two_runs empty).raw_runs)
        ≡ get_or 0 (lookup (codes "read") empty.raw_runs) + brought run_raw (codes "read") two_runs)
    × ((add_runs two_runs empty).runs ≡ empty.runs + length two_runs)
counters-add_runs_example = counters-add_runs (codes "read") two_runs empty

syscall_runs-exact_example :
    (get_or 0 (lookup (codes "read") (add_runs two_runs empty).syscall_runs)
      ≡ appearances run_calls (codes "read") two_runs)
    × ((add_runs two_runs empty).runs ≡ length two_runs)
unfolding has codes list_beq
syscall_runs-exact_example =
    syscall_runs-exact (codes "read") two_runs ((refl, (refl, tt)), ((refl, (refl, tt)), tt))

build_order_example :
    ((build (add_runs two_runs empty)).network.listening_ports
      ≡ by_key port_key (values (add_runs two_runs empty).ports))
    × ((build (add_runs two_runs empty)).network.outbound_connections
        ≡ by_key conn_key (values (add_runs two_runs empty).conns))
    × ((build (add_runs two_runs empty)).network.raw_sockets
        ≡ by_key raw_key (values (add_runs two_runs empty).raw))
build_order_example = build_order two_runs _ _ _ Perm.rfl Perm.rfl Perm.rfl

weakening-reported_again_example :
    reports registry_defense_impair
      (diff_registry (build (add_runs two_runs empty)).registry weakened fresh_baseline.anomaly_cfg)
    ≡ true
weakening-reported_again_example =
    weakening-reported_again two_runs weakened fresh_baseline.anomaly_cfg refl

procfs-reported_again_example :
    reports procfs_read_other_pid
      (diff_process (build (add_runs two_runs empty)).process snooping fresh_baseline.anomaly_cfg)
    ≡ true
procfs-reported_again_example =
    procfs-reported_again two_runs snooping fresh_baseline.anomaly_cfg (omega arith)
