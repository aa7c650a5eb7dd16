-- ===== src/Command/Capture.antt =====
-- cmd/scrutiny/main.go: targetForPID, pidAlive, captureAll and captureKernel on Linux and with Sysmon,
-- without their output. What each sensor reads in a window is a parameter.
use scrutiny.Base.{
  ℕ, ◌%◌, ◌^◌, ◌++◌, Bool, true, Option, none, some, List, [], ◌⊎◌, inl, inr, if◌then◌else◌, get_or,
}
use scrutiny.Base.Eq.{◌==◌}
use scrutiny.Base.Int64.{Int64}
use scrutiny.Base.Decimal.{decimal}
use scrutiny.Base.Text.{Text, codes}
use scrutiny.Base.Text.Parts.{trim_space}
use scrutiny.Schema.Platform.{PlatformContext, TargetProcess, SensorBackend, backend_eq}
use scrutiny.Schema.Observed.{SyscallsObservation, FilesystemObservation}
use scrutiny.Host.{Host}
use scrutiny.Ebpf.Tracer.{Kernel, Action}
use scrutiny.Ebpf.Collect.{Input, Observed, collect}
use scrutiny.Strace.Record.{collect_strace}
use scrutiny.Sysmon.Parse.{SysmonEvent}
use scrutiny.Sysmon.Events.{map_events}
use scrutiny.Procfs.Collect.{Snapshot, collect_process, proc_path}
use scrutiny.Procfs.Memory.{collect_memory}
use scrutiny.Network.Collect.{collect_network}
use scrutiny.Baseline.Accumulator.{Run}

-- What the sensors read in one window. The log of Sysmon and the lines of strace are none where the
-- query or the start of the program fails.
pub record Readings : Type 0 where
  pub kernel : Kernel
  pub inputs : List Input
  pub strace_lines : Option (List Text)
  pub sysmon_events : Option (List SysmonEvent)
  pub interface_name : Int64 → Option Text
  pub network_polls : List Snapshot
  pub process_first : Snapshot
  pub process_polls : List Snapshot
  pub memory_first : Snapshot
  pub memory_polls : List Snapshot
  pub memory_last : Snapshot

unfoldable pub target_for_pid : Host → Int64 → Int64 → TargetProcess
unfolding proc_path trim_space
target_for_pid h uid pid = record {
  name = trim_space (get_or [] (h.read_file (proc_path pid (codes "comm"))));
  path = get_or [] (h.readlink (proc_path pid (codes "exe")));
  sha256 = [];
  md5 = [];
  args = [];
  env_of_note = [];
  uid = uid;
  user = [];
}

unfoldable pub pid_alive : Host → Int64 → Bool
unfolding decimal
pid_alive h pid =
    if h.exists (codes "/proc") then h.exists (codes "/proc/" ++ decimal pid) else true

-- `uint32(pid)`
abbrev pub to_uint32 : Int64 → ℕ
to_uint32 pid = pid % 2 ^ 32

-- The observations of a collector, none where it failed or still waits and there is no result.
unfoldable pub result_of :
    Option ((Text ⊎ Observed) × List Action)
    → Option (Option SyscallsObservation × Option FilesystemObservation)
result_of none = none
result_of (some (inl failure, log)) = none
result_of (some (inr (calls, files), log)) = some (some calls, some files)

-- None where the program ends with an error.
unfoldable pub capture_kernel :
    Host
    → Int64
    → SensorBackend
    → PlatformContext
    → Readings
    → Option (Option SyscallsObservation × Option FilesystemObservation)
unfolding collect collect_strace result_of
capture_kernel h pid backend ctx s =
    if backend == SensorBackend.ebpf
    then result_of (collect h ctx s.kernel (to_uint32 pid) s.inputs)
    else if backend == SensorBackend.strace
    then elim s.strace_lines [
      | none ↦ none
      | some lines ↦ let (calls, files) = collect_strace lines in some (some calls, some files)
    ]
    else some (none, none)

unfoldable pub capture_sysmon : Int64 → Option (List SysmonEvent) → Run
unfolding map_events
capture_sysmon pid none = record {
  syscalls = none;
  network = none;
  files = none;
  process = none;
  memory = none;
  registry = none;
}
capture_sysmon pid (some events) =
    let res = map_events events pid in
    record {
      syscalls = none;
      network = some res.network;
      files = some res.filesystem;
      process = some res.process;
      memory = some res.memory;
      registry = some res.registry;
    }

unfoldable pub capture_all : Host → Int64 → SensorBackend → PlatformContext → Readings → Option Run
unfolding capture_kernel capture_sysmon collect_network collect_process collect_memory
capture_all h pid backend ctx s =
    if backend == SensorBackend.sysmon
    then some (capture_sysmon pid s.sysmon_events)
    else elim (capture_kernel h pid backend ctx s) [
      | none ↦ none
      | some (calls, files) ↦ some (record {
        syscalls = calls;
        network = some (collect_network s.interface_name pid s.network_polls);
        files = files;
        process = some (collect_process pid s.process_first s.process_polls);
        memory = some (collect_memory pid s.memory_first s.memory_polls s.memory_last);
        registry = none;
      })
    ]
