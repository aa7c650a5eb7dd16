-- ===== src/Ebpf/Collect.antt =====
-- internal/sensor/ebpf/tracer.go: Collect, with the sequence of what its loop receives as a parameter.
pub mod Ends
use scrutiny.Base.{ℕ, Option, none, some, List, [], ◌∷◌, append_below, ◌⊎◌}
use scrutiny.Base.Int64.{Int64}
use scrutiny.Base.Text.{Text}
use scrutiny.Schema.Platform.{PlatformContext}
use scrutiny.Schema.Observed.{SyscallsObservation, FilesystemObservation, no_syscalls}
use scrutiny.Host.{Host}
use scrutiny.Ebpf.Record.{SyscallEvent, record_syscall_event, finalize_suspicious_flags}
use scrutiny.Ebpf.Classify.{FileAccess, build_filesystem}
use scrutiny.Ebpf.Wire.{FileEvent, file_access}
use scrutiny.Ebpf.Tracer.{Kernel, Action, with_tracer}

-- What a `select` receives: the timeout, a closed event channel, or an event.
pub data Input : Type 0 where
  timeout events_closed : Input
  syscall_event : SyscallEvent → Input
  file_event : FileEvent → Input

abbrev pub max_file_accesses : ℕ
max_file_accesses = 500000

-- The observation and `firstEventNS`, and the accesses.
pub record Capture : Type 0 where
  pub calls : SyscallsObservation × Int64
  pub accesses : List FileAccess

abbrev pub start : Capture
start = record { calls = (no_syscalls, 0); accesses = [] }

abbrev pub Observed : Type 0
Observed = SyscallsObservation × FilesystemObservation

unfoldable pub finish : Host → PlatformContext → Capture → Observed
unfolding finalize_suspicious_flags build_filesystem
finish h ctx c = (finalize_suspicious_flags c.calls.0, build_filesystem h ctx c.accesses)

-- None where the inputs are used up and the loop still waits.
unfoldable pub collect_loop : Host → PlatformContext → List Input → Capture → Option Observed
unfolding finish record_syscall_event file_access
collect_loop h ctx [] c = none
collect_loop h ctx (timeout ∷ l) c = some (finish h ctx c)
collect_loop h ctx (events_closed ∷ l) c = some (finish h ctx c)
collect_loop h ctx (syscall_event evt ∷ l) c =
    collect_loop h ctx l (record c { calls = record_syscall_event c.calls evt })
collect_loop h ctx (file_event e ∷ l) c =
    collect_loop h ctx l
      (record c { accesses = append_below max_file_accesses (file_access e) c.accesses })

unfoldable pub collect :
    Host → PlatformContext → Kernel → ℕ → List Input → Option ((Text ⊎ Observed) × List Action)
unfolding with_tracer collect_loop
collect h ctx k pid inputs = with_tracer k pid (collect_loop h ctx inputs start)
