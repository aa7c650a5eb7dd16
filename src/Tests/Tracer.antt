-- ===== src/Tests/Tracer.antt =====
-- The eBPF tracer on concrete input.
use scrutiny.Base.{
  ℕ, ◌≡◌, refl, inl, true, false, none, some, Option, if◌then◌else◌, List, [], ◌∷◌, ◌++◌, ◌⊎◌,
  arith,
}
use scrutiny.Base.Text.{Text, codes}
use scrutiny.Base.Text.{text_eq}
use scrutiny.Base.Eq.{◌==◌, list_beq}
use scrutiny.Ebpf.Table.{syscall_names}
use scrutiny.Base.Assoc.{lookup}
use scrutiny.Schema.Observed.{no_syscalls}
use scrutiny.Ebpf.Classify.{build_filesystem}
use scrutiny.Ebpf.Record.{SyscallEvent, record_all, finalize_suspicious_flags}
use scrutiny.Ebpf.Record.Summary.{stamp, keep, named, summary}
use scrutiny.Ebpf.Record.Exact.{record_all-summary}
use scrutiny.Ebpf.Wire.{FileEvent, read_syscall_event, file_access}
use scrutiny.Ebpf.Wire.Layout.{syscall_bytes, Fits, read_syscall_event-bytes}
use scrutiny.Ebpf.Tracer.{Kernel, Action}
use scrutiny.Ebpf.Tracer.Released.{Ends}
use scrutiny.Ebpf.Collect.{
  Input, timeout, syscall_event, file_event, Observed, start, collect_loop, collect,
}
use scrutiny.Ebpf.Collect.Ends.{collect_loop-returns, collect-releases}
use scrutiny.Ebpf.Reader.{Reach, begin, round, consume, sample, read_round, deliver}
use scrutiny.Ebpf.Reader.Order.{IsOrdered, decoded, Reach-IsOrdered}
use scrutiny.Tests.Samples.{platform}
use scrutiny.Tests.Sensor.{host}

abbrev entered : SyscallEvent
entered = record {
  timestamp_ns = 5000000;
  latency_ns = 0;
  pid = 7;
  syscall_nr = 2;
  args = 1 ∷ 255 ∷ 0 ∷ 0 ∷ 0 ∷ 0 ∷ [];
  ret = 0;
  is_exit = 0;
}

abbrev exited : SyscallEvent
exited = record {
  timestamp_ns = 8000000;
  latency_ns = 3000;
  pid = 7;
  syscall_nr = 2;
  args = 0 ∷ 0 ∷ 0 ∷ 0 ∷ 0 ∷ 0 ∷ [];
  ret = 18446744073709551614;
  is_exit = 1;
}

abbrev events : List SyscallEvent
events = entered ∷ exited ∷ entered ∷ []

open_record :
    lookup (codes "open") (record_all events (no_syscalls, 0)).0.observed
    ≡ some (record {
      count = 2;
      first_seen_offset_ms = 0;
      last_seen_offset_ms = 0;
      args_sample = codes "0x1 0xff 0x0 0x0 0x0 0x0" ∷ codes "0x1 0xff 0x0 0x0 0x0 0x0" ∷ [];
      exit_count = 1;
      error_count = 1;
      ret_sample = 18446744073709551614 ∷ [];
      max_latency_ns = 3000;
      total_latency_ns = 3000;
    })
unfolding record_all lookup list_beq syscall_names
open_record = refl

record_all-summary_example :
    lookup (codes "open") (record_all events (no_syscalls, 0)).0.observed
    ≡ summary (keep (named (codes "open")) (stamp 0 events))
record_all-summary_example = record_all-summary (codes "open") events no_syscalls refl

abbrev pad : List ℕ
pad = 0 ∷ 0 ∷ 0 ∷ 0 ∷ 0 ∷ 0 ∷ 0 ∷ []

abbrev comm : List ℕ
comm = codes "cat" ++ (pad ++ codes "......")

exited-Fits : Fits 8 pad comm exited
unfolding codes
exited-Fits = record {
  timestamp = omega arith;
  latency = omega arith;
  pid = omega arith;
  thread = omega arith;
  nr = omega arith;
  six = refl;
  args = omega arith;
  ret = omega arith;
  exit = omega arith;
  padding = refl;
  command = refl;
}

read_syscall_event-bytes_example :
    read_syscall_event (syscall_bytes 8 pad comm exited) ≡ some exited
read_syscall_event-bytes_example = read_syscall_event-bytes 8 pad comm exited exited-Fits

-- A kernel that refuses the second reader.
abbrev refusing : Kernel
refusing = record {
  remove_memlock = none;
  load_spec = none;
  load_collection = none;
  has_program = λ name. true;
  has_map = λ name. true;
  attach = λ name. none;
  open_reader = λ name. if name == codes "file_events" then some (codes "no memory") else none;
  stat = λ path. inl (4, 4026531836);
  put_ns = λ ns. none;
  put_pid = λ pid. none;
}

abbrev opened_file : FileEvent
opened_file = record { syscall_nr = 2; flags = 65; op = 0; path = codes "/tmp/a" ++ 0 ∷ 0 ∷ [] }

abbrev before : List Input
before = syscall_event entered ∷ file_event opened_file ∷ syscall_event exited ∷ []

collect_loop-returns_example :
    collect_loop host platform (before ++ timeout ∷ syscall_event entered ∷ []) start
    ≡ some (
      finalize_suspicious_flags (record_all (entered ∷ exited ∷ []) (no_syscalls, 0)).0,
      build_filesystem host platform (file_access opened_file ∷ []),
    )
collect_loop-returns_example =
    collect_loop-returns host platform before timeout (syscall_event entered ∷ [])
      (tt, (tt, (tt, tt))) tt

collect-releases_example :
    (p : (Text ⊎ Observed) × List Action) × (collect host platform refusing 7
        (before ++ timeout ∷ [])
      ≡ some p)
    × Ends false p.1
collect-releases_example =
    collect-releases host platform refusing 7 before timeout [] (tt, (tt, (tt, tt))) tt

abbrev byte : List ℕ → Option ℕ
byte [] = none
byte (b ∷ s) = some b

-- Two records and a broken one are read, and the consumer takes an event.
taken :
    Reach byte ((5 ∷ []) ∷ [] ∷ (6 ∷ []) ∷ []) (5 ∷ []) (record { running = true; queue = 6 ∷ [] })
unfolding read_round deliver
taken =
    consume (
      round false (sample (6 ∷ [])) (round false (sample []) (round false (sample (5 ∷ [])) begin)))

Reach-IsOrdered_example :
    IsOrdered byte
      (decoded byte ((5 ∷ []) ∷ [] ∷ (6 ∷ []) ∷ []))
      (5 ∷ [])
      (record { running = true; queue = 6 ∷ [] })
Reach-IsOrdered_example = Reach-IsOrdered byte taken
