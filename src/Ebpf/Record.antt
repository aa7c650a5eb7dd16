-- ===== src/Ebpf/Record.antt =====
-- internal/sensor/ebpf/tracer.go: the syscall events that are counted, name by name.
pub mod Summary
pub mod Exact
use scrutiny.Base.{ℕ, List, [], ◌∷◌, ◌++◌, if◌then◌else◌, append_below, get_or, map}
use scrutiny.Base.Eq.{◌==◌, nat_eq}
use scrutiny.Base.Int64.{Int64, add64, sub64, sdiv, slt, smax}
use scrutiny.Base.Text.{Text, codes, text_eq, join}
use scrutiny.Base.Decimal.{hex_nat}
use scrutiny.Base.Assoc.{Assoc, lookup, insert}
use scrutiny.Schema.Observed.{SyscallRecord, SyscallsObservation}
use scrutiny.Ebpf.Table.{syscall_name}

-- The six registers are a list; `tid` and `comm` are read by nothing.
pub record SyscallEvent : Type 0 where
  pub timestamp_ns : Int64
  pub latency_ns : Int64
  pub pid : ℕ
  pub syscall_nr : Int64
  pub args : List ℕ
  pub ret : Int64
  pub is_exit : ℕ

abbrev pub max_samples : ℕ
max_samples = 3

unfoldable pub format_args : List ℕ → Text
unfolding join hex_nat
format_args args = join (map (λ a. codes "0x" ++ hex_nat a) args) (codes " ")

-- The first three values are kept.
unfoldable pub sample {ℓ} : {A : Type ℓ} → A → List A → List A
sample = append_below max_samples

-- The record of a name that is not in the map.
unfoldable pub new_record : Int64 → SyscallRecord
new_record offset = record {
  count = 0;
  first_seen_offset_ms = offset;
  last_seen_offset_ms = 0;
  args_sample = [];
  exit_count = 0;
  error_count = 0;
  ret_sample = [];
  max_latency_ns = 0;
  total_latency_ns = 0;
}

unfoldable pub enter_event : SyscallEvent → SyscallRecord → SyscallRecord
unfolding sample format_args
enter_event evt r = record r {
  count = add64 r.count 1;
  args_sample = sample (format_args evt.args) r.args_sample;
}

unfoldable pub exit_event : SyscallEvent → SyscallRecord → SyscallRecord
unfolding sample
exit_event evt r = record r {
  exit_count = add64 r.exit_count 1;
  error_count = if slt evt.ret 0 then add64 r.error_count 1 else r.error_count;
  ret_sample = sample evt.ret r.ret_sample;
  total_latency_ns = add64 r.total_latency_ns evt.latency_ns;
  max_latency_ns = smax r.max_latency_ns evt.latency_ns;
}

-- An event at an offset, counted in the record of its name.
unfoldable pub count_event : Int64 → SyscallEvent → SyscallRecord → SyscallRecord
unfolding enter_event exit_event
count_event offset evt r =
    let seen = record r { last_seen_offset_ms = offset } in
    if evt.is_exit == 0 then enter_event evt seen else exit_event evt seen

unfoldable pub anchor : Int64 → SyscallEvent → Int64
anchor first evt = if first == 0 then evt.timestamp_ns else first

unfoldable pub event_offset_ms : Int64 → SyscallEvent → Int64
unfolding anchor
event_offset_ms first evt = sdiv (sub64 evt.timestamp_ns (anchor first evt)) 1000000

-- The observation and `firstEventNS`, after an event.
unfoldable pub record_syscall_event :
    SyscallsObservation × Int64 → SyscallEvent → SyscallsObservation × Int64
unfolding count_event new_record event_offset_ms anchor lookup insert syscall_name
record_syscall_event (obs, first) evt =
    let name = syscall_name evt.syscall_nr in
    let offset = event_offset_ms first evt in
    let r = get_or (new_record offset) (lookup name obs.observed) in
    (
      record obs { observed = insert name (count_event offset evt r) obs.observed },
      anchor first evt,
    )

-- The events of a capture, one after the other.
unfoldable pub record_all :
    List SyscallEvent → SyscallsObservation × Int64 → SyscallsObservation × Int64
unfolding record_syscall_event
record_all [] s = s
record_all (evt ∷ l) s = record_all l (record_syscall_event s evt)

unfoldable pub finalize_suspicious_flags : SyscallsObservation → SyscallsObservation
finalize_suspicious_flags obs = record obs {
  suspicious_never_expected =
      codes "ptrace"
      ∷ codes "process_vm_readv"
      ∷ codes "process_vm_writev"
      ∷ codes "init_module"
      ∷ codes "finit_module"
      ∷ codes "delete_module"
      ∷ codes "kexec_load"
      ∷ codes "kexec_file_load"
      ∷ [];
}
