-- ===== src/Strace/Record.antt =====
-- internal/sensor/strace/parse.go and collect_linux.go: the records of the parsed lines.
pub mod Exact
use scrutiny.Base.{
  ℕ, Bool, not, ◌&&◌, none, some, List, [], ◌∷◌, if◌then◌else◌, append_below, get_or,
}
use scrutiny.Base.Eq.{◌==◌, nat_eq}
use scrutiny.Base.Int64.{Int64, add64, sub64, sdiv, smax}
use scrutiny.Base.Text.{Text, codes, text_eq}
use scrutiny.Base.Assoc.{Assoc, lookup, insert}
use scrutiny.Base.Report.{report_each}
use scrutiny.Schema.Observed.{
  SyscallRecord, SyscallsObservation, FilesystemObservation, no_syscalls, no_filesystem,
}
use scrutiny.Strace.Parse.{StraceEvent, parse_line}

-- `*firstTs` after an event
unfoldable pub first_ts : Int64 → StraceEvent → Int64
first_ts first e = if first == 0 && not (e.ts_micros == 0) then e.ts_micros else first

unfoldable pub line_offset_ms : Int64 → StraceEvent → Int64
unfolding first_ts
line_offset_ms first e =
    let anchor = first_ts first e in
    if not (anchor == 0) then sdiv (sub64 e.ts_micros anchor) 1000 else 0

-- The record of a name that is not in the map.
unfoldable pub empty_record : Int64 → SyscallRecord
empty_record offset = record {
  count = 0;
  first_seen_offset_ms = offset;
  last_seen_offset_ms = 0;
  args_sample = [];
  exit_count = 0;
  error_count = 0;
  ret_sample = [];
  max_latency_ns = 0;
  total_latency_ns = 0;
}

-- An event at an offset, counted in the record of its name.
unfoldable pub count_line : Int64 → StraceEvent → SyscallRecord → SyscallRecord
count_line offset e r = record r {
  count = add64 r.count 1;
  exit_count = add64 r.exit_count 1;
  last_seen_offset_ms = offset;
  total_latency_ns = add64 r.total_latency_ns e.latency_ns;
  max_latency_ns = smax r.max_latency_ns e.latency_ns;
  error_count = if e.is_error then add64 r.error_count 1 else r.error_count;
  args_sample = if e.args == [] then r.args_sample else append_below 3 e.args r.args_sample;
}

-- The function `record`, on the map and `firstTs`.
unfoldable pub record_line :
    Assoc Text SyscallRecord × Int64 → StraceEvent → Assoc Text SyscallRecord × Int64
unfolding first_ts line_offset_ms empty_record count_line lookup insert
record_line (observed, first) e =
    let offset = line_offset_ms first e in
    let r = get_or (empty_record offset) (lookup e.name observed) in
    (insert e.name (count_line offset e r) observed, first_ts first e)

unfoldable pub record_lines :
    List StraceEvent → Assoc Text SyscallRecord × Int64 → Assoc Text SyscallRecord × Int64
unfolding record_line
record_lines [] s = s
record_lines (e ∷ l) s = record_lines l (record_line s e)

abbrev pub suspicious_never_expected : List Text
suspicious_never_expected =
    codes "ptrace"
    ∷ codes "process_vm_readv"
    ∷ codes "process_vm_writev"
    ∷ codes "init_module"
    ∷ codes "finit_module"
    ∷ codes "delete_module"
    ∷ codes "kexec_load"
    ∷ codes "kexec_file_load"
    ∷ []

-- Collect, on the lines that strace prints until it ends.
unfoldable pub collect_strace : List Text → SyscallsObservation × FilesystemObservation
unfolding record_lines parse_line report_each
collect_strace lines = (
  record no_syscalls {
    observed = (record_lines (report_each parse_line lines) ([], 0)).0;
    suspicious_never_expected = suspicious_never_expected;
  },
  no_filesystem,
)
