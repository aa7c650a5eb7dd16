-- ===== src/Ebpf/Record/Summary.antt =====
-- internal/sensor/ebpf/tracer.go: what the record of a name says of a whole capture, written
-- without the running record.
use scrutiny.Base.{
  ℕ, ◌+◌, ◌%◌, Bool, ◌&&◌, not, Option, none, some, List, [], ◌∷◌, if◌then◌else◌, length, take, map,
}
use scrutiny.Base.Eq.{◌==◌, nat_eq}
use scrutiny.Base.Int64.{Int64, word, slt, smax}
use scrutiny.Base.Text.{Text, text_eq}
use scrutiny.Schema.Observed.{SyscallRecord}
use scrutiny.Ebpf.Table.{syscall_name}
use scrutiny.Ebpf.Record.{SyscallEvent, max_samples, format_args, event_offset_ms, anchor}

-- An event with its offset.
abbrev pub Stamped : Type 0
Stamped = Int64 × SyscallEvent

-- The events with their offsets, from an anchor that is 0 as long as no event set it.
abbrev pub stamp : Int64 → List SyscallEvent → List Stamped
stamp first [] = []
stamp first (evt ∷ l) = (event_offset_ms first evt, evt) ∷ stamp (anchor first evt) l

abbrev pub keep {ℓ} : {A : Type ℓ} → (A → Bool) → List A → List A
keep test [] = []
keep test (x ∷ l) = if test x then x ∷ keep test l else keep test l

abbrev pub named : Text → Stamped → Bool
named name (off, evt) = syscall_name evt.syscall_nr == name

abbrev pub enters : Stamped → Bool
enters (off, evt) = evt.is_exit == 0

abbrev pub exits : Stamped → Bool
exits (off, evt) = not (evt.is_exit == 0)

abbrev pub failed : Stamped → Bool
failed (off, evt) = not (evt.is_exit == 0) && slt evt.ret 0

abbrev pub last_offset : Int64 → List Stamped → Int64
last_offset off [] = off
last_offset off ((o, evt) ∷ l) = last_offset o l

abbrev pub total_latency : List Stamped → ℕ
total_latency [] = 0
total_latency ((off, evt) ∷ l) = evt.latency_ns + total_latency l

abbrev pub max_latency : Int64 → List Stamped → Int64
max_latency m [] = m
max_latency m ((off, evt) ∷ l) = max_latency (smax m evt.latency_ns) l

-- The record of the events of one name, of which the first is at `off`.
abbrev pub summary_from : Int64 → List Stamped → SyscallRecord
summary_from off l = record {
  count = length (keep enters l) % word;
  first_seen_offset_ms = off;
  last_seen_offset_ms = last_offset off l;
  args_sample = take max_samples (map (λ (o, evt). format_args evt.args) (keep enters l));
  exit_count = length (keep exits l) % word;
  error_count = length (keep failed l) % word;
  ret_sample = take max_samples (map (λ (o, evt). evt.ret) (keep exits l));
  max_latency_ns = max_latency 0 (keep exits l);
  total_latency_ns = total_latency (keep exits l) % word;
}

abbrev pub summary : List Stamped → Option SyscallRecord
summary [] = none
summary ((off, evt) ∷ l) = some (summary_from off ((off, evt) ∷ l))
