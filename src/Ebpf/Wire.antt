-- ===== src/Ebpf/Wire.antt =====
-- internal/sensor/ebpf/tracer.go: the structs that the kernel writes, read from their bytes as
-- binary.Read does; bytes after the struct are ignored. Padding and `comm` are read by nothing.
pub mod Layout
use scrutiny.Base.{ℕ, Option, none, some, List, [], ◌∷◌, if◌then◌else◌}
use scrutiny.Base.Eq.{◌==◌, nat_eq}
use scrutiny.Base.Int64.{Int64}
use scrutiny.Base.Bytes.{◌>>=◌, read_word, read_words, read_bytes}
use scrutiny.Ebpf.Record.{SyscallEvent}
use scrutiny.Ebpf.Classify.{FileAccess}

-- The record of the file ring; the path is its 256 bytes.
pub record FileEvent : Type 0 where
  pub syscall_nr : Int64
  pub flags : ℕ
  pub op : ℕ
  pub path : List ℕ

unfoldable pub read_syscall_event : List ℕ → Option SyscallEvent
unfolding read_word read_words read_bytes
read_syscall_event raw = do
  (timestamp, s) ← read_word 8 raw
  (latency, s) ← read_word 8 s
  (pid, s) ← read_word 4 s
  (tid, s) ← read_word 4 s
  (nr, s) ← read_word 8 s
  (args, s) ← read_words 6 s
  (ret, s) ← read_word 8 s
  (is_exit, s) ← read_word 1 s
  (pad, s) ← read_bytes 7 s
  (comm, s) ← read_bytes 16 s
  some (record {
    timestamp_ns = timestamp;
    latency_ns = latency;
    pid = pid;
    syscall_nr = nr;
    args = args;
    ret = ret;
    is_exit = is_exit;
  })

unfoldable pub read_file_event : List ℕ → Option FileEvent
unfolding read_word read_bytes
read_file_event raw = do
  (timestamp, s) ← read_word 8 raw
  (pid, s) ← read_word 4 s
  (tid, s) ← read_word 4 s
  (nr, s) ← read_word 8 s
  (flags, s) ← read_word 4 s
  (op, s) ← read_word 1 s
  (pad, s) ← read_bytes 3 s
  (path, s) ← read_bytes 256 s
  some (record { syscall_nr = nr; flags = flags; op = op; path = path })

-- The bytes before the first zero.
unfoldable pub go_string : List ℕ → List ℕ
go_string [] = []
go_string (b ∷ s) = let rest = go_string s in if b == 0 then [] else b ∷ rest

-- The file access that the loop of Collect appends for an event.
unfoldable pub file_access : FileEvent → FileAccess
unfolding go_string
file_access e = record {
  syscall_nr = e.syscall_nr;
  flags = e.flags;
  op = e.op;
  path = go_string e.path;
}
