-- ===== src/Ebpf/Wire/Layout.antt =====
-- internal/sensor/ebpf/tracer.go: about reading what the structs of syscall_trace.c write.
use scrutiny.Base.{ℕ, ◌<◌, ◌≡◌, some, List, [], ◌++◌, length, All}
use scrutiny.Base.Eq.{nat_eq}
use scrutiny.Base.Bytes.{
  byte_power, write_word, read_word-write_word, write_words, read_words-write_words,
  read_bytes-append,
}
use scrutiny.Ebpf.Record.{SyscallEvent}
use scrutiny.Ebpf.Wire.{read_syscall_event}

-- The bytes of `struct syscall_event`, for a thread, a padding and a command.
unfoldable pub syscall_bytes : ℕ → List ℕ → List ℕ → SyscallEvent → List ℕ
syscall_bytes tid pad comm e =
    write_word 8 e.timestamp_ns
    ++ (write_word 8 e.latency_ns
        ++ (write_word 4 e.pid
            ++ (write_word 4 tid
                ++ (write_word 8 e.syscall_nr
                    ++ (write_words e.args
                        ++ (write_word 8 e.ret
                            ++ (write_word 1 e.is_exit ++ (pad ++ (comm ++ [])))))))))

-- Each field is in the range of its type, and there are as many arguments and bytes as declared.
pub record Fits (tid : ℕ) (pad comm : List ℕ) (e : SyscallEvent) : Type 0 where
  pub timestamp : e.timestamp_ns < byte_power 8
  pub latency : e.latency_ns < byte_power 8
  pub pid : e.pid < byte_power 4
  pub thread : tid < byte_power 4
  pub nr : e.syscall_nr < byte_power 8
  pub six : length e.args ≡ 6
  pub args : All (λ v. v < byte_power 8) e.args
  pub ret : e.ret < byte_power 8
  pub exit : e.is_exit < byte_power 1
  pub padding : length pad ≡ 7
  pub command : length comm ≡ 16

-- An event that the kernel writes, field after field, is read back.
pub read_syscall_event-bytes :
    (tid : ℕ) (pad comm : List ℕ) (e : SyscallEvent)
    → Fits tid pad comm e
    → read_syscall_event (syscall_bytes tid pad comm e) ≡ some e
unfolding read_syscall_event syscall_bytes
read_syscall_event-bytes tid pad comm e h = rw (
  read_word-write_word 8 e.timestamp_ns _ h.timestamp,
  read_word-write_word 8 e.latency_ns _ h.latency,
  read_word-write_word 4 e.pid _ h.pid,
  read_word-write_word 4 tid _ h.thread,
  read_word-write_word 8 e.syscall_nr _ h.nr,
  read_words-write_words 6 e.args _ h.six h.args,
  read_word-write_word 8 e.ret _ h.ret,
  read_word-write_word 1 e.is_exit _ h.exit,
  read_bytes-append 7 pad _ h.padding,
  read_bytes-append 16 comm [] h.command,
)
