-- ===== src/Ebpf/Collect/Ends.antt =====
-- internal/sensor/ebpf/tracer.go: about the end of a capture.
use scrutiny.Base.{
  ℕ, ◌≤◌, ◌≡◌, ap, ◌∙◌, sym, some, List, [], ◌∷◌, ◌++◌, ◌⊎◌, All, length, take, false, append_below,
  append_below-length, take-append_below, take-few, arith,
}
use scrutiny.Base.Text.{Text}
use scrutiny.Schema.Platform.{PlatformContext}
use scrutiny.Schema.Observed.{no_syscalls}
use scrutiny.Host.{Host}
use scrutiny.Ebpf.Record.{SyscallEvent, record_syscall_event, record_all, finalize_suspicious_flags}
use scrutiny.Ebpf.Classify.{FileAccess, build_filesystem}
use scrutiny.Ebpf.Wire.{file_access}
use scrutiny.Ebpf.Tracer.{Kernel, Action, with_tracer}
use scrutiny.Ebpf.Tracer.Released.{Ends, with_tracer-releases}
use scrutiny.Ebpf.Collect.{
  Input, timeout, events_closed, syscall_event, file_event, max_file_accesses, Capture, start,
  Observed, finish, collect_loop, collect,
}

-- The inputs that end the loop.
abbrev pub IsEnd : Input → Type 0
IsEnd timeout = Unit
IsEnd events_closed = Unit
IsEnd _ = ⊥

abbrev pub IsEvent : Input → Type 0
IsEvent (syscall_event evt) = Unit
IsEvent (file_event e) = Unit
IsEvent _ = ⊥

abbrev pub syscalls_of : List Input → List SyscallEvent
syscalls_of [] = []
syscalls_of (syscall_event evt ∷ l) = evt ∷ syscalls_of l
syscalls_of (_ ∷ l) = syscalls_of l

abbrev pub accesses_of : List Input → List FileAccess
accesses_of [] = []
accesses_of (file_event e ∷ l) = file_access e ∷ accesses_of l
accesses_of (_ ∷ l) = accesses_of l

-- What the events of a list leave, from a capture.
abbrev grown : Capture → List Input → Capture
grown c l = record {
  calls = record_all (syscalls_of l) c.calls;
  accesses = take max_file_accesses (c.accesses ++ accesses_of l);
}

collect_loop-grown :
    (h : Host) (ctx : PlatformContext) (before : List Input) (last : Input) (later : List Input)
    (c : Capture)
    → All IsEvent before
    → IsEnd last
    → length c.accesses ≤ max_file_accesses
    → collect_loop h ctx (before ++ last ∷ later) c ≡ some (finish h ctx (grown c before))
unfolding collect_loop record_all
collect_loop-grown h ctx [] timeout later c e end few = λ i. some (
    finish h ctx
      (record { calls = c.calls; accesses = sym (take-few max_file_accesses c.accesses few) i }))
collect_loop-grown h ctx [] events_closed later c e end few = λ i. some (
    finish h ctx
      (record { calls = c.calls; accesses = sym (take-few max_file_accesses c.accesses few) i }))
collect_loop-grown h ctx [] (syscall_event _) later c e end few = elim end [ ]
collect_loop-grown h ctx [] (file_event _) later c e end few = elim end [ ]
collect_loop-grown h ctx (timeout ∷ before) last later c (e, _) end few = elim e [ ]
collect_loop-grown h ctx (events_closed ∷ before) last later c (e, _) end few = elim e [ ]
collect_loop-grown h ctx (syscall_event evt ∷ before) last later c (_, e) end few =
    collect_loop-grown h ctx before last later
      (record c { calls = record_syscall_event c.calls evt }) e end few
collect_loop-grown h ctx (file_event f ∷ before) last later c (_, e) end few =
    let a = file_access f in
    let next = record c { accesses = append_below max_file_accesses a c.accesses } in
    collect_loop-grown h ctx before last later next e end
      (append_below-length max_file_accesses a c.accesses few)
    ∙ (λ i. some (
        finish h ctx (record {
          calls = record_all (syscalls_of before) c.calls;
          accesses = take-append_below max_file_accesses a c.accesses (accesses_of before) i;
        })))

-- A capture ends at the first timeout or closed channel. It returns the syscall events before that,
-- recorded in order, with the watch list, and the file accesses before that, of which the first
-- 500,000 are classified; what comes later changes nothing.
pub collect_loop-returns :
    (h : Host) (ctx : PlatformContext) (before : List Input) (last : Input) (later : List Input)
    → All IsEvent before
    → IsEnd last
    → collect_loop h ctx (before ++ last ∷ later) start
      ≡ some (
        finalize_suspicious_flags (record_all (syscalls_of before) (no_syscalls, 0)).0,
        build_filesystem h ctx (take max_file_accesses (accesses_of before)),
      )
unfolding finish
collect_loop-returns h ctx before last later e end =
    collect_loop-grown h ctx before last later start e end (omega arith)

-- Whatever the kernel answers, Collect returns when the timeout comes or the channel is closed, and
-- at its end each kernel object that was opened has been closed once.
pub collect-releases :
    (h : Host) (ctx : PlatformContext) (k : Kernel) (pid : ℕ) (before : List Input) (last : Input)
    (later : List Input)
    → All IsEvent before
    → IsEnd last
    → (p : (Text ⊎ Observed) × List Action) × (collect h ctx k pid (before ++ last ∷ later)
        ≡ some p)
      × Ends false p.1
unfolding collect
collect-releases h ctx k pid before last later e end =
    let returned = collect_loop-returns h ctx before last later e end in
    let (p, r, closed) = with_tracer-releases k pid _ in
    (p, ap (with_tracer k pid) returned ∙ r, closed)
