-- ===== src/Ebpf/Tracer.antt =====
-- internal/sensor/ebpf/tracer.go: the kernel objects of a tracer, as a log of what is opened and
-- closed. What the kernel and the eBPF library answer is a parameter.
pub mod Released
use scrutiny.Base.{
  ℕ, Bool, not, Option, none, some, List, [], ◌∷◌, ◌++◌, ◌⊎◌, inl, inr, if◌then◌else◌,
}
use scrutiny.Base.Text.{Text, codes}
use scrutiny.Base.Decimal.{decimal_nat}

pub data Resource : Type 0 where
  collection enter_link exit_link reader file_reader : Resource

pub data Action : Type 0 where
  opened closed : Resource → Action

-- What the calls return: an error's text, or none where they succeed; of `Stat`, the device and the
-- inode.
pub record Kernel : Type 0 where
  pub remove_memlock : Option Text
  pub load_spec : Option Text
  pub load_collection : Option Text
  pub has_program : Text → Bool
  pub has_map : Text → Bool
  pub attach : Text → Option Text
  pub open_reader : Text → Option Text
  pub stat : Text → (ℕ × ℕ) ⊎ Text
  pub put_ns : ℕ × ℕ → Option Text
  pub put_pid : ℕ → Option Text

-- An error or a success, and what was opened and closed on the way, the latest first.
abbrev pub Opening : Type 0
Opening = Option Text × List Action

not_found : Text → Text → Text
not_found kind name = name ++ codes " " ++ kind ++ codes " not found in object"

-- The object has no program or map of the name.
unfoldable pub missing : Text → Text → List Action → Opening
unfolding not_found
missing kind name log = (some (not_found kind name), closed collection ∷ log)

unfoldable pub open_readers : Kernel → List Action → Opening
open_readers k log = elim (k.open_reader (codes "events")) [
  | some e ↦ (
    some (codes "opening ring buffer reader: " ++ e),
    closed collection ∷ closed enter_link ∷ closed exit_link ∷ log,
  )
  | none ↦ elim (k.open_reader (codes "file_events")) [
    | some e ↦ (
      some (codes "opening file ring buffer reader: " ++ e),
      closed collection
          ∷ closed enter_link
          ∷ closed exit_link
          ∷ closed reader
          ∷ opened reader
          ∷ log,
    )
    | none ↦ (none, opened file_reader ∷ opened reader ∷ log)
  ]
]

unfoldable pub attach_links : Kernel → List Action → Opening
unfolding open_readers
attach_links k log = elim (k.attach (codes "sys_enter")) [
  | some e ↦ (some (codes "attaching sys_enter raw tracepoint: " ++ e), closed collection ∷ log)
  | none ↦ elim (k.attach (codes "sys_exit")) [
    | some e ↦ (
      some (codes "attaching sys_exit raw tracepoint: " ++ e),
      closed collection ∷ closed enter_link ∷ opened enter_link ∷ log,
    )
    | none ↦ open_readers k (opened exit_link ∷ opened enter_link ∷ log)
  ]
]

unfoldable pub find_parts : Kernel → List Action → Opening
unfolding attach_links missing
find_parts k log =
    if not (k.has_program (codes "trace_sys_enter"))
    then missing (codes "program") (codes "trace_sys_enter") log
    else if not (k.has_program (codes "trace_sys_exit"))
    then missing (codes "program") (codes "trace_sys_exit") log
    else if not (k.has_map (codes "pid_filter"))
    then missing (codes "map") (codes "pid_filter") log
    else if not (k.has_map (codes "events"))
    then missing (codes "ring buffer map") (codes "events") log
    else if not (k.has_map (codes "file_events"))
    then missing (codes "ring buffer map") (codes "file_events") log
    else attach_links k log

-- The steps of NewSyscallTracer.
unfoldable pub new_syscall_tracer : Kernel → Opening
unfolding find_parts
new_syscall_tracer k = elim k.remove_memlock [
  | some e ↦ (some (codes "removing memlock rlimit: " ++ e), [])
  | none ↦ elim k.load_spec [
    | some e ↦ (some (codes "parsing eBPF object: " ++ e), [])
    | none ↦ elim k.load_collection [
      | some e ↦ (some (codes "loading eBPF collection into kernel: " ++ e), [])
      | none ↦ find_parts k (opened collection ∷ [])
    ]
  ]
]

unfoldable pub stop : List Action → List Action
stop log =
    closed collection
    ∷ closed enter_link
    ∷ closed exit_link
    ∷ closed file_reader
    ∷ closed reader
    ∷ log

-- The error of the first stat is the one that is reported.
unfoldable pub set_target_ns : Kernel → ℕ → Option Text
unfolding not_found
set_target_ns k pid =
    let path = codes "/proc/" ++ decimal_nat pid ++ codes "/ns/pid" in
    if not (k.has_map (codes "ns_info"))
    then some (not_found (codes "map") (codes "ns_info"))
    else elim (k.stat path) [
      | inl ns ↦ k.put_ns ns
      | inr e ↦ elim (k.stat (codes "/proc/self/ns/pid")) [
        | inl ns ↦ k.put_ns ns
        | inr _ ↦ some (codes "stat " ++ path ++ codes " (and self): " ++ e)
      ]
    ]

unfoldable pub track_pid : Kernel → ℕ → Option Text
track_pid k pid = k.put_pid pid

unfoldable pub ns_error : ℕ → Text → Text
ns_error pid e = codes "resolving target namespace for pid " ++ decimal_nat pid ++ codes ": " ++ e

unfoldable pub pid_error : ℕ → Text → Text
pid_error pid e = codes "tracking pid " ++ decimal_nat pid ++ codes ": " ++ e

-- Collect after the tracer is there: what it returns, and the log at its end, where Stop is
-- deferred. `loop` is the result of the loop over the events; none where that has not returned.
unfoldable pub collect_from {ℓ} :
    {A : Type ℓ} → Kernel → ℕ → Option A → List Action → Option ((Text ⊎ A) × List Action)
unfolding stop set_target_ns track_pid ns_error pid_error
collect_from k pid loop log = elim (set_target_ns k pid) [
  | some e ↦ some (inl (ns_error pid e), stop log)
  | none ↦ elim (track_pid k pid) [
    | some e ↦ some (inl (pid_error pid e), stop log)
    | none ↦ elim loop [ none ↦ none | some r ↦ some (inr r, stop log) ]
  ]
]

unfoldable pub with_tracer {ℓ} :
    {A : Type ℓ} → Kernel → ℕ → Option A → Option ((Text ⊎ A) × List Action)
unfolding new_syscall_tracer collect_from
with_tracer k pid loop =
    let (failure, log) = new_syscall_tracer k in
    elim failure [ some e ↦ some (inl e, log) | none ↦ collect_from k pid loop log ]
