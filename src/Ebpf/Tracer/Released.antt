-- ===== src/Ebpf/Tracer/Released.antt =====
-- internal/sensor/ebpf/tracer.go: about the kernel objects that are open at the end.
use scrutiny.Base.{
  ℕ, ◌≡◌, refl, Bool, true, false, Option, none, some, List, [], ◌∷◌, ◌⊎◌, inl, inr, if◌then◌else◌,
  arith, Option-cases,
}
use scrutiny.Base.Text.{Text}
use scrutiny.Ebpf.Tracer.{
  Resource, Action, opened, closed, Kernel, Opening, open_readers, attach_links, find_parts,
  missing, set_target_ns, track_pid, new_syscall_tracer, stop, collect_from, with_tracer, ns_error,
  pid_error, collection, enter_link, exit_link, reader, file_reader,
}

abbrev same : Resource → Resource → Bool
same collection collection = true
same enter_link enter_link = true
same exit_link exit_link = true
same reader reader = true
same file_reader file_reader = true
same _ _ = false

-- Is the object open after the actions?
abbrev pub is_open : Resource → List Action → Bool
is_open r [] = false
is_open r (opened q ∷ log) = if same q r then true else is_open r log
is_open r (closed q ∷ log) = if same q r then false else is_open r log

-- Each action opens what is not open, or closes what is open.
abbrev pub IsProper : List Action → Type 0
IsProper [] = Unit
IsProper (opened q ∷ log) = (is_open q log ≡ false) × IsProper log
IsProper (closed q ∷ log) = (is_open q log ≡ true) × IsProper log

-- The log is proper, and either all the objects are open at its end or none is.
abbrev pub Ends : Bool → List Action → Type 0
Ends b log = IsProper log × ((r : Resource) → is_open r log ≡ b)

abbrev pub is_none {ℓ} : {A : Type ℓ} → Option A → Bool
is_none none = true
is_none (some a) = false

abbrev EndsWell : Opening → Type 0
EndsWell (none, log) = Ends true log
EndsWell (some e, log) = Ends false log

abbrev begun : List Action
begun = opened collection ∷ []

abbrev linked : List Action
linked = opened exit_link ∷ opened enter_link ∷ begun

open_readers_ends : (k : Kernel) → EndsWell (open_readers k linked)
unfolding open_readers
open_readers_ends k = ground arith

attach_links_ends : (k : Kernel) → EndsWell (attach_links k begun)
unfolding attach_links
attach_links_ends k = ground (arith, open_readers_ends k)

find_parts_ends : (k : Kernel) → EndsWell (find_parts k begun)
unfolding find_parts missing
find_parts_ends k = ground (arith, attach_links_ends k)

-- Whatever the kernel answers, NewSyscallTracer opens and closes each object in turn, and at its
-- end all five objects are open where it succeeds and none is where it returns an error.
pub new_syscall_tracer-releases :
    (k : Kernel) → let (failure, log) = new_syscall_tracer k in Ends (is_none failure) log
unfolding new_syscall_tracer
new_syscall_tracer-releases k = ground (arith, find_parts_ends k)

stop-Ends : (log : List Action) → Ends true log → Ends false (stop log)
unfolding stop
stop-Ends log (proper, h) = (
  ground (arith, h collection, h enter_link, h exit_link, h reader, h file_reader),
  λ r. elim r as (λ q. is_open q (stop log) ≡ false) [
    | collection ↦ refl
    | enter_link ↦ refl
    | exit_link ↦ refl
    | reader ↦ refl
    | file_reader ↦ refl
  ],
)

collect_from-Ends {ℓ} :
    {A : Type ℓ} (k : Kernel) (pid : ℕ) (r : A) (log : List Action)
    → Ends true log
    → (p : (Text ⊎ A) × List Action) × (collect_from k pid (some r) log ≡ some p) × Ends false p.1
unfolding collect_from
collect_from-Ends k pid r log h = elim (Option-cases (set_target_ns k pid)) [
  | inr (e, failed) ↦ ((inl (ns_error pid e), stop log), ground (arith, failed), stop-Ends log h)
  | inl ok ↦ elim (Option-cases (track_pid k pid)) [
    | inr (e, failed) ↦
        ((inl (pid_error pid e), stop log), ground (arith, ok, failed), stop-Ends log h)
    | inl tracked ↦ ((inr r, stop log), ground (arith, ok, tracked), stop-Ends log h)
  ]
]

-- Whatever the kernel answers, once the loop has returned.
pub with_tracer-releases {ℓ} :
    {A : Type ℓ} (k : Kernel) (pid : ℕ) (r : A)
    → (p : (Text ⊎ A) × List Action) × (with_tracer k pid (some r) ≡ some p) × Ends false p.1
unfolding with_tracer
with_tracer-releases k pid r = elim (Option-cases (new_syscall_tracer k).0) [
  | inr (e, failed) ↦ (
    (inl e, (new_syscall_tracer k).1),
    ground (arith, failed),
    ground (arith, failed, new_syscall_tracer-releases k),
  )
  | inl ok ↦
      let (p, e, ends) =
        collect_from-Ends k pid r (new_syscall_tracer k).1
          (ground (arith, ok, new_syscall_tracer-releases k)) in
      (p, ground (arith, ok, e), ends)
]
