-- ===== src/Baseline/Build/Counts.antt =====
-- internal/baseline/merge.go: about the counters of runs.
use scrutiny.Base.{
  ℕ, ◌+◌, ◌≡◌, refl, ap, ◌∙◌, Option, none, some, List, [], ◌∷◌, map, arith, if◌then◌else◌, length,
  All, get_or,
}
use scrutiny.Base.Eq.{nat_eq, has, Distinct}
use scrutiny.Base.Text.{Text, text_eq}
use scrutiny.Base.Assoc.{Assoc, keys, lookup}
use scrutiny.Schema.Observed.{
  SyscallRecord, SyscallsObservation, NetworkObservation, FilesystemObservation,
  RegistryObservation, ProcessObservation, MemoryObservation,
}
use scrutiny.Schema.Baseline.{confidence_eq}
use scrutiny.Analysis.Keys.{port_key, raw_key}
use scrutiny.Baseline.Accumulator.{
  Accumulator, empty, add_run, add_syscalls, add_network, add_files, add_process, add_memory,
  add_registry,
}
use scrutiny.Baseline.Accumulator.{Run, add_runs, call_name}
use scrutiny.Baseline.Maps.Laws.{occurrences, occurrences-Distinct, lookup-count_keys}
use scrutiny.Baseline.Build.Coverage.{run_calls, run_raw, run_ports}

-- How often the runs bring a key.
abbrev pub brought : (Run → List Text) → Text → List Run → ℕ
brought f k [] = 0
brought f k (r ∷ l) = occurrences k (f r) + brought f k l

-- In how many runs a key appears.
abbrev pub appearances : (Run → List Text) → Text → List Run → ℕ
appearances f k [] = 0
appearances f k (r ∷ l) = (if has k (f r) then 1 else 0) + appearances f k l

-- The run counters after one run.
record Counted (k : Text) (r : Run) (a : Accumulator) : Type 0 where
  calls :
      get_or 0 (lookup k (add_run r a).syscall_runs)
      ≡ get_or 0 (lookup k a.syscall_runs) + occurrences k (run_calls r)
  ports :
      get_or 0 (lookup k (add_run r a).port_runs)
      ≡ get_or 0 (lookup k a.port_runs) + occurrences k (run_ports r)
  raw :
      get_or 0 (lookup k (add_run r a).raw_runs)
      ≡ get_or 0 (lookup k a.raw_runs) + occurrences k (run_raw r)
  runs : (add_run r a).runs ≡ a.runs + 1

later_counters :
    (p : Option ProcessObservation) (m : Option MemoryObservation) (g : Option RegistryObservation)
    (f : Option FilesystemObservation) (a : Accumulator)
    → let b = add_registry g (add_memory m (add_process p (add_files f a))) in
      (b.syscall_runs ≡ a.syscall_runs)
      × (b.port_runs ≡ a.port_runs)
      × (b.raw_runs ≡ a.raw_runs)
      × (b.runs ≡ a.runs)
unfolding add_registry add_memory add_process add_files
later_counters p m g f a = ground arith

map-call_name : (l : Assoc Text SyscallRecord) → map call_name l ≡ keys l
map-call_name [] = refl
map-call_name ((k, r) ∷ l) = ap (λ ks. k ∷ ks) (map-call_name l)

early_counters :
    (k : Text) (s : Option SyscallsObservation) (n : Option NetworkObservation) (a : Accumulator)
    → let b = add_network n (add_syscalls s a) in
      (get_or 0 (lookup k b.syscall_runs)
        ≡ get_or 0 (lookup k a.syscall_runs)
          + occurrences k (elim s [ none ↦ [] | some o ↦ keys o.observed ]))
      × (get_or 0 (lookup k b.port_runs)
          ≡ get_or 0 (lookup k a.port_runs)
            + occurrences k (elim n [ none ↦ [] | some o ↦ map port_key o.listening_ports ]))
      × (get_or 0 (lookup k b.raw_runs)
          ≡ get_or 0 (lookup k a.raw_runs)
            + occurrences k (elim n [ none ↦ [] | some o ↦ map raw_key o.raw_sockets ]))
      × (b.runs ≡ a.runs)
unfolding add_network add_syscalls
early_counters k none none a = (omega arith, omega arith, omega arith, refl)
early_counters k none (some n) a = (
  omega arith,
  lookup-count_keys port_key k n.listening_ports a.port_runs,
  lookup-count_keys raw_key k n.raw_sockets a.raw_runs,
  refl,
)
early_counters k (some s) none a = (
  rw (← map-call_name s.observed) (lookup-count_keys call_name k s.observed a.syscall_runs),
  omega arith,
  omega arith,
  refl,
)
early_counters k (some s) (some n) a = (
  rw (← map-call_name s.observed) (lookup-count_keys call_name k s.observed a.syscall_runs),
  lookup-count_keys port_key k n.listening_ports a.port_runs,
  lookup-count_keys raw_key k n.raw_sockets a.raw_runs,
  refl,
)

add_run-Counted : (k : Text) (r : Run) (a : Accumulator) → Counted k r a
unfolding add_run
add_run-Counted k r a =
    let next = record a { runs = a.runs + 1 } in
    let (c, p, w, n) = early_counters k r.syscalls r.network next in
    let (c', p', w', n') =
      later_counters r.process r.memory r.registry r.files
        (add_network r.network (add_syscalls r.syscalls next)) in
    record { calls = rw c' c; ports = rw p' p; raw = rw w' w; runs = n' ∙ n }

-- Over all runs the counters of syscalls, ports and raw sockets grow by the occurrences of their keys
-- in the observations, and `runs` by the number of runs.
pub counters-add_runs :
    (k : Text) (l : List Run) (a : Accumulator)
    → (get_or 0 (lookup k (add_runs l a).syscall_runs)
        ≡ get_or 0 (lookup k a.syscall_runs) + brought run_calls k l)
      × (get_or 0 (lookup k (add_runs l a).port_runs)
          ≡ get_or 0 (lookup k a.port_runs) + brought run_ports k l)
      × (get_or 0 (lookup k (add_runs l a).raw_runs)
          ≡ get_or 0 (lookup k a.raw_runs) + brought run_raw k l)
      × ((add_runs l a).runs ≡ a.runs + length l)
unfolding add_runs
counters-add_runs k [] a = (omega arith, omega arith, omega arith, omega arith)
counters-add_runs k (r ∷ l) a =
    let (c, p, w, n) = counters-add_runs k l (add_run r a) in
    let s = add_run-Counted k r a in
    (
      omega (arith, c, s.calls),
      omega (arith, p, s.ports),
      omega (arith, w, s.raw),
      omega (arith, n, s.runs),
    )

brought-appearances :
    (f : Run → List Text) (k : Text) (l : List Run)
    → All (λ r. Distinct (f r)) l
    → brought f k l ≡ appearances f k l
brought-appearances f k [] h = refl
brought-appearances f k (r ∷ l) (d, h) =
    ground (arith, occurrences-Distinct k (f r) d, brought-appearances f k l h)

-- From an empty accumulator the counter of a syscall is the number of runs that observed it, where
-- each run names a syscall once, as a Go map does; and `runs` is the number of runs.
pub syscall_runs-exact :
    (k : Text) (l : List Run)
    → All (λ r. Distinct (run_calls r)) l
    → (get_or 0 (lookup k (add_runs l empty).syscall_runs) ≡ appearances run_calls k l)
      × ((add_runs l empty).runs ≡ length l)
unfolding lookup
syscall_runs-exact k l h =
    let (c, p, w, n) = counters-add_runs k l empty in
    (omega (arith, c, brought-appearances run_calls k l h), omega (arith, n))
