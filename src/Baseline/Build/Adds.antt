-- ===== src/Baseline/Build/Adds.antt =====
-- internal/baseline/merge.go: what AddRun adds to each map of the later parts.
use scrutiny.Base.{◌≡◌, inl, inr, none, some, List, [], arith, Option-cases}
use scrutiny.Base.Eq.{nat_eq}
use scrutiny.Base.Int64.{Int64}
use scrutiny.Base.Text.{Text, text_eq}
use scrutiny.Schema.Observed.{FilePath, ChildProcess, MemoryRegion, RegistryKey, PrivilegeChange}
use scrutiny.Baseline.Maps.{merge_files, keep_first, keep_last, add_names, keep_changes}
use scrutiny.Baseline.Accumulator.{
  Run, Accumulator, add_run, add_syscalls, add_network, add_files, add_process, add_memory,
  add_registry, child_path, region_range, registry_path,
}

-- What a run brings: nothing where a sensor gave no observation.
abbrev pub run_read : Run → List FilePath
run_read r = elim r.files [ none ↦ [] | some o ↦ o.paths_read ]

abbrev pub run_written : Run → List FilePath
run_written r = elim r.files [ none ↦ [] | some o ↦ o.paths_written ]

abbrev pub run_created : Run → List FilePath
run_created r = elim r.files [ none ↦ [] | some o ↦ o.paths_created ]

abbrev pub run_deleted : Run → List FilePath
run_deleted r = elim r.files [ none ↦ [] | some o ↦ o.paths_deleted ]

abbrev pub run_executed : Run → List FilePath
run_executed r = elim r.files [ none ↦ [] | some o ↦ o.execs_touched ]

abbrev pub run_children : Run → List ChildProcess
run_children r = elim r.process [ none ↦ [] | some o ↦ o.children_spawned ]

abbrev pub run_regions : Run → List MemoryRegion
run_regions r = elim r.memory [ none ↦ [] | some o ↦ o.executable_regions ]

abbrev pub run_keys_created : Run → List RegistryKey
run_keys_created r = elim r.registry [ none ↦ [] | some o ↦ o.keys_created ]

abbrev pub run_keys_written : Run → List RegistryKey
run_keys_written r = elim r.registry [ none ↦ [] | some o ↦ o.keys_written ]

abbrev pub run_keys_deleted : Run → List RegistryKey
run_keys_deleted r = elim r.registry [ none ↦ [] | some o ↦ o.keys_deleted ]

abbrev pub run_mapped : Run → List Text
run_mapped r = elim r.memory [ none ↦ [] | some o ↦ o.mapped_files ]

abbrev pub run_sizes : Run → List Int64
run_sizes r = elim r.memory [ none ↦ [] | some o ↦ o.large_allocations ]

abbrev pub run_changes : Run → List PrivilegeChange
run_changes r = elim r.process [ none ↦ [] | some o ↦ o.privilege_changes ]

module _ (r : Run) (a : Accumulator) where
  pub read-add_run : (add_run r a).files_read ≡ merge_files (run_read r) a.files_read
  unfolding add_run add_syscalls add_network add_files add_process add_memory add_registry
      merge_files
  read-add_run = elim (Option-cases r.files) [
    | inl e ↦ ground (arith, e)
    | inr (o, e) ↦ ground (arith, e)
  ]

  pub written-add_run : (add_run r a).files_written ≡ merge_files (run_written r) a.files_written
  unfolding add_run add_syscalls add_network add_files add_process add_memory add_registry
      merge_files
  written-add_run = elim (Option-cases r.files) [
    | inl e ↦ ground (arith, e)
    | inr (o, e) ↦ ground (arith, e)
  ]

  pub created-add_run : (add_run r a).files_created ≡ merge_files (run_created r) a.files_created
  unfolding add_run add_syscalls add_network add_files add_process add_memory add_registry
      merge_files
  created-add_run = elim (Option-cases r.files) [
    | inl e ↦ ground (arith, e)
    | inr (o, e) ↦ ground (arith, e)
  ]

  pub deleted-add_run : (add_run r a).files_deleted ≡ merge_files (run_deleted r) a.files_deleted
  unfolding add_run add_syscalls add_network add_files add_process add_memory add_registry
      merge_files
  deleted-add_run = elim (Option-cases r.files) [
    | inl e ↦ ground (arith, e)
    | inr (o, e) ↦ ground (arith, e)
  ]

  pub executed-add_run : (add_run r a).files_exec ≡ merge_files (run_executed r) a.files_exec
  unfolding add_run add_syscalls add_network add_files add_process add_memory add_registry
      merge_files
  executed-add_run = elim (Option-cases r.files) [
    | inl e ↦ ground (arith, e)
    | inr (o, e) ↦ ground (arith, e)
  ]

  pub children-add_run : (add_run r a).children ≡ keep_first child_path (run_children r) a.children
  unfolding add_run add_syscalls add_network add_files add_process add_memory add_registry
      keep_first
  children-add_run = elim (Option-cases r.process) [
    | inl e ↦ ground (arith, e)
    | inr (o, e) ↦ ground (arith, e)
  ]

  pub regions-add_run :
      (add_run r a).mem_regions ≡ keep_last region_range (run_regions r) a.mem_regions
  unfolding add_run add_syscalls add_network add_files add_process add_memory add_registry keep_last
  regions-add_run = elim (Option-cases r.memory) [
    | inl e ↦ ground (arith, e)
    | inr (o, e) ↦ ground (arith, e)
  ]

  pub keys_created-add_run :
      (add_run r a).reg_created ≡ keep_last registry_path (run_keys_created r) a.reg_created
  unfolding add_run add_syscalls add_network add_files add_process add_memory add_registry keep_last
  keys_created-add_run = elim (Option-cases r.registry) [
    | inl e ↦ ground (arith, e)
    | inr (o, e) ↦ ground (arith, e)
  ]

  pub keys_written-add_run :
      (add_run r a).reg_written ≡ keep_last registry_path (run_keys_written r) a.reg_written
  unfolding add_run add_syscalls add_network add_files add_process add_memory add_registry keep_last
  keys_written-add_run = elim (Option-cases r.registry) [
    | inl e ↦ ground (arith, e)
    | inr (o, e) ↦ ground (arith, e)
  ]

  pub keys_deleted-add_run :
      (add_run r a).reg_deleted ≡ keep_last registry_path (run_keys_deleted r) a.reg_deleted
  unfolding add_run add_syscalls add_network add_files add_process add_memory add_registry keep_last
  keys_deleted-add_run = elim (Option-cases r.registry) [
    | inl e ↦ ground (arith, e)
    | inr (o, e) ↦ ground (arith, e)
  ]

  pub mapped-add_run : (add_run r a).mapped_mem ≡ add_names (run_mapped r) a.mapped_mem
  unfolding add_run add_syscalls add_network add_files add_process add_memory add_registry add_names
  mapped-add_run = elim (Option-cases r.memory) [
    | inl e ↦ ground (arith, e)
    | inr (o, e) ↦ ground (arith, e)
  ]

  pub sizes-add_run : (add_run r a).large_alloc ≡ add_names (run_sizes r) a.large_alloc
  unfolding add_run add_syscalls add_network add_files add_process add_memory add_registry add_names
  sizes-add_run = elim (Option-cases r.memory) [
    | inl e ↦ ground (arith, e)
    | inr (o, e) ↦ ground (arith, e)
  ]

  pub changes-add_run :
      (add_run r a).priv_chng ≡ (keep_changes (run_changes r) (a.priv_chng, a.priv_seen)).0
  unfolding add_run add_syscalls add_network add_files add_process add_memory add_registry
      keep_changes
  changes-add_run = elim (Option-cases r.process) [
    | inl e ↦ ground (arith, e)
    | inr (o, e) ↦ ground (arith, e)
  ]

  pub seen-add_run :
      (add_run r a).priv_seen ≡ (keep_changes (run_changes r) (a.priv_chng, a.priv_seen)).1
  unfolding add_run add_syscalls add_network add_files add_process add_memory add_registry
      keep_changes
  seen-add_run = elim (Option-cases r.process) [
    | inl e ↦ ground (arith, e)
    | inr (o, e) ↦ ground (arith, e)
  ]
