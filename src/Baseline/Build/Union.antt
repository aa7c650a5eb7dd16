-- ===== src/Baseline/Build/Union.antt =====
-- internal/baseline/merge.go: about what Build returns of all runs.
use scrutiny.Base.{◌≡◌, refl, sym, ap, ◌∙◌, ◌||◌, List, [], ◌∷◌, map, arith}
use scrutiny.Base.Eq.{nat_eq, has}
use scrutiny.Base.Int64.{Int64}
use scrutiny.Base.Text.{Text, text_eq}
use scrutiny.Base.Assoc.{Assoc, keys, values}
use scrutiny.Base.Sort.Laws.{has-sort_by, has-sort}
use scrutiny.Analysis.Keys.{port_key, conn_key, raw_key}
use scrutiny.Baseline.Accumulator.{
  Run, Accumulator, empty, add_run, add_runs, child_path, region_range, registry_path,
}
use scrutiny.Baseline.Maps.{merge_files, keep_first, keep_last}
use scrutiny.Baseline.Maps.Laws.{keep_first-Keyed, has-keep_first, has-values}
use scrutiny.Baseline.Maps.Keys.{
  has-keep_last, keep_last-Keyed, normalized, has-merge_files, merge_files-Keyed, change_keys,
  has-keep_changes,
}
use scrutiny.Baseline.Build.{Result, build, by_key, files_slice, reg_slice}
use scrutiny.Schema.Observed.{FilePath, RegistryKey}
use scrutiny.Baseline.Build.Coverage.{
  run_calls, run_ports, run_conns, run_raw, run_promisc, seen, add_runs-EarlyUnion,
  add_runs-IsKeyed,
}
use scrutiny.Baseline.Build.Replay.{IsKeyed-empty}
use scrutiny.Baseline.Build.Adds
use scrutiny.Baseline.Build.Tracked.{sorted-values, sorted-names}

changes-add_runs :
    (k : Text) (l : List Run) (a : Accumulator)
    → has k (change_keys a.priv_chng) ≡ has k a.priv_seen
    → has k (change_keys (add_runs l a).priv_chng)
      ≡ (has k (change_keys a.priv_chng) || seen (λ r. change_keys (Adds.run_changes r)) k l)
unfolding add_runs
changes-add_runs k [] a h = ground arith
changes-add_runs k (r ∷ l) a h =
    let (p, q) = has-keep_changes k (Adds.run_changes r) a.priv_chng a.priv_seen h in
    let kept = ap (λ c. has k (change_keys c)) (Adds.changes-add_run r a) in
    let marked = ap (has k) (Adds.seen-add_run r a) in
    ground (arith, changes-add_runs k l (add_run r a) (kept ∙ q ∙ sym marked), kept, p, h)

-- The same for the lists of files and of registry keys.
files_have :
    (get : Accumulator → Assoc Text FilePath) (item : Run → List FilePath)
    → ((r : Run) (a : Accumulator) → get (add_run r a) ≡ merge_files (item r) (get a))
    → (k : Text) (l : List Run) → get empty ≡ []
    → has k (map normalized (files_slice (get (add_runs l empty))))
      ≡ seen (λ r. map normalized (item r)) k l
unfolding files_slice by_key
files_have get item add =
    sorted-values normalized get item merge_files add has-merge_files merge_files-Keyed _

keys_have :
    (get : Accumulator → Assoc Text RegistryKey) (item : Run → List RegistryKey)
    → ((r : Run) (a : Accumulator) → get (add_run r a) ≡ keep_last registry_path (item r) (get a))
    → (k : Text) (l : List Run) → get empty ≡ []
    → has k (map registry_path (reg_slice (get (add_runs l empty))))
      ≡ seen (λ r. map registry_path (item r)) k l
unfolding reg_slice by_key
keys_have get item add =
    sorted-values registry_path get item (keep_last registry_path) add (has-keep_last registry_path)
      (keep_last-Keyed registry_path) _

-- What a baseline has of runs: a key exactly when some run brings it.
pub record Union (l : List Run) (b : Result) (k : Text) (size : Int64) : Type 0 where
  pub calls : has k (keys b.syscalls.observed) ≡ seen run_calls k l
  pub ports : has k (map port_key b.network.listening_ports) ≡ seen run_ports k l
  pub conns : has k (map conn_key b.network.outbound_connections) ≡ seen run_conns k l
  pub raw : has k (map raw_key b.network.raw_sockets) ≡ seen run_raw k l
  pub promisc : has k (b.network.promiscuous_interfaces) ≡ seen run_promisc k l
  pub read :
      has k (map normalized b.filesystem.paths_read)
      ≡ seen (λ r. map normalized (Adds.run_read r)) k l
  pub written :
      has k (map normalized b.filesystem.paths_written)
      ≡ seen (λ r. map normalized (Adds.run_written r)) k l
  pub created :
      has k (map normalized b.filesystem.paths_created)
      ≡ seen (λ r. map normalized (Adds.run_created r)) k l
  pub deleted :
      has k (map normalized b.filesystem.paths_deleted)
      ≡ seen (λ r. map normalized (Adds.run_deleted r)) k l
  pub executed :
      has k (map normalized b.filesystem.execs_touched)
      ≡ seen (λ r. map normalized (Adds.run_executed r)) k l
  pub children :
      has k (map child_path b.process.children_spawned)
      ≡ seen (λ r. map child_path (Adds.run_children r)) k l
  pub changes :
      has k (change_keys b.process.privilege_changes)
      ≡ seen (λ r. change_keys (Adds.run_changes r)) k l
  pub regions :
      has k (map region_range b.memory.executable_regions)
      ≡ seen (λ r. map region_range (Adds.run_regions r)) k l
  pub mapped : has k (b.memory.mapped_files) ≡ seen Adds.run_mapped k l
  pub keys_created :
      has k (map registry_path b.registry.keys_created)
      ≡ seen (λ r. map registry_path (Adds.run_keys_created r)) k l
  pub keys_written :
      has k (map registry_path b.registry.keys_written)
      ≡ seen (λ r. map registry_path (Adds.run_keys_written r)) k l
  pub keys_deleted :
      has k (map registry_path b.registry.keys_deleted)
      ≡ seen (λ r. map registry_path (Adds.run_keys_deleted r)) k l
  pub sizes : has size b.memory.large_allocations ≡ seen Adds.run_sizes size l

-- What Build returns of all runs is their union: a syscall, port, connection, raw socket, promiscuous
-- interface, file of each of the five lists, child process, privilege change, memory region, mapped
-- file, large allocation or registry key of each of the three lists is there, by its key, exactly when
-- some run brings it.
pub build-Union :
    (l : List Run) (k : Text) (size : Int64) → Union l (build (add_runs l empty)) k size
unfolding build by_key files_slice reg_slice has
build-Union l k size =
    let early = add_runs-EarlyUnion l empty k in
    let keyed = add_runs-IsKeyed l empty IsKeyed-empty in
    let acc = add_runs l empty in
    record {
      calls = early.calls;
      ports =
          has-sort_by _ port_key k (values acc.ports)
          ∙ has-values port_key k acc.ports keyed.ports
          ∙ early.ports;
      conns =
          has-sort_by _ conn_key k (values acc.conns)
          ∙ has-values conn_key k acc.conns keyed.conns
          ∙ early.conns;
      raw =
          has-sort_by _ raw_key k (values acc.raw)
          ∙ has-values raw_key k acc.raw keyed.raw
          ∙ early.raw;
      promisc = has-sort _ k acc.promisc ∙ early.promisc;
      read = files_have (λ a. a.files_read) Adds.run_read Adds.read-add_run k l refl;
      written = files_have (λ a. a.files_written) Adds.run_written Adds.written-add_run k l refl;
      created = files_have (λ a. a.files_created) Adds.run_created Adds.created-add_run k l refl;
      deleted = files_have (λ a. a.files_deleted) Adds.run_deleted Adds.deleted-add_run k l refl;
      executed = files_have (λ a. a.files_exec) Adds.run_executed Adds.executed-add_run k l refl;
      children =
          sorted-values child_path (λ a. a.children) Adds.run_children (keep_first child_path)
            Adds.children-add_run (has-keep_first child_path) (keep_first-Keyed child_path) _ k l
            refl;
      changes = changes-add_runs k l empty refl;
      regions =
          sorted-values region_range (λ a. a.mem_regions) Adds.run_regions (keep_last region_range)
            Adds.regions-add_run (has-keep_last region_range) (keep_last-Keyed region_range) _ k l
            refl;
      mapped = sorted-names (λ a. a.mapped_mem) Adds.run_mapped Adds.mapped-add_run _ k l refl;
      keys_created =
          keys_have (λ a. a.reg_created) Adds.run_keys_created Adds.keys_created-add_run k l refl;
      keys_written =
          keys_have (λ a. a.reg_written) Adds.run_keys_written Adds.keys_written-add_run k l refl;
      keys_deleted =
          keys_have (λ a. a.reg_deleted) Adds.run_keys_deleted Adds.keys_deleted-add_run k l refl;
      sizes = sorted-names (λ a. a.large_alloc) Adds.run_sizes Adds.sizes-add_run _ size l refl;
    }
