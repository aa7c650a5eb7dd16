-- ===== src/Procfs/Memory.antt =====
-- internal/sensor/procfs/collector_linux.go: CollectMemory.
pub mod Maps
pub mod Exact
use scrutiny.Base.{
  ℕ, Bool, true, false, ◌&&◌, Option, none, some, List, [], ◌∷◌, ◌++◌, if◌then◌else◌,
}
use scrutiny.Base.Eq.{Eq, nat_eq}
use scrutiny.Base.Int64.{Int64, sub64, slt, smax}
use scrutiny.Base.Text.{Text, codes, text_eq}
use scrutiny.Base.Text.Order.{text_lt}
use scrutiny.Base.Assoc.{Assoc, keys, values, insert}
use scrutiny.Base.Sort.{sort_by}
use scrutiny.Schema.Observed.{MemoryRegion, MemoryObservation, no_memory}
use scrutiny.Procfs.Parse.{parse_maps}
use scrutiny.Procfs.Collect.{Snapshot, proc_path, read_vm_kb}

-- `for _, x := range l { m[key(x)] = value(x) }`
unfoldable pub insert_each {ℓ κ ι} :
    {A : Type ℓ} {K : Type κ} {V : Type ι} ⦃e : Eq K⦄
    → (A → K)
    → (A → V)
    → List A
    → Assoc K V
    → Assoc K V
unfolding insert
insert_each key value [] m = m
insert_each key value (x ∷ l) m = insert_each key value l (insert (key x) (value x) m)

pub record MemoryState : Type 0 where
  pub regions : Assoc Text MemoryRegion
  pub mapped : Assoc Text Bool
  pub large : Assoc Int64 Bool
  pub peak : Int64

abbrev pub region_key : MemoryRegion → Text
region_key r = r.address_range

abbrev pub self {ℓ} : {A : Type ℓ} → A → A
self a = a

abbrev pub present {ℓ} : {A : Type ℓ} → A → Bool
present a = true

-- The three lists of a poll; none where the file is not read.
unfoldable pub maps_of : Int64 → Snapshot → List MemoryRegion × List Text × List Int64
unfolding proc_path parse_maps
maps_of pid p = elim (p.read_file (proc_path pid (codes "maps"))) [
  | none ↦ ([], [], [])
  | some contents ↦ parse_maps contents
]

unfoldable pub poll_memory : Int64 → Snapshot → MemoryState → MemoryState
unfolding insert_each maps_of read_vm_kb
poll_memory pid p s =
    let (regions, mapped, large) = maps_of pid p in
    record {
      regions = insert_each region_key self regions s.regions;
      mapped = insert_each self present mapped s.mapped;
      large = insert_each self present large s.large;
      peak = smax s.peak (read_vm_kb p pid (codes "VmHWM"));
    }

unfoldable pub poll_memories : Int64 → List Snapshot → MemoryState → MemoryState
unfolding poll_memory
poll_memories pid [] s = s
poll_memories pid (p ∷ l) s = poll_memories pid l (poll_memory pid p s)

abbrev pub no_memory_state : MemoryState
no_memory_state = record { regions = []; mapped = []; large = []; peak = 0 }

abbrev pub range_less : MemoryRegion → MemoryRegion → Bool
range_less a b = text_lt a.address_range b.address_range

-- The snapshots are the one before the first poll, those of the polls, and the one at the deadline.
unfoldable pub collect_memory : Int64 → Snapshot → List Snapshot → Snapshot → MemoryObservation
unfolding poll_memories read_vm_kb sort_by
collect_memory pid first polls last =
    let s = poll_memories pid polls no_memory_state in
    let initial = read_vm_kb first pid (codes "VmRSS") in
    let final = read_vm_kb last pid (codes "VmRSS") in
    record {
      peak_rss_kb = s.peak;
      heap_growth_kb = if slt 0 final && slt 0 initial then sub64 final initial else 0;
      executable_regions = sort_by range_less (values s.regions);
      large_allocations = sort_by slt (keys s.large);
      mapped_files = sort_by text_lt (keys s.mapped);
    }
