-- ===== src/Procfs/Memory/Exact.antt =====
-- internal/sensor/procfs/collector_linux.go: about what CollectMemory reports.
use scrutiny.Base.{
  ◌≡◌, refl, ap, ◌∙◌, sym, Bool, false, ◌||◌, Option, none, some, List, [], ◌∷◌, map, arith, All,
  All-map,
}
use mathlib.Core.Path.{subst}
use scrutiny.Base.Eq.{nat_eq, has, Distinct}
use scrutiny.Base.Int64.{Int64, smax, slt}
use scrutiny.Base.Text.{Text, codes, text_eq}
use scrutiny.Base.Text.Order.{text_lt}
use scrutiny.Base.Assoc.{keys, values, lookup}
use scrutiny.Base.Sort.Laws.{has-sort_by, sort_by-Distinct, All-sort_by, has-sort, sort-Distinct}
use scrutiny.Schema.Observed.{MemoryRegion}
use scrutiny.Procfs.Collect.{Snapshot, read_vm_kb}
use scrutiny.Procfs.Memory.{
  MemoryState, region_key, self, present, maps_of, poll_memory, poll_memories, no_memory_state,
  range_less, collect_memory,
}
use scrutiny.Procfs.Memory.Maps.{
  has-insert_each, insert_each-Distinct, map-self, latest, lookup-insert_each, insert_each-tagged,
  values-lookup,
}

-- Is the item in the list of some poll?
abbrev pub some_poll : (Snapshot → Bool) → List Snapshot → Bool
some_poll test [] = false
some_poll test (p ∷ l) = test p || some_poll test l

abbrev pub peak_of : (Snapshot → Int64) → Int64 → List Snapshot → Int64
peak_of f m [] = m
peak_of f m (p ∷ l) = peak_of f (smax m (f p)) l

module _ (pid : Int64) where
  abbrev pub has_region : Text → Snapshot → Bool
  has_region k p = has k (map region_key (maps_of pid p).0)

  abbrev pub has_mapped : Text → Snapshot → Bool
  has_mapped k p = has k (maps_of pid p).1

  abbrev pub has_large : Int64 → Snapshot → Bool
  has_large n p = has n (maps_of pid p).2

  abbrev pub peak_kb : Snapshot → Int64
  peak_kb p = read_vm_kb p pid (codes "VmHWM")

  abbrev pub last_region : Text → Option MemoryRegion → List Snapshot → Option MemoryRegion
  last_region k o [] = o
  last_region k o (p ∷ l) = last_region k (latest k o (maps_of pid p).0) l

  -- What the polls leave in the maps.
  record Polled (k : Text) (n : Int64) (l : List Snapshot) (s : MemoryState) (t : MemoryState)
      : Type 0 where
    regions : has k (keys t.regions) ≡ (some_poll (has_region k) l || has k (keys s.regions))
    latest_region : lookup k t.regions ≡ last_region k (lookup k s.regions) l
    mapped : has k (keys t.mapped) ≡ (some_poll (has_mapped k) l || has k (keys s.mapped))
    large : has n (keys t.large) ≡ (some_poll (has_large n) l || has n (keys s.large))
    peak : t.peak ≡ peak_of peak_kb s.peak l

  poll_memories-Polled :
      (k : Text) (n : Int64) (l : List Snapshot) (s : MemoryState)
      → Polled k n l s (poll_memories pid l s)
  unfolding poll_memories poll_memory
  poll_memories-Polled k n [] s = record {
    regions = refl;
    latest_region = refl;
    mapped = refl;
    large = refl;
    peak = refl;
  }
  poll_memories-Polled k n (p ∷ l) s =
      let rest = poll_memories-Polled k n l (poll_memory pid p s) in
      let maps = maps_of pid p in
      record {
        regions = ground (arith, rest.regions, has-insert_each region_key self k maps.0 s.regions);
        latest_region =
            rest.latest_region
            ∙ ap (λ o. last_region k o l) (lookup-insert_each k maps.0 s.regions);
        mapped =
            ground
              (arith, rest.mapped, has-insert_each self present k maps.1 s.mapped, map-self maps.1);
        large =
            ground
              (arith, rest.large, has-insert_each self present n maps.2 s.large, map-self maps.2);
        peak = rest.peak;
      }

  -- What holds of the maps in every state.
  record Kept (s : MemoryState) : Type 0 where
    tagged : map region_key (values s.regions) ≡ keys s.regions
    regions : Distinct (keys s.regions)
    mapped : Distinct (keys s.mapped)
    large : Distinct (keys s.large)

  poll_memories-Kept : (l : List Snapshot) (s : MemoryState) → Kept s → Kept (poll_memories pid l s)
  unfolding poll_memories poll_memory
  poll_memories-Kept [] s h = h
  poll_memories-Kept (p ∷ l) s h =
      let maps = maps_of pid p in
      poll_memories-Kept l (poll_memory pid p s) (record {
        tagged = insert_each-tagged maps.0 s.regions h.tagged;
        regions = insert_each-Distinct region_key self maps.0 s.regions h.regions;
        mapped = insert_each-Distinct self present maps.1 s.mapped h.mapped;
        large = insert_each-Distinct self present maps.2 s.large h.large;
      })

-- CollectMemory reports an address range, a mapped file or the size of a large allocation exactly when
-- some poll lists it, and each once. The region that it reports at a range is the one of the last poll
-- that lists the range, and the peak is the largest VmHWM of the polls, and 0 at least.
pub collect_memory-exact :
    (pid : Int64) (k : Text) (n : Int64) (first : Snapshot) (polls : List Snapshot)
    (last : Snapshot)
    → let r = collect_memory pid first polls last in
      (has k (map region_key r.executable_regions) ≡ some_poll (has_region pid k) polls)
      × Distinct (map region_key r.executable_regions)
      × All (λ q. last_region pid (region_key q) none polls ≡ some q) r.executable_regions
      × (has k r.mapped_files ≡ some_poll (has_mapped pid k) polls)
      × Distinct r.mapped_files
      × (has n r.large_allocations ≡ some_poll (has_large pid n) polls)
      × Distinct r.large_allocations
      × (r.peak_rss_kb ≡ peak_of (peak_kb pid) 0 polls)
unfolding collect_memory has lookup
collect_memory-exact pid k n first polls last =
    let s = poll_memories pid polls no_memory_state in
    let r = collect_memory pid first polls last in
    let polled = poll_memories-Polled pid k n polls no_memory_state in
    let kept =
      poll_memories-Kept pid polls no_memory_state
        (record { tagged = refl; regions = tt; mapped = tt; large = tt }) in
    let sorted = has-sort_by range_less region_key k (values s.regions) in
    let files = has-sort text_lt k (keys s.mapped) in
    let sizes = has-sort slt n (keys s.large) in
    (
      sorted ∙ ap (has k) kept.tagged ∙ ground (arith, polled.regions),
      sort_by-Distinct range_less region_key (values s.regions)
          (subst Distinct (sym kept.tagged) kept.regions),
      All-sort_by range_less _ (values s.regions) (
          All-map _ _ (values s.regions)
            (λ q e.
              sym (poll_memories-Polled pid (region_key q) n polls no_memory_state).latest_region
              ∙ e)
            (values-lookup s.regions kept.regions kept.tagged)),
      ground (arith, files, polled.mapped),
      sort-Distinct text_lt (keys s.mapped) kept.mapped,
      ground (arith, sizes, polled.large),
      sort-Distinct slt (keys s.large) kept.large,
      polled.peak,
    )
