-- ===== src/Tests/Process.antt =====
-- The process sensor on concrete input.
use scrutiny.Base.{◌≡◌, refl, true, false, none, some, List, [], ◌∷◌, ◌++◌, map, if◌then◌else◌, All}
use scrutiny.Base.Eq.{◌==◌, nat_eq, has, Distinct, list_beq}
use scrutiny.Base.Text.{Text, codes, text_eq}
use scrutiny.Procfs.Parse.{parse_maps, parse_status_euid, parse_status_kb, region_size}
use scrutiny.Procfs.Collect.{Snapshot, read_euid, collect_process}
use scrutiny.Procfs.Collect.First.{IsFirstSeen, first_change, collect_process-first}
use scrutiny.Procfs.Memory.{region_key, collect_memory}
use scrutiny.Procfs.Memory.Exact.{
  some_poll, peak_of, has_region, has_mapped, has_large, peak_kb, last_region, collect_memory-exact,
}

-- A target 7 with one thread, one child, and memory with the given permissions.
abbrev snapshot : Text → Text → Snapshot
snapshot uid perms = record {
  read_file = λ path.
      if path == codes "/proc/7/status"
      then some (codes "Name:\ta\nUid:\t0\t" ++ uid ++ codes "\t0\t0\nVmHWM:\t 12 kB\n")
      else if path == codes "/proc/7/task/7/children"
      then some (codes "8 ")
      else if path == codes "/proc/7/maps"
      then some (codes "1000-2000 " ++ perms ++ codes " 00000000 00:00 0 \n")
      else none;
  read_dir = λ path. if path == codes "/proc/7/task" then some (codes "7" ∷ []) else none;
  readlink = λ path. none;
  sha256 = λ path. none;
  offset_ms = 5;
}

abbrev polls : List Snapshot
polls =
    snapshot (codes "1000") (codes "rwxp")
    ∷ snapshot (codes "0") (codes "rwxp")
    ∷ snapshot (codes "0") (codes "r-xp")
    ∷ []

euid : parse_status_euid (codes "Uid:\t1000\t0\t0\t0") ≡ some 0
unfolding parse_status_euid codes
euid = refl

peak : parse_status_kb (codes "VmPeak: 1 kB\nVmHWM:\t 12 kB") (codes "VmHWM") ≡ 12
unfolding parse_status_kb codes
peak = refl

size : region_size (codes "7f00-8000") ≡ 256
unfolding region_size codes
size = refl

rwx : parse_maps (codes "1000-2000 rwxp 0 00:00 0\nx") ≡ (
  record { address_range = codes "1000-2000"; backed_by = codes "anonymous"; suspicious = true }
      ∷ [],
  [],
  [],
)
unfolding parse_maps codes scrutiny.Procfs.Parse.anonymous_mapping has list_beq region_size
rwx = refl

-- The region was writable and executable at the first polls, but is not suspicious in the result.
overwritten :
    map
      (λ r. r.suspicious)
      (collect_memory 7
        (snapshot (codes "0") (codes "rwxp"))
        polls
        (snapshot (codes "0") (codes "r-xp"))).executable_regions
    ≡ false ∷ []
unfolding collect_memory list_beq codes scrutiny.Procfs.Parse.anonymous_mapping
overwritten = refl

abbrev initial : Snapshot
initial = snapshot (codes "1000") (codes "rwxp")

abbrev range : Text
range = codes "1000-2000"

collect_memory-exact_example :
    let r = collect_memory 7 initial polls initial in
    (has range (map region_key r.executable_regions) ≡ some_poll (has_region 7 range) polls)
    × Distinct (map region_key r.executable_regions)
    × All (λ q. last_region 7 (region_key q) none polls ≡ some q) r.executable_regions
    × (has range r.mapped_files ≡ some_poll (has_mapped 7 range) polls)
    × Distinct r.mapped_files
    × (has 4096 r.large_allocations ≡ some_poll (has_large 7 4096) polls)
    × Distinct r.large_allocations
    × (r.peak_rss_kb ≡ peak_of (peak_kb 7) 0 polls)
collect_memory-exact_example = collect_memory-exact 7 range 4096 initial polls initial

collect_process-first_example :
    IsFirstSeen 7 polls (collect_process 7 initial polls).children_spawned
    × ((collect_process 7 initial polls).privilege_changes
        ≡ first_change 7 (read_euid initial 7) polls)
collect_process-first_example = collect_process-first 7 initial polls
