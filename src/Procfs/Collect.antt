-- ===== src/Procfs/Collect.antt =====
-- internal/sensor/procfs/collector_linux.go: what each poll of /proc adds. A poll is a snapshot of the
-- files, and the sequence of polls before the deadline is a parameter.
pub mod First
use scrutiny.Base.{
  ℕ, Bool, true, false, not, ◌&&◌, ◌||◌, Option, none, some, List, [], ◌∷◌, ◌++◌, if◌then◌else◌,
  length, map,
}
use scrutiny.Base.Eq.{Eq, ◌==◌, nat_eq}
use scrutiny.Base.Int64.{Int64, minus_one, sub64, slt, smax}
use scrutiny.Base.Text.{Text, codes, text_eq}
use scrutiny.Base.Text.Order.{text_lt}
use scrutiny.Base.Text.Parts.{trim_space, split, fields}
use scrutiny.Base.Decimal.{decimal}
use scrutiny.Base.Numeral.{parse_int}
use scrutiny.Base.Assoc.{Assoc, keys, values, lookup, insert}
use scrutiny.Base.Sort.{sort_by}
use scrutiny.Schema.Observed.{
  ChildProcess, PrivilegeChange, ProcessObservation, MemoryRegion, MemoryObservation, no_process,
  no_memory,
}
use scrutiny.Procfs.Parse.{parse_maps, parse_status_euid, parse_status_kb}

-- What /proc answers at one time, none on an error: the contents of files, the names in a directory,
-- the target of a link, and the SHA-256 of a file's contents in hexadecimal.
pub record Snapshot : Type 0 where
  pub read_file : Text → Option Text
  pub read_dir : Text → Option (List Text)
  pub readlink : Text → Option Text
  pub sha256 : Text → Option Text
  pub offset_ms : Int64

unfoldable pub proc_path : Int64 → Text → Text
unfolding decimal
proc_path pid name = codes "/proc/" ++ decimal pid ++ codes "/" ++ name

unfoldable pub read_euid : Snapshot → Int64 → Option Int64
unfolding proc_path parse_status_euid
read_euid p pid = elim (p.read_file (proc_path pid (codes "status"))) [
  | none ↦ none
  | some contents ↦ parse_status_euid contents
]

unfoldable pub read_vm_kb : Snapshot → Int64 → Text → Int64
unfolding proc_path parse_status_kb
read_vm_kb p pid key = elim (p.read_file (proc_path pid (codes "status"))) [
  | none ↦ 0
  | some contents ↦ parse_status_kb contents key
]

-- The tokens that are numbers.
unfoldable pub numbers : List Text → List Int64
unfolding parse_int
numbers [] = []
numbers (token ∷ l) =
    let rest = numbers l in let (v, valid) = parse_int token in if valid then v ∷ rest else rest

unfoldable pub children_of_tasks : Snapshot → Text → List Text → List Int64
unfolding numbers fields
children_of_tasks p dir [] = []
children_of_tasks p dir (task ∷ l) =
    let rest = children_of_tasks p dir l in
    elim (p.read_file (dir ++ codes "/" ++ task ++ codes "/children")) [
      | none ↦ rest
      | some contents ↦ numbers (fields contents) ++ rest
    ]

unfoldable pub children_of : Snapshot → Int64 → List Int64
unfolding proc_path children_of_tasks
children_of p pid =
    let dir = proc_path pid (codes "task") in
    elim (p.read_dir dir) [ none ↦ [] | some tasks ↦ children_of_tasks p dir tasks ]

unfoldable pub nonempty : List Text → List Text
nonempty [] = []
nonempty (s ∷ l) = if s == [] then nonempty l else s ∷ nonempty l

unfoldable pub split_cmdline : Text → List Text
unfolding nonempty split
split_cmdline contents = nonempty (split 0 contents)

unfoldable pub hash_exe : Snapshot → Int64 → Text
unfolding proc_path
hash_exe p pid = elim (p.sha256 (proc_path pid (codes "exe"))) [ none ↦ [] | some digest ↦ digest ]

unfoldable pub child_info : Snapshot → Int64 → ChildProcess
unfolding proc_path trim_space split_cmdline hash_exe parse_status_euid
child_info p pid = record {
  name = elim (p.read_file (proc_path pid (codes "comm"))) [ none ↦ [] | some s ↦ trim_space s ];
  path = elim (p.readlink (proc_path pid (codes "exe"))) [ none ↦ [] | some s ↦ s ];
  sha256 = hash_exe p pid;
  args = elim (p.read_file (proc_path pid (codes "cmdline"))) [
    | none ↦ []
    | some s ↦ split_cmdline s
  ];
  uid = elim (read_euid p pid) [ none ↦ minus_one | some euid ↦ euid ];
  first_seen_offset_ms = p.offset_ms;
}

-- The maps of CollectProcess, and the privilege changes; `uidFlagged` is that there is one.
pub record Lineage : Type 0 where
  pub children : Assoc Int64 ChildProcess
  pub changes : List PrivilegeChange
  pub uid_flagged : Bool

unfoldable pub add_children :
    Snapshot → List Int64 → Assoc Int64 ChildProcess → Assoc Int64 ChildProcess
unfolding child_info lookup insert
add_children p [] m = m
add_children p (cpid ∷ l) m = elim (lookup cpid m) [
  | some c ↦ add_children p l m
  | none ↦ add_children p l (insert cpid (child_info p cpid) m)
]

unfoldable pub privilege_change : Snapshot → Int64 → Int64 → PrivilegeChange
privilege_change p initial euid = record {
  from_uid = initial;
  to_uid = euid;
  syscall = codes "setuid";
  offset_ms = p.offset_ms;
}

-- The effective user at a poll, where it is not the initial one.
unfoldable pub changed_uid : Option Int64 → Option Int64 → Option (Int64 × Int64)
changed_uid none euid = none
changed_uid (some initial) none = none
changed_uid (some initial) (some euid) = if euid == initial then none else some (initial, euid)

unfoldable pub poll_process : Int64 → Option Int64 → Snapshot → Lineage → Lineage
unfolding add_children children_of read_euid changed_uid privilege_change
poll_process pid initial p s =
    let children = add_children p (children_of p pid) s.children in
    if s.uid_flagged
    then record s { children = children }
    else elim (changed_uid initial (read_euid p pid)) [
      | none ↦ record s { children = children }
      | some (from, to) ↦ record {
        children = children;
        changes = s.changes ++ privilege_change p from to ∷ [];
        uid_flagged = true;
      }
    ]

unfoldable pub poll_processes : Int64 → Option Int64 → List Snapshot → Lineage → Lineage
unfolding poll_process
poll_processes pid initial [] s = s
poll_processes pid initial (p ∷ l) s = poll_processes pid initial l (poll_process pid initial p s)

abbrev pub no_lineage : Lineage
no_lineage = record { children = []; changes = []; uid_flagged = false }

abbrev pub child_path_less : ChildProcess → ChildProcess → Bool
child_path_less a b = text_lt a.path b.path

-- The snapshots are the one before the first poll, and those of the polls.
unfoldable pub collect_process : Int64 → Snapshot → List Snapshot → ProcessObservation
unfolding poll_processes sort_by read_euid
collect_process pid first polls =
    let s = poll_processes pid (read_euid first pid) polls no_lineage in
    record no_process {
      children_spawned = sort_by child_path_less (values s.children);
      privilege_changes = s.changes;
    }
