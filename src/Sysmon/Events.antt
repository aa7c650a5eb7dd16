-- ===== src/Sysmon/Events.antt =====
-- internal/sensor/sysmon/parse.go and sort.go: the loop of MapEvents, and the order of its results.
pub mod Once
pub mod Names
pub mod Flags
use scrutiny.Base.{ℕ, Bool, true, not, ◌&&◌, ◌||◌, List, [], ◌∷◌, ◌++◌, if◌then◌else◌, length, ◌+◌}
use scrutiny.Base.Eq.{◌==◌, nat_eq, has}
use scrutiny.Base.Int64.{Int64, slt}
use scrutiny.Base.Text.{Text, codes, text_eq}
use scrutiny.Base.Text.Order.{text_lt}
use scrutiny.Base.Sort.{sort_by}
use scrutiny.Schema.Observed.{
  RegistryObservation, ChildProcess, OutboundConnection, DnsQuery, FilePath, RegistryKey,
  no_process, no_network, no_filesystem, no_memory,
}
use scrutiny.Sysmon.Parse.{SysmonEvent, datum, atoi, file_path, equal_fold}
use scrutiny.Sysmon.Map.{
  EventKind, event_kind, pid_of, tracked_pids, Seen, add_once, MapState, no_events, child_of,
  connection_of, query_of, registry_event, registry_write, SysmonResult,
}

-- `tracked` is the set that the first pass made.
module _ (target : Int64) (tracked : List Int64) where
  unfoldable pub is_tracked : SysmonEvent → Bool
  unfolding pid_of has
  is_tracked e = has (pid_of (codes "ProcessId") e) tracked

  unfoldable pub is_source : SysmonEvent → Bool
  unfolding pid_of
  is_source e = pid_of (codes "SourceProcessId") e == target

  unfoldable pub is_parent : SysmonEvent → Bool
  unfolding pid_of
  is_parent e = pid_of (codes "ParentProcessId") e == target

  unfoldable pub is_involved : SysmonEvent → Bool
  unfolding is_tracked is_source is_parent
  is_involved e = is_tracked e || is_source e || e.id == 1 && is_parent e

  -- One case of the switch.
  unfoldable pub map_kind : EventKind → SysmonEvent → MapState → MapState
  unfolding is_tracked is_source is_parent datum add_once child_of connection_of query_of file_path
      registry_event registry_write has
  map_kind EventKind.process_create e s =
      if is_parent e
      then record s { children = add_once (datum e (codes "Image")) (child_of e) s.children }
      else s
  map_kind EventKind.network_connect e s =
      if is_tracked e && equal_fold (datum e (codes "Initiated")) (codes "true")
      then record s { connections = s.connections ++ connection_of e ∷ [] }
      else s
  map_kind EventKind.file_create e s =
      let p = datum e (codes "TargetFilename") in
      if is_tracked e && not (p == [])
      then record s { created = add_once p (file_path p) s.created }
      else s
  map_kind EventKind.file_delete e s =
      let p = datum e (codes "TargetFilename") in
      if is_tracked e && not (p == [])
      then record s { deleted = add_once p (file_path p) s.deleted }
      else s
  map_kind EventKind.registry_key e s =
      let key = datum e (codes "TargetObject") in
      if is_tracked e && not (key == []) && not (has key s.reg_keys)
      then record s { reg_keys = key ∷ s.reg_keys; registry = registry_event e key s.registry }
      else s
  map_kind EventKind.registry_set_value e s =
      let key = datum e (codes "TargetObject") in
      if is_tracked e && not (key == [])
      then record s { registry = registry_write key s.registry }
      else s
  map_kind EventKind.image_load e s =
      let image = datum e (codes "ImageLoaded") in
      if is_tracked e && not (image == [])
      then record s { modules = add_once image image s.modules }
      else s
  map_kind EventKind.dns_query e s =
      let q = datum e (codes "QueryName") in
      if is_tracked e && not (q == [])
      then record s { queries = add_once q (query_of e) s.queries }
      else s
  map_kind EventKind.create_remote_thread e s =
      if is_source e then record s { injection = true } else s
  map_kind EventKind.process_access e s =
      let image = datum e (codes "TargetImage") in
      if is_source e && not (image == [])
      then record s { procfs_reads = s.procfs_reads ++ image ∷ [] }
      else s
  map_kind EventKind.other e s = s

  unfoldable pub map_event : SysmonEvent → MapState → MapState
  unfolding map_kind is_involved event_kind
  map_event e s =
      map_kind (event_kind e.id) e
        (if is_involved e then record s { for_pid = s.for_pid + 1 } else s)

  unfoldable pub map_all : List SysmonEvent → MapState → MapState
  unfolding map_event
  map_all [] s = s
  map_all (e ∷ l) s = map_all l (map_event e s)

abbrev child_less : ChildProcess → ChildProcess → Bool
child_less a b = text_lt a.path b.path

abbrev connection_less : OutboundConnection → OutboundConnection → Bool
connection_less a b =
    if not (a.destination_ip == b.destination_ip)
    then text_lt a.destination_ip b.destination_ip
    else slt a.destination_port b.destination_port

abbrev query_less : DnsQuery → DnsQuery → Bool
query_less a b = text_lt a.query b.query

abbrev file_less : FilePath → FilePath → Bool
file_less a b = text_lt a.path b.path

abbrev key_less : RegistryKey → RegistryKey → Bool
key_less a b = text_lt a.key b.key

-- sortResult, on the state that the loop leaves.
unfoldable pub sorted_result : ℕ → MapState → SysmonResult
unfolding sort_by
sorted_result read s = record {
  process = record no_process {
    children_spawned = sort_by child_less s.children.items;
    procfs_reads = sort_by text_lt s.procfs_reads;
    injection_detected = s.injection;
  };
  network = record no_network {
    outbound_connections = sort_by connection_less s.connections;
    dns_queries = sort_by query_less s.queries.items;
  };
  filesystem = record no_filesystem {
    paths_created = sort_by file_less s.created.items;
    paths_deleted = sort_by file_less s.deleted.items;
  };
  registry = record s.registry {
    keys_created = sort_by key_less s.registry.keys_created;
    keys_deleted = sort_by key_less s.registry.keys_deleted;
    keys_written = sort_by key_less s.registry.keys_written;
  };
  memory = record no_memory { mapped_files = sort_by text_lt s.modules.items };
  events_read = read;
  events_for_pid = s.for_pid;
}

unfoldable pub map_events : List SysmonEvent → Int64 → SysmonResult
unfolding tracked_pids map_all sorted_result
map_events l target = sorted_result (length l) (map_all target (tracked_pids target l) l no_events)
