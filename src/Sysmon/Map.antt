-- ===== src/Sysmon/Map.antt =====
-- internal/sensor/sysmon/parse.go: the state of MapEvents, and what one event adds to it. The state
-- keeps the map of the keys that were seen next to the list that it guards.
use scrutiny.Base.{ℕ, Bool, true, false, ◌&&◌, ◌||◌, List, [], ◌∷◌, ◌++◌, if◌then◌else◌}
use scrutiny.Base.Eq.{◌==◌, nat_eq, has}
use scrutiny.Base.Int64.{Int64, minus_one}
use scrutiny.Base.Text.{Text, codes, text_eq}
use scrutiny.Base.Text.Search.{contains, to_lower}
use scrutiny.Schema.Platform.{SensorAvailability}
use scrutiny.Schema.Observed.{
  ProcessObservation, NetworkObservation, FilesystemObservation, RegistryObservation,
  MemoryObservation, ChildProcess, OutboundConnection, DnsQuery, FilePath, RegistryKey,
}
use scrutiny.Sysmon.Parse.{
  SysmonEvent, datum, atoi, win_base, extract_hash, split_args, is_persistence_key,
  is_security_weakening_key,
}

pub record SysmonResult : Type 0 where
  pub process : ProcessObservation
  pub network : NetworkObservation
  pub filesystem : FilesystemObservation
  pub registry : RegistryObservation
  pub memory : MemoryObservation
  pub events_read : ℕ
  pub events_for_pid : ℕ

-- The constants of the event IDs.
pub data EventKind : Type 0 where
  process_create network_connect image_load create_remote_thread process_access : EventKind
  file_create registry_key registry_set_value dns_query file_delete other : EventKind

unfoldable pub event_kind : Int64 → EventKind
event_kind id =
    if id == 1
    then process_create
    else if id == 3
    then network_connect
    else if id == 7
    then image_load
    else if id == 8
    then create_remote_thread
    else if id == 10
    then process_access
    else if id == 11
    then file_create
    else if id == 12
    then registry_key
    else if id == 13
    then registry_set_value
    else if id == 22
    then dns_query
    else if id == 23 || id == 26
    then file_delete
    else other

-- The numbers that an event gives: its process, its parent and the source, with the value that Atoi
-- leaves on an error.
unfoldable pub pid_of : Text → SysmonEvent → Int64
unfolding atoi datum
pid_of name e = (atoi (datum e name)).0

-- The children that the first pass adds to the target.
unfoldable pub child_pids : Int64 → List SysmonEvent → List Int64
unfolding atoi datum event_kind
child_pids target [] = []
child_pids target (e ∷ l) =
    let rest = child_pids target l in
    let (parent, parsed) = atoi (datum e (codes "ParentProcessId")) in
    let (child, valid) = atoi (datum e (codes "ProcessId")) in
    if e.id == 1 && parsed && parent == target && valid then child ∷ rest else rest

unfoldable pub tracked_pids : Int64 → List SysmonEvent → List Int64
unfolding child_pids
tracked_pids target l = target ∷ child_pids target l

-- A list and the keys of its elements that were seen.
pub record Seen {ℓ} (A : Type ℓ) : Type ℓ where
  pub keys : List Text
  pub items : List A

unfoldable pub add_once {ℓ} : {A : Type ℓ} → Text → A → Seen A → Seen A
unfolding has
add_once k a s = if has k s.keys then s else record { keys = k ∷ s.keys; items = s.items ++ a ∷ [] }

abbrev pub none_seen {ℓ} : {A : Type ℓ} → Seen A
none_seen = record { keys = []; items = [] }

pub record MapState : Type 0 where
  pub children : Seen ChildProcess
  pub created : Seen FilePath
  pub deleted : Seen FilePath
  pub queries : Seen DnsQuery
  pub modules : Seen Text
  pub connections : List OutboundConnection
  pub procfs_reads : List Text
  pub injection : Bool
  pub reg_keys : List Text
  pub registry : RegistryObservation
  pub for_pid : ℕ

abbrev pub no_events : MapState
no_events = record {
  children = none_seen;
  created = none_seen;
  deleted = none_seen;
  queries = none_seen;
  modules = none_seen;
  connections = [];
  procfs_reads = [];
  injection = false;
  reg_keys = [];
  registry = record {
    available = true;
    context = SensorAvailability.native;
    keys_read = [];
    keys_written = [];
    keys_created = [];
    keys_deleted = [];
    persistence_path_touched = false;
    security_weakened = false;
  };
  for_pid = 0;
}

unfoldable pub child_of : SysmonEvent → ChildProcess
unfolding datum win_base extract_hash split_args
child_of e = record {
  name = win_base (datum e (codes "Image"));
  path = datum e (codes "Image");
  sha256 = extract_hash (datum e (codes "Hashes")) (codes "SHA256");
  args = split_args (datum e (codes "CommandLine"));
  uid = minus_one;
  first_seen_offset_ms = 0;
}

unfoldable pub connection_of : SysmonEvent → OutboundConnection
unfolding datum to_lower pid_of
connection_of e = record {
  destination_ip = datum e (codes "DestinationIp");
  destination_port = pid_of (codes "DestinationPort") e;
  proto = to_lower (datum e (codes "Protocol"));
  dns_name = datum e (codes "DestinationHostname");
  bytes_sent = 0;
  bytes_received = 0;
  first_seen_offset_ms = 0;
}

unfoldable pub query_of : SysmonEvent → DnsQuery
unfolding datum
query_of e = record {
  query = datum e (codes "QueryName");
  response = datum e (codes "QueryResults");
  first_seen_offset_ms = 0;
}

unfoldable pub key_of : Text → RegistryKey
key_of key = record {
  key = key;
  value_name = [];
  count = 1;
  sensitive = is_persistence_key key || is_security_weakening_key key;
}

unfoldable pub flag_registry_signals : RegistryObservation → Text → RegistryObservation
flag_registry_signals r key = record r {
  persistence_path_touched = r.persistence_path_touched || is_persistence_key key;
  security_weakened = r.security_weakened || is_security_weakening_key key;
}

-- The registry after a key was added or deleted.
unfoldable pub registry_event : SysmonEvent → Text → RegistryObservation → RegistryObservation
unfolding datum contains key_of flag_registry_signals
registry_event e key r =
    flag_registry_signals
      (if contains (datum e (codes "EventType")) (codes "Delete")
        then record r { keys_deleted = r.keys_deleted ++ key_of key ∷ [] }
        else record r { keys_created = r.keys_created ++ key_of key ∷ [] })
      key

unfoldable pub registry_write : Text → RegistryObservation → RegistryObservation
unfolding key_of flag_registry_signals
registry_write key r =
    flag_registry_signals (record r { keys_written = r.keys_written ++ key_of key ∷ [] }) key
