-- ===== src/Tests/Sysmon.antt =====
-- The Sysmon events on concrete input.
use scrutiny.Base.{◌≡◌, refl, true, false, List, [], ◌∷◌, map, length}
use scrutiny.Base.Eq.{nat_eq, list_beq}
use scrutiny.Base.Text.{Text, codes, text_eq}
use scrutiny.Base.Numeral.{parse_int}
use scrutiny.Sysmon.Parse.{
  SysmonEvent, win_base, extract_hash, split_args, is_persistence_key, is_security_weakening_key,
}
use scrutiny.Sysmon.Map.{tracked_pids}
use scrutiny.Sysmon.Events.{map_events, is_involved}
use scrutiny.Sysmon.Events.Once.{Names}
use scrutiny.Sysmon.Events.Names.{
  image, filename, query_name, loaded_image, spawned, creates, deletes, asks, loads,
  map_events-Names,
}
use scrutiny.Sysmon.Events.Flags.{some_event, count_events, touches, injects, map_events-signals}

-- The target 1000 starts cmd.exe, which makes a file twice and writes a Run key.
abbrev events : List SysmonEvent
events =
    record {
      id = 1;
      event_data =
          (codes "ProcessId", codes "2000")
          ∷ (codes "ParentProcessId", codes "1000")
          ∷ (codes "Image", codes "C:\\Windows\\cmd.exe")
          ∷ (codes "Hashes", codes "MD5=AB,SHA256=DEAD")
          ∷ [];
    }
    ∷ record {
      id = 11;
      event_data =
          (codes "ProcessId", codes " 2000") ∷ (codes "TargetFilename", codes "C:\\a.txt") ∷ [];
    }
    ∷ record {
      id = 11;
      event_data =
          (codes "ProcessId", codes "1000") ∷ (codes "TargetFilename", codes "C:\\a.txt") ∷ [];
    }
    ∷ record {
      id = 13;
      event_data =
          (codes "ProcessId", codes "2000")
          ∷ (codes "TargetObject", codes "HKLM\\Software\\CurrentVersion\\run\\x")
          ∷ [];
    }
    ∷ record {
      id = 11;
      event_data =
          (codes "ProcessId", codes "77") ∷ (codes "TargetFilename", codes "C:\\b.txt") ∷ [];
    }
    ∷ []

created_once :
    map (λ f. f.path) (map_events events 1000).filesystem.paths_created ≡ codes "C:\\a.txt" ∷ []
unfolding map_events list_beq codes
created_once = refl

run_key : (map_events events 1000).registry.persistence_path_touched ≡ true
unfolding map_events is_persistence_key list_beq codes
run_key = refl

hash_value : extract_hash (codes "MD5=AB,sha256= DEad ") (codes "SHA256") ≡ codes "dead"
unfolding extract_hash codes list_beq
hash_value = refl

base_name : win_base (codes "C:\\Windows/cmd.exe") ≡ codes "cmd.exe"
unfolding win_base codes
base_name = refl

words : split_args (codes " cmd.exe  /c dir") ≡ codes "cmd.exe" ∷ codes "/c" ∷ codes "dir" ∷ []
unfolding split_args list_beq codes
words = refl

out_of_range : parse_int (codes "-9223372036854775809") ≡ (9223372036854775808, false)
unfolding parse_int codes
out_of_range = refl

abbrev path : Text
path = codes "C:\\a.txt"

map_events-Names_example :
    let r = map_events events 1000 in
    let t = tracked_pids 1000 events in
    Names (λ c. c.path) image (spawned 1000 t) path events r.process.children_spawned
    × Names (λ f. f.path) filename (creates 1000 t) path events r.filesystem.paths_created
    × Names (λ f. f.path) filename (deletes 1000 t) path events r.filesystem.paths_deleted
    × Names (λ q. q.query) query_name (asks 1000 t) path events r.network.dns_queries
    × Names (λ m. m) loaded_image (loads 1000 t) path events r.memory.mapped_files
map_events-Names_example = map_events-Names path events 1000

map_events-signals_example :
    let r = map_events events 1000 in
    let t = tracked_pids 1000 events in
    (r.registry.persistence_path_touched ≡ some_event (touches 1000 t is_persistence_key) events)
    × (r.registry.security_weakened ≡ some_event (touches 1000 t is_security_weakening_key) events)
    × (r.process.injection_detected ≡ some_event (injects 1000 t) events)
    × (r.events_for_pid ≡ count_events (is_involved 1000 t) events)
    × (r.events_read ≡ length events)
map_events-signals_example = map_events-signals events 1000
