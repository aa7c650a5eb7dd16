-- ===== src/Sysmon/Events/Names.antt =====
-- internal/sensor/sysmon/parse.go: about the children, files, queries and modules of a result.
use scrutiny.Base.{◌≡◌, refl, Bool, not, ◌&&◌, Option, none, some, List, [], if◌then◌else◌, arith}
use scrutiny.Base.Eq.{◌==◌, nat_eq}
use scrutiny.Base.Int64.{Int64}
use scrutiny.Base.Text.{Text, codes, text_eq}
use scrutiny.Base.Text.Order.{text_lt}
use scrutiny.Schema.Observed.{ChildProcess, DnsQuery, FilePath}
use scrutiny.Sysmon.Parse.{SysmonEvent, datum, file_path}
use scrutiny.Sysmon.Map.{EventKind, event_kind, tracked_pids, MapState, child_of, query_of}
use scrutiny.Sysmon.Events.{
  is_tracked, is_parent, map_kind, map_events, sorted_result, child_less, query_less, file_less,
}
use scrutiny.Sysmon.Events.Once.{note, Names, Noted, map_all-Names}

abbrev pub image : SysmonEvent → Text
image e = datum e (codes "Image")

abbrev pub filename : SysmonEvent → Text
filename e = datum e (codes "TargetFilename")

abbrev pub query_name : SysmonEvent → Text
query_name e = datum e (codes "QueryName")

abbrev pub loaded_image : SysmonEvent → Text
loaded_image e = datum e (codes "ImageLoaded")

abbrev when {ℓ} : {B : Type ℓ} → Bool → B → Option B
when test b = if test then some b else none

-- What an event of a kind adds to each list.
module _ (target : Int64) (tracked : List Int64) where
  abbrev pub spawned : EventKind → SysmonEvent → Option ChildProcess
  spawned EventKind.process_create e = when (is_parent target tracked e) (child_of e)
  spawned _ e = none

  abbrev pub creates : EventKind → SysmonEvent → Option FilePath
  creates EventKind.file_create e =
      when (is_tracked target tracked e && not (filename e == [])) (file_path (filename e))
  creates _ e = none

  abbrev pub deletes : EventKind → SysmonEvent → Option FilePath
  deletes EventKind.file_delete e =
      when (is_tracked target tracked e && not (filename e == [])) (file_path (filename e))
  deletes _ e = none

  abbrev pub asks : EventKind → SysmonEvent → Option DnsQuery
  asks EventKind.dns_query e =
      when (is_tracked target tracked e && not (query_name e == [])) (query_of e)
  asks _ e = none

  abbrev pub loads : EventKind → SysmonEvent → Option Text
  loads EventKind.image_load e =
      when (is_tracked target tracked e && not (loaded_image e == [])) (loaded_image e)
  loads _ e = none

module _ (target : Int64) (tracked : List Int64) where
  children_kind :
      (k : EventKind) (e : SysmonEvent) (s : MapState)
      → (map_kind target tracked k e s).children
        ≡ note (image e) (spawned target tracked k e) s.children
  unfolding map_kind
  children_kind _ e s = ground arith

  children-Noted : Noted target tracked (λ s. s.children) image (spawned target tracked)
  children-Noted = record { counted = λ s n. refl; kind = children_kind }

  created_kind :
      (k : EventKind) (e : SysmonEvent) (s : MapState)
      → (map_kind target tracked k e s).created
        ≡ note (filename e) (creates target tracked k e) s.created
  unfolding map_kind
  created_kind _ e s = ground arith

  created-Noted : Noted target tracked (λ s. s.created) filename (creates target tracked)
  created-Noted = record { counted = λ s n. refl; kind = created_kind }

  deleted_kind :
      (k : EventKind) (e : SysmonEvent) (s : MapState)
      → (map_kind target tracked k e s).deleted
        ≡ note (filename e) (deletes target tracked k e) s.deleted
  unfolding map_kind
  deleted_kind _ e s = ground arith

  deleted-Noted : Noted target tracked (λ s. s.deleted) filename (deletes target tracked)
  deleted-Noted = record { counted = λ s n. refl; kind = deleted_kind }

  queries_kind :
      (k : EventKind) (e : SysmonEvent) (s : MapState)
      → (map_kind target tracked k e s).queries
        ≡ note (query_name e) (asks target tracked k e) s.queries
  unfolding map_kind
  queries_kind _ e s = ground arith

  queries-Noted : Noted target tracked (λ s. s.queries) query_name (asks target tracked)
  queries-Noted = record { counted = λ s n. refl; kind = queries_kind }

  modules_kind :
      (k : EventKind) (e : SysmonEvent) (s : MapState)
      → (map_kind target tracked k e s).modules
        ≡ note (loaded_image e) (loads target tracked k e) s.modules
  unfolding map_kind
  modules_kind _ e s = ground arith

  modules-Noted : Noted target tracked (λ s. s.modules) loaded_image (loads target tracked)
  modules-Noted = record { counted = λ s n. refl; kind = modules_kind }

  spawned-tagged :
      (k : EventKind) (e : SysmonEvent) (b : ChildProcess)
      → spawned target tracked k e ≡ some b
      → b.path ≡ image e
  unfolding child_of file_path query_of
  spawned-tagged _ e b h = ground (arith, h)

  creates-tagged :
      (k : EventKind) (e : SysmonEvent) (b : FilePath)
      → creates target tracked k e ≡ some b
      → b.path ≡ filename e
  unfolding child_of file_path query_of
  creates-tagged _ e b h = ground (arith, h)

  deletes-tagged :
      (k : EventKind) (e : SysmonEvent) (b : FilePath)
      → deletes target tracked k e ≡ some b
      → b.path ≡ filename e
  unfolding child_of file_path query_of
  deletes-tagged _ e b h = ground (arith, h)

  asks-tagged :
      (k : EventKind) (e : SysmonEvent) (b : DnsQuery)
      → asks target tracked k e ≡ some b
      → b.query ≡ query_name e
  unfolding child_of file_path query_of
  asks-tagged _ e b h = ground (arith, h)

  loads-tagged :
      (k : EventKind) (e : SysmonEvent) (b : Text)
      → loads target tracked k e ≡ some b
      → b ≡ loaded_image e
  loads-tagged _ e b h = ground (arith, h)

-- MapEvents names each child process, created and deleted file, query and module once, and exactly
-- those that some event of their kind brings: the children of the target, and what is not empty and
-- comes from the target or one of its children.
pub map_events-Names :
    (k : Text) (l : List SysmonEvent) (target : Int64)
    → let r = map_events l target in
      let tracked = tracked_pids target l in
      Names (λ c. c.path) image (spawned target tracked) k l r.process.children_spawned
      × Names (λ f. f.path) filename (creates target tracked) k l r.filesystem.paths_created
      × Names (λ f. f.path) filename (deletes target tracked) k l r.filesystem.paths_deleted
      × Names (λ q. q.query) query_name (asks target tracked) k l r.network.dns_queries
      × Names (λ m. m) loaded_image (loads target tracked) k l r.memory.mapped_files
unfolding map_events sorted_result
map_events-Names k l target =
    let t = tracked_pids target l in
    (
      map_all-Names target t (λ s. s.children) image (spawned target t) (children-Noted target t) _
          child_less k l (λ e. spawned-tagged target t (event_kind e.id) e) refl,
      map_all-Names target t (λ s. s.created) filename (creates target t) (created-Noted target t) _
          file_less k l (λ e. creates-tagged target t (event_kind e.id) e) refl,
      map_all-Names target t (λ s. s.deleted) filename (deletes target t) (deleted-Noted target t) _
          file_less k l (λ e. deletes-tagged target t (event_kind e.id) e) refl,
      map_all-Names target t (λ s. s.queries) query_name (asks target t) (queries-Noted target t) _
          query_less k l (λ e. asks-tagged target t (event_kind e.id) e) refl,
      map_all-Names target t (λ s. s.modules) loaded_image (loads target t) (modules-Noted target t)
          _ text_lt k l (λ e. loads-tagged target t (event_kind e.id) e) refl,
    )
