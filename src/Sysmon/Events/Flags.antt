-- ===== src/Sysmon/Events/Flags.antt =====
-- internal/sensor/sysmon/parse.go: about the flags and the count of a result.
use scrutiny.Base.{
  ℕ, ◌+◌, ◌≡◌, refl, ap, ◌∙◌, Bool, true, false, not, ◌&&◌, ◌||◌, List, [], ◌∷◌, if◌then◌else◌,
  arith, length, Bool-cases, inl, inr,
}
use scrutiny.Schema.Observed.{RegistryObservation}
use scrutiny.Base.Eq.{◌==◌, nat_eq, has, eq_iff}
use scrutiny.Base.Int64.{Int64}
use scrutiny.Base.Text.{Text, codes, text_eq}
use scrutiny.Sysmon.Parse.{SysmonEvent, datum, is_persistence_key, is_security_weakening_key}
use scrutiny.Sysmon.Map.{
  EventKind, event_kind, tracked_pids, MapState, no_events, flag_registry_signals, registry_event,
  registry_write,
}
use scrutiny.Sysmon.Events.{
  is_tracked, is_source, is_involved, map_kind, map_event, map_all, map_events, sorted_result,
}

abbrev pub target_object : SysmonEvent → Text
target_object e = datum e (codes "TargetObject")

abbrev pub some_event : (SysmonEvent → Bool) → List SysmonEvent → Bool
some_event test [] = false
some_event test (e ∷ l) = test e || some_event test l

abbrev pub count_events : (SysmonEvent → Bool) → List SysmonEvent → ℕ
count_events test [] = 0
count_events test (e ∷ l) = (if test e then 1 else 0) + count_events test l

module _ (target : Int64) (tracked : List Int64) where
  -- Does an event of the kind change a registry key that is of this sort?
  abbrev touches_kind : (Text → Bool) → EventKind → SysmonEvent → Bool
  touches_kind sort EventKind.registry_key e =
      is_tracked target tracked e && not (target_object e == []) && sort (target_object e)
  touches_kind sort EventKind.registry_set_value e =
      is_tracked target tracked e && not (target_object e == []) && sort (target_object e)
  touches_kind sort _ e = false

  abbrev pub touches : (Text → Bool) → SysmonEvent → Bool
  touches sort e = touches_kind sort (event_kind e.id) e

  abbrev injects_kind : EventKind → SysmonEvent → Bool
  injects_kind EventKind.create_remote_thread e = is_source target tracked e
  injects_kind _ e = false

  abbrev pub injects : SysmonEvent → Bool
  injects e = injects_kind (event_kind e.id) e

  -- The flags are up for every key that was seen.
  abbrev Flagged : MapState → Type 0
  Flagged s =
      (k : Text)
      → has k s.reg_keys ≡ true
      → ((s.registry.persistence_path_touched || is_persistence_key k)
          ≡ s.registry.persistence_path_touched)
        × ((s.registry.security_weakened || is_security_weakening_key k)
            ≡ s.registry.security_weakened)

  persistence_kind :
      (k : EventKind) (e : SysmonEvent) (s : MapState)
      → Flagged s
      → (map_kind target tracked k e s).registry.persistence_path_touched
        ≡ (s.registry.persistence_path_touched || touches_kind is_persistence_key k e)
  unfolding map_kind registry_event registry_write flag_registry_signals
  persistence_kind _ e s h = ground (arith, h (target_object e))

  weakened_kind :
      (k : EventKind) (e : SysmonEvent) (s : MapState)
      → Flagged s
      → (map_kind target tracked k e s).registry.security_weakened
        ≡ (s.registry.security_weakened || touches_kind is_security_weakening_key k e)
  unfolding map_kind registry_event registry_write flag_registry_signals
  weakened_kind _ e s h = ground (arith, h (target_object e))

  injection_kind :
      (k : EventKind) (e : SysmonEvent) (s : MapState)
      → (map_kind target tracked k e s).injection ≡ (s.injection || injects_kind k e)
  unfolding map_kind
  injection_kind _ e s = ground arith

  for_pid_kind :
      (k : EventKind) (e : SysmonEvent) (s : MapState)
      → (map_kind target tracked k e s).for_pid ≡ s.for_pid
  unfolding map_kind
  for_pid_kind _ e s = ground arith

  -- A key that was seen before keeps its flags, and a new one gets them.
  raised :
      (k key : Text) (s : MapState) (e : SysmonEvent) (r : RegistryObservation)
      → Flagged s
      → r.persistence_path_touched ≡ (s.registry.persistence_path_touched || is_persistence_key key)
      → r.security_weakened ≡ (s.registry.security_weakened || is_security_weakening_key key)
      → has k (key ∷ s.reg_keys) ≡ true
      → ((r.persistence_path_touched || is_persistence_key k) ≡ r.persistence_path_touched)
        × ((r.security_weakened || is_security_weakening_key k) ≡ r.security_weakened)
  unfolding has
  raised k key s e r h p w seen = elim (Bool-cases (k == key)) [
    | inl same ↦
        let eq = (eq_iff k key).0 same in
        (
          ground (arith, p, ap is_persistence_key eq),
          ground (arith, w, ap is_security_weakening_key eq),
        )
    | inr new ↦
        let (old_p, old_w) = h k (ground (arith, new, seen)) in
        (ground (arith, p, old_p), ground (arith, w, old_w))
  ]

  registry_event-signals :
      (e : SysmonEvent) (key : Text) (r : RegistryObservation)
      → ((registry_event e key r).persistence_path_touched
          ≡ (r.persistence_path_touched || is_persistence_key key))
        × ((registry_event e key r).security_weakened
            ≡ (r.security_weakened || is_security_weakening_key key))
  unfolding registry_event flag_registry_signals
  registry_event-signals e key r = ground arith

  registry_write-signals :
      (key : Text) (r : RegistryObservation)
      → ((registry_write key r).persistence_path_touched
          ≡ (r.persistence_path_touched || is_persistence_key key))
        × ((registry_write key r).security_weakened
            ≡ (r.security_weakened || is_security_weakening_key key))
  unfolding registry_write flag_registry_signals
  registry_write-signals key r = ground arith

  map_kind-Flagged :
      (k : EventKind) (e : SysmonEvent) (s : MapState)
      → Flagged s
      → Flagged (map_kind target tracked k e s)
  unfolding map_kind
  map_kind-Flagged EventKind.registry_key e s h k =
      let key = target_object e in
      let (p, w) = registry_event-signals e key s.registry in
      let next = raised k key s e (registry_event e key s.registry) h p w in
      ground (arith, next, h k)
  map_kind-Flagged EventKind.registry_set_value e s h k =
      let key = target_object e in
      let (p, w) = registry_write-signals key s.registry in ground (arith, h k, p, w)
  map_kind-Flagged _ e s h k = ground (arith, h k)

  map_event-Flagged :
      (e : SysmonEvent) (s : MapState) → Flagged s → Flagged (map_event target tracked e s)
  unfolding map_event
  map_event-Flagged e s h = elim (Bool-cases (is_involved target tracked e)) [
    | inl i ↦ rw i (map_kind-Flagged (event_kind e.id) e (record s { for_pid = s.for_pid + 1 }) h)
    | inr i ↦ rw i (map_kind-Flagged (event_kind e.id) e s h)
  ]

  -- What one event adds to the signals of a result.
  record Signals (e : SysmonEvent) (s : MapState) (t : MapState) : Type 0 where
    persistence :
        t.registry.persistence_path_touched
        ≡ (s.registry.persistence_path_touched || touches is_persistence_key e)
    weakened :
        t.registry.security_weakened
        ≡ (s.registry.security_weakened || touches is_security_weakening_key e)
    injection : t.injection ≡ (s.injection || injects e)
    for_pid : t.for_pid ≡ s.for_pid + (if is_involved target tracked e then 1 else 0)

  map_event-Signals :
      (e : SysmonEvent) (s : MapState) → Flagged s → Signals e s (map_event target tracked e s)
  unfolding map_event
  map_event-Signals e s h =
      let k = event_kind e.id in
      let involved = record s { for_pid = s.for_pid + 1 } in
      elim (Bool-cases (is_involved target tracked e)) [
        | inl i ↦ record {
          persistence = rw i (persistence_kind k e involved h);
          weakened = rw i (weakened_kind k e involved h);
          injection = rw i (injection_kind k e involved);
          for_pid = rw i (for_pid_kind k e involved);
        }
        | inr i ↦ record {
          persistence = rw i (persistence_kind k e s h);
          weakened = rw i (weakened_kind k e s h);
          injection = rw i (injection_kind k e s);
          for_pid = rw i (omega (arith, for_pid_kind k e s));
        }
      ]

  -- What all the events add.
  record AllSignals (l : List SysmonEvent) (s : MapState) (t : MapState) : Type 0 where
    persistence :
        t.registry.persistence_path_touched
        ≡ (s.registry.persistence_path_touched || some_event (touches is_persistence_key) l)
    weakened :
        t.registry.security_weakened
        ≡ (s.registry.security_weakened || some_event (touches is_security_weakening_key) l)
    injection : t.injection ≡ (s.injection || some_event injects l)
    for_pid : t.for_pid ≡ s.for_pid + count_events (is_involved target tracked) l

  map_all-AllSignals :
      (l : List SysmonEvent) (s : MapState)
      → Flagged s
      → AllSignals l s (map_all target tracked l s)
  unfolding map_all
  map_all-AllSignals [] s h = record {
    persistence = ground arith;
    weakened = ground arith;
    injection = ground arith;
    for_pid = omega arith;
  }
  map_all-AllSignals (e ∷ l) s h =
      let one = map_event-Signals e s h in
      let rest = map_all-AllSignals l (map_event target tracked e s) (map_event-Flagged e s h) in
      record {
        persistence = rest.persistence ∙ ground (arith, one.persistence);
        weakened = rest.weakened ∙ ground (arith, one.weakened);
        injection = rest.injection ∙ ground (arith, one.injection);
        for_pid = omega (arith, rest.for_pid, one.for_pid);
      }

-- The persistence flag and the weakening flag are up exactly when the target or one of its children
-- changed a registry key of this sort; injection is detected exactly
-- when the target made a remote thread; and the events are counted, all and those that involve the
-- target.
pub map_events-signals :
    (l : List SysmonEvent) (target : Int64)
    → let r = map_events l target in
      let tracked = tracked_pids target l in
      (r.registry.persistence_path_touched
        ≡ some_event (touches target tracked is_persistence_key) l)
      × (r.registry.security_weakened
          ≡ some_event (touches target tracked is_security_weakening_key) l)
      × (r.process.injection_detected ≡ some_event (injects target tracked) l)
      × (r.events_for_pid ≡ count_events (is_involved target tracked) l)
      × (r.events_read ≡ length l)
unfolding map_events sorted_result
map_events-signals l target =
    let all =
      map_all-AllSignals target (tracked_pids target l) l no_events (λ k h. ground (arith, h)) in
    (all.persistence, all.weakened, all.injection, omega (arith, all.for_pid), refl)
