-- ===== src/Sysmon/Events/Once.antt =====
-- internal/sensor/sysmon/parse.go: about the lists that name each thing once.
use scrutiny.Base.{
  ℕ, ◌+◌, ◌≡◌, ap, ◌∙◌, sym, Bool, Option, none, some, List, [], ◌∷◌, ◌++◌, map, if◌then◌else◌,
  arith, Bool-cases, inl, inr,
}
use mathlib.Core.List.{append_assoc, append-nil}
use mathlib.Core.Path.{subst}
use scrutiny.Base.Eq.{nat_eq, has, Distinct}
use scrutiny.Base.Int64.{Int64}
use scrutiny.Base.Text.{Text, text_eq}
use scrutiny.Base.Sort.{sort_by}
use scrutiny.Base.Sort.Laws.{has-sort_by, sort_by-Distinct}
use scrutiny.Base.Report.{flag_each}
use scrutiny.Base.Report.Laws.{hits, has-flag_each, flag_each-Distinct}
use scrutiny.Sysmon.Parse.{SysmonEvent}
use scrutiny.Sysmon.Map.{EventKind, event_kind, Seen, add_once, MapState, no_events}
use scrutiny.Sysmon.Events.{is_involved, map_kind, map_event, map_all}

abbrev pub note {ℓ} : {B : Type ℓ} → Text → Option B → Seen B → Seen B
note k none s = s
note k (some b) s = add_once k b s

-- What is listed after an event, in either case, with what the later events add.
note-items {ℓ} :
    {B : Type ℓ} (later : List Text → List B) (k : Text) (o : Option B) (s : Seen B)
    → (note k o s).items ++ later (note k o s).keys
      ≡ s.items
        ++ (if has k s.keys
            then later s.keys
            else elim o [ none ↦ later s.keys | some b ↦ b ∷ later (k ∷ s.keys) ])
unfolding add_once
note-items later k none s = elim (Bool-cases (has k s.keys)) [ inl h ↦ rw h | inr h ↦ rw h ]
note-items later k (some b) s = elim (Bool-cases (has k s.keys)) [
  | inl h ↦ rw h
  | inr h ↦ rw h (append_assoc s.items (b ∷ []) (later (k ∷ s.keys)))
]

-- The list has an element with the key exactly when some event brings one, and has no two elements
-- with one key.
abbrev pub Names :
    {B : Type 0}
    → (B → Text)
    → (SysmonEvent → Text)
    → (EventKind → SysmonEvent → Option B)
    → Text
    → List SysmonEvent
    → List B
    → Type 0
Names tag key hit k l items =
    (has k (map tag items) ≡ hits key (λ e. hit (event_kind e.id) e) k l) × Distinct (map tag items)

-- A list of the state, the key of its elements, and what an event adds to it.
pub record Noted {B : Type 0} (target : Int64) (tracked : List Int64) (part : MapState → Seen B)
    (key : SysmonEvent → Text) (hit : EventKind → SysmonEvent → Option B) : Type 0 where
  pub counted : (s : MapState) (n : ℕ) → part (record s { for_pid = n }) ≡ part s
  pub kind :
      (k : EventKind) (e : SysmonEvent) (s : MapState)
      → part (map_kind target tracked k e s) ≡ note (key e) (hit k e) (part s)

module _ {B : Type 0} (target : Int64) (tracked : List Int64) (part : MapState → Seen B)
    (key : SysmonEvent → Text) (hit : EventKind → SysmonEvent → Option B)
    (noted : Noted target tracked part key hit) where
  abbrev pub hit_event : SysmonEvent → Option B
  hit_event e = hit (event_kind e.id) e

  map_event-part :
      (e : SysmonEvent) (s : MapState)
      → part (map_event target tracked e s) ≡ note (key e) (hit_event e) (part s)
  unfolding map_event
  map_event-part e s = elim (Bool-cases (is_involved target tracked e)) [
    | inl i ↦ rw i (
        noted.kind (event_kind e.id) e (record s { for_pid = s.for_pid + 1 })
        ∙ ap (note (key e) (hit_event e)) (noted.counted s (s.for_pid + 1)))
    | inr i ↦ rw i (noted.kind (event_kind e.id) e s)
  ]

  -- The list grows by the first event of each key.
  map_all-part :
      (l : List SysmonEvent) (s : MapState)
      → (part (map_all target tracked l s)).items
        ≡ (part s).items ++ flag_each key hit_event (part s).keys l
  unfolding map_all flag_each
  map_all-part [] s = sym (append-nil (part s).items)
  map_all-part (e ∷ l) s =
      let later = λ (keys : List Text). flag_each key hit_event keys l in
      map_all-part l (map_event target tracked e s)
      ∙ ap (λ p. p.items ++ later p.keys) (map_event-part e s)
      ∙ note-items later (key e) (hit_event e) (part s)

  pub map_all-Names :
      (tag : B → Text) (less : B → B → Bool) (k : Text) (l : List SysmonEvent)
      → ((e : SysmonEvent) (b : B) → hit_event e ≡ some b → tag b ≡ key e)
      → part no_events ≡ record { keys = []; items = [] }
      → Names tag key hit k l (sort_by less (part (map_all target tracked l no_events)).items)
  unfolding has
  map_all-Names tag less k l tagged empty =
      let items = (part (map_all target tracked l no_events)).items in
      let found = flag_each key hit_event [] l in
      let first : items ≡ found =
        map_all-part l no_events ∙ ap (λ p. p.items ++ flag_each key hit_event p.keys l) empty in
      let all = has-flag_each key hit_event tag tagged k [] l in
      (
        has-sort_by less tag k items ∙ ap (λ m. has k (map tag m)) first ∙ ground (arith, all),
        sort_by-Distinct less tag items (
            subst (λ m. Distinct (map tag m)) (sym first)
              (flag_each-Distinct key hit_event tag tagged [] l)),
      )
