-- ===== src/Procfs/Collect/First.antt =====
-- internal/sensor/procfs/collector_linux.go: about what CollectProcess reports.
use scrutiny.Base.{
  ◌≡◌, refl, ap, ◌∙◌, sym, true, false, Bool, ◌||◌, map, Option, none, some, List, [], ◌∷◌, ◌++◌,
  arith, if◌then◌else◌, Option-cases, inl, inr,
}
use mathlib.Core.List.{append-nil, Perm}
use mathlib.Core.List.Perm
use mathlib.Core.Path.{subst, fun_ext}
use scrutiny.Base.Sort.{sort_by}
use scrutiny.Base.Text.Order.{text_lt}
use scrutiny.Base.Sort.Laws.{IsOrdered, sort_by-perm, sort_by-IsOrdered}
use scrutiny.Base.Sort.Lex.{text_lt-WeakOrder}
use scrutiny.Base.Eq.{nat_eq, has, eq_iff, Distinct}
use scrutiny.Base.Int64.{Int64}
use scrutiny.Base.Assoc.{Assoc, keys, values, lookup, insert}
use scrutiny.Base.Assoc.Laws.{
  lookup-insert, insert-Distinct, map-values-lookup, is_some, is_some-lookup,
}
use scrutiny.Schema.Observed.{ChildProcess, PrivilegeChange}
use scrutiny.Procfs.Collect.{
  Snapshot, child_path_less, children_of, child_info, add_children, read_euid, changed_uid,
  privilege_change, Lineage, poll_process, poll_processes, no_lineage, collect_process,
}

abbrev or_else {ℓ} : {A : Type ℓ} → Option A → Option A → Option A
or_else none o = o
or_else (some a) o = some a

module _ (pid : Int64) where
  abbrev pub found : Int64 → Snapshot → Option ChildProcess
  found c p = if has c (children_of p pid) then some (child_info p c) else none

  -- A child as it was at the first poll that lists it.
  abbrev pub first_seen : Int64 → List Snapshot → Option ChildProcess
  first_seen c [] = none
  first_seen c (p ∷ l) = if has c (children_of p pid) then some (child_info p c) else first_seen c l

  -- The change at the first poll whose effective user is known and is not the initial one.
  abbrev pub first_change : Option Int64 → List Snapshot → List PrivilegeChange
  first_change initial [] = []
  first_change initial (p ∷ l) = elim (changed_uid initial (read_euid p pid)) [
    | none ↦ first_change initial l
    | some (from, to) ↦ privilege_change p from to ∷ []
  ]

  lookup-add_children :
      (c : Int64) (p : Snapshot) (l : List Int64) (m : Assoc Int64 ChildProcess)
      → lookup c (add_children p l m)
        ≡ or_else (lookup c m) (if has c l then some (child_info p c) else none)
  unfolding add_children has
  lookup-add_children c p [] m = ground arith
  lookup-add_children c p (d ∷ l) m = elim (Option-cases (lookup d m)) [
    | inl e ↦ ground (
      arith,
      e,
      eq_iff c d,
      eq_iff d c,
      lookup-insert d c (child_info p d) m,
      lookup-add_children c p l (insert d (child_info p d) m),
    )
    | inr (old, e) ↦ ground (arith, e, eq_iff c d, lookup-add_children c p l m)
  ]

  poll_process-children :
      (initial : Option Int64) (p : Snapshot) (s : Lineage)
      → (poll_process pid initial p s).children ≡ add_children p (children_of p pid) s.children
  unfolding poll_process
  poll_process-children initial p s = ground arith

  lookup-poll_processes :
      (initial : Option Int64) (c : Int64) (l : List Snapshot) (s : Lineage)
      → lookup c (poll_processes pid initial l s).children
        ≡ or_else (lookup c s.children) (first_seen c l)
  unfolding poll_processes
  lookup-poll_processes initial c [] s = ground arith
  lookup-poll_processes initial c (p ∷ l) s =
      lookup-poll_processes initial c l (poll_process pid initial p s)
      ∙ ap (λ m. or_else (lookup c m) (first_seen c l)) (poll_process-children initial p s)
      ∙ ground (arith, lookup-add_children c p (children_of p pid) s.children)

  changes-flagged :
      (initial : Option Int64) (l : List Snapshot) (s : Lineage)
      → s.uid_flagged ≡ true
      → (poll_processes pid initial l s).changes ≡ s.changes
  unfolding poll_processes poll_process
  changes-flagged initial [] s h = refl
  changes-flagged initial (p ∷ l) s h =
      ground (arith, h, changes-flagged initial l (poll_process pid initial p s))

  changes-first :
      (initial : Option Int64) (l : List Snapshot) (s : Lineage)
      → s.uid_flagged ≡ false
      → (poll_processes pid initial l s).changes ≡ s.changes ++ first_change initial l
  unfolding poll_processes poll_process
  changes-first initial [] s h = sym (append-nil s.changes)
  changes-first initial (p ∷ l) s h =
      let next = poll_process pid initial p s in
      elim (Option-cases (changed_uid initial (read_euid p pid))) [
        | inl e ↦ ground (arith, e, h, changes-first initial l next)
        | inr ((from, to), e) ↦ ground (arith, e, h, changes-flagged initial l next)
      ]

  add_children-Distinct :
      (p : Snapshot) (l : List Int64) (m : Assoc Int64 ChildProcess)
      → Distinct (keys m)
      → Distinct (keys (add_children p l m))
  unfolding add_children
  add_children-Distinct p [] m h = h
  add_children-Distinct p (d ∷ l) m h = elim (Option-cases (lookup d m)) [
    | inl e ↦ ground (
      arith,
      e,
      add_children-Distinct p l (insert d (child_info p d) m),
      insert-Distinct d (child_info p d) m h,
    )
    | inr (old, e) ↦ ground (arith, e, add_children-Distinct p l m h)
  ]

  poll_processes-Distinct :
      (initial : Option Int64) (l : List Snapshot) (s : Lineage)
      → Distinct (keys s.children)
      → Distinct (keys (poll_processes pid initial l s).children)
  unfolding poll_processes
  poll_processes-Distinct initial [] s h = h
  poll_processes-Distinct initial (p ∷ l) s h =
      poll_processes-Distinct initial l (poll_process pid initial p s) (
        subst (λ m. Distinct (keys m)) (sym (poll_process-children initial p s))
          (add_children-Distinct p (children_of p pid) s.children h))

  -- Does some poll list the child?
  abbrev pub listed : Int64 → List Snapshot → Bool
  listed c [] = false
  listed c (p ∷ l) = has c (children_of p pid) || listed c l

  is_some-first_seen : (c : Int64) (l : List Snapshot) → is_some (first_seen c l) ≡ listed c l
  is_some-first_seen c [] = refl
  is_some-first_seen c (p ∷ l) = ground (arith, is_some-first_seen c l)

  -- The children are those that some poll lists, each once and as it was at the first such poll, in
  -- the order of their paths.
  abbrev pub IsFirstSeen : List Snapshot → List ChildProcess → Type 0
  IsFirstSeen polls children =
      (ids : List Int64) × Distinct ids
      × ((c : Int64) → has c ids ≡ listed c polls)
      × Perm (map some children) (map (λ c. first_seen c polls) ids)
      × IsOrdered (λ a b. text_lt a.path b.path) children

-- CollectProcess reports the children that some poll lists, each once and as it was at the first poll
-- that lists it, in the order of their paths, and one change of the effective user, at the first poll
-- where it is not the initial one, or none.
pub collect_process-first :
    (pid : Int64) (first : Snapshot) (polls : List Snapshot)
    → IsFirstSeen pid polls (collect_process pid first polls).children_spawned
      × ((collect_process pid first polls).privilege_changes
          ≡ first_change pid (read_euid first pid) polls)
unfolding collect_process lookup
collect_process-first pid first polls =
    let initial = read_euid first pid in
    let m = (poll_processes pid initial polls no_lineage).children in
    let distinct = poll_processes-Distinct pid initial polls no_lineage tt in
    let seen = λ (c : Int64). lookup-poll_processes pid initial c polls no_lineage in
    (
      (
        keys m,
        distinct,
        λ c. sym (is_some-lookup c m) ∙ ap is_some (seen c) ∙ is_some-first_seen pid c polls,
        subst (Perm (map some (sort_by child_path_less (values m))))
            (map-values-lookup m distinct ∙ ap (λ f. map f (keys m)) (fun_ext seen))
            (Perm.map some (sort_by-perm child_path_less (values m))),
        sort_by-IsOrdered _ (text_lt-WeakOrder (λ x. x.path)) (values m),
      ),
      changes-first pid initial polls no_lineage refl,
    )
