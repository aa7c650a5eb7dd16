-- ===== src/Baseline/Build/Coverage.antt =====
-- internal/baseline/merge.go: about the keys of the merged maps.
use scrutiny.Base.{
  ◌+◌, ◌≡◌, inl, inr, Bool, true, false, ◌||◌, Option, none, some, List, [], ◌∷◌, map, arith,
  Option-cases, All, All-map,
}
use scrutiny.Base.Eq.{Eq, nat_eq, eq_refl, has}
use scrutiny.Base.Text.{Text, text_eq}
use scrutiny.Base.Assoc.{keys}
use scrutiny.Schema.Observed.{
  FilesystemObservation, RegistryObservation, ProcessObservation, MemoryObservation,
}
use scrutiny.Schema.Baseline.{confidence_eq}
use scrutiny.Analysis.Keys.{port_key, conn_key, raw_key}
use scrutiny.Baseline.Accumulator.{
  Accumulator, add_run, add_syscalls, add_network, add_files, add_process, add_memory, add_registry,
}
use scrutiny.Baseline.Accumulator.{Run, add_runs}
use scrutiny.Baseline.Maps.Laws.{
  Keyed, keep_first-Keyed, has-keep_first, has-merge_calls, has-add_names,
}

-- The keys of the network maps are those of their values.
pub record IsKeyed (a : Accumulator) : Type 0 where
  pub ports : Keyed port_key a.ports
  pub conns : Keyed conn_key a.conns
  pub raw : Keyed raw_key a.raw

-- The maps that AddRun leaves to the syscall and network parts.
pub record SameMaps (a b : Accumulator) : Type 0 where
  pub syscalls : a.syscalls ≡ b.syscalls
  pub ports : a.ports ≡ b.ports
  pub conns : a.conns ≡ b.conns
  pub raw : a.raw ≡ b.raw
  pub promisc : a.promisc ≡ b.promisc

later_parts :
    (p : Option ProcessObservation) (m : Option MemoryObservation) (g : Option RegistryObservation)
    (f : Option FilesystemObservation) (a : Accumulator)
    → SameMaps (add_registry g (add_memory m (add_process p (add_files f a)))) a
unfolding add_registry add_memory add_process add_files
later_parts p m g f a = ground arith

-- The keys that a run brings.
abbrev pub run_calls : Run → List Text
run_calls r = elim r.syscalls [ none ↦ [] | some s ↦ keys s.observed ]

abbrev pub run_ports : Run → List Text
run_ports r = elim r.network [ none ↦ [] | some n ↦ map port_key n.listening_ports ]

abbrev pub run_conns : Run → List Text
run_conns r = elim r.network [ none ↦ [] | some n ↦ map conn_key n.outbound_connections ]

abbrev pub run_raw : Run → List Text
run_raw r = elim r.network [ none ↦ [] | some n ↦ map raw_key n.raw_sockets ]

abbrev pub run_promisc : Run → List Text
run_promisc r = elim r.network [ none ↦ [] | some n ↦ n.promiscuous_interfaces ]

-- Does some run bring the element?
abbrev pub seen {ℓ} : {K : Type ℓ} ⦃d : Eq K⦄ → (Run → List K) → K → List Run → Bool
seen f k [] = false
seen f k (r ∷ l) = has k (f r) || seen f k l

module _ (r : Run) (a : Accumulator) where
  -- AddRun up to the network part.
  abbrev pub early : Accumulator
  early = add_network r.network (add_syscalls r.syscalls (record a { runs = a.runs + 1 }))

  pub run_parts : SameMaps (add_run r a) early
  unfolding add_run
  run_parts = later_parts r.process r.memory r.registry r.files early

  calls-add_run :
      (k : Text)
      → has k (keys (add_run r a).syscalls) ≡ (has k (keys a.syscalls) || has k (run_calls r))
  unfolding add_network add_syscalls has
  calls-add_run k = rw run_parts.syscalls (elim (Option-cases r.syscalls) [
    | inl e ↦ ground (arith, e)
    | inr (s, e) ↦ ground (arith, e, has-merge_calls k s.observed a.syscalls)
  ])

  ports-add_run :
      (k : Text) → has k (keys (add_run r a).ports) ≡ (has k (keys a.ports) || has k (run_ports r))
  unfolding add_network add_syscalls has
  ports-add_run k = rw run_parts.ports (elim (Option-cases r.network) [
    | inl e ↦ ground (arith, e)
    | inr (n, e) ↦ ground (arith, e, has-keep_first port_key k n.listening_ports a.ports)
  ])

  conns-add_run :
      (k : Text) → has k (keys (add_run r a).conns) ≡ (has k (keys a.conns) || has k (run_conns r))
  unfolding add_network add_syscalls has
  conns-add_run k = rw run_parts.conns (elim (Option-cases r.network) [
    | inl e ↦ ground (arith, e)
    | inr (n, e) ↦ ground (arith, e, has-keep_first conn_key k n.outbound_connections a.conns)
  ])

  raw-add_run :
      (k : Text) → has k (keys (add_run r a).raw) ≡ (has k (keys a.raw) || has k (run_raw r))
  unfolding add_network add_syscalls has
  raw-add_run k = rw run_parts.raw (elim (Option-cases r.network) [
    | inl e ↦ ground (arith, e)
    | inr (n, e) ↦ ground (arith, e, has-keep_first raw_key k n.raw_sockets a.raw)
  ])

  promisc-add_run :
      (k : Text) → has k (add_run r a).promisc ≡ (has k a.promisc || has k (run_promisc r))
  unfolding add_network add_syscalls has
  promisc-add_run k = rw run_parts.promisc (elim (Option-cases r.network) [
    | inl e ↦ ground (arith, e)
    | inr (n, e) ↦ ground (arith, e, has-add_names k n.promiscuous_interfaces a.promisc)
  ])

  add_run-IsKeyed : IsKeyed a → IsKeyed (add_run r a)
  unfolding add_network add_syscalls
  add_run-IsKeyed h = elim (Option-cases r.network) [
    | inl e ↦ record {
      ports = rw run_parts.ports (ground (arith, e, h.ports));
      conns = rw run_parts.conns (ground (arith, e, h.conns));
      raw = rw run_parts.raw (ground (arith, e, h.raw));
    }
    | inr (n, e) ↦ record {
      ports =
          rw run_parts.ports
            (ground (arith, e, keep_first-Keyed port_key n.listening_ports a.ports h.ports));
      conns =
          rw run_parts.conns
            (ground (arith, e, keep_first-Keyed conn_key n.outbound_connections a.conns h.conns));
      raw =
          rw run_parts.raw (ground (arith, e, keep_first-Keyed raw_key n.raw_sockets a.raw h.raw));
    }
  ]

pub add_runs-IsKeyed : (l : List Run) (a : Accumulator) → IsKeyed a → IsKeyed (add_runs l a)
unfolding add_runs
add_runs-IsKeyed [] a h = h
add_runs-IsKeyed (r ∷ l) a h = add_runs-IsKeyed l (add_run r a) (add_run-IsKeyed r a h)

-- The keys of the five maps after the runs: those before, and those that some run brings.
pub record EarlyUnion (l : List Run) (a : Accumulator) (k : Text) : Type 0 where
  pub calls : has k (keys (add_runs l a).syscalls) ≡ (has k (keys a.syscalls) || seen run_calls k l)
  pub ports : has k (keys (add_runs l a).ports) ≡ (has k (keys a.ports) || seen run_ports k l)
  pub conns : has k (keys (add_runs l a).conns) ≡ (has k (keys a.conns) || seen run_conns k l)
  pub raw : has k (keys (add_runs l a).raw) ≡ (has k (keys a.raw) || seen run_raw k l)
  pub promisc : has k (add_runs l a).promisc ≡ (has k a.promisc || seen run_promisc k l)

-- In the maps of the syscall and network parts a key is exactly when it was there or some run has it.
pub add_runs-EarlyUnion : (l : List Run) (a : Accumulator) (k : Text) → EarlyUnion l a k
unfolding add_runs
add_runs-EarlyUnion [] a k = record {
  calls = ground arith;
  ports = ground arith;
  conns = ground arith;
  raw = ground arith;
  promisc = ground arith;
}
add_runs-EarlyUnion (r ∷ l) a k =
    let u = add_runs-EarlyUnion l (add_run r a) k in
    record {
      calls = ground (arith, u.calls, calls-add_run r a k);
      ports = ground (arith, u.ports, ports-add_run r a k);
      conns = ground (arith, u.conns, conns-add_run r a k);
      raw = ground (arith, u.raw, raw-add_run r a k);
      promisc = ground (arith, u.promisc, promisc-add_run r a k);
    }

pub seen_each :
    (f : Run → List Text) (l : List Run)
    → All (λ r. (k : Text) → has k (f r) ≡ true → seen f k l ≡ true) l
seen_each f [] = tt
seen_each f (r ∷ l) = (
  λ k h. ground arith,
  All-map (λ q. (k : Text) → has k (f q) ≡ true → seen f k l ≡ true)
      (λ q. (k : Text) → has k (f q) ≡ true → seen f k (r ∷ l) ≡ true) l
      (λ q p k h. ground (arith, p k h)) (seen_each f l),
)

pub known-All {ℓ} :
    {A : Type ℓ} (key : A → Text) (known : Text → Bool) (l : List A)
    → ((k : Text) → has k (map key l) ≡ true → known k ≡ true)
    → All (λ x. known (key x) ≡ true) l
unfolding has
known-All key known [] h = tt
known-All key known (x ∷ l) h =
    (h (key x) (ground (arith, eq_refl (key x))), known-All key known l (λ k p. h k (ground arith)))
