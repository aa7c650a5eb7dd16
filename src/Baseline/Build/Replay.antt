-- ===== src/Baseline/Build/Replay.antt =====
-- internal/baseline/merge.go: about a run that is replayed against the baseline built from it.
use scrutiny.Base.{
  ◌≡◌, refl, ap, inl, inr, true, ◌||◌, none, some, List, [], ◌∷◌, map, arith, Option-cases, All,
  All-map,
}
use scrutiny.Base.Eq.{◌==◌, nat_eq, has}
use scrutiny.Base.Text.{Text, text_eq}
use scrutiny.Base.Assoc.{keys}
use scrutiny.Base.Sort.Laws.{has-sort_by}
use scrutiny.Schema.Baseline.{confidence_eq}
use scrutiny.Analysis.Keys.{port_key, conn_key, raw_key}
use scrutiny.Baseline.Accumulator.{Accumulator, empty}
use scrutiny.Baseline.Build.{Result, build}
use scrutiny.Schema.Anomaly.{AnomalyConfig, Anomaly}
use scrutiny.Baseline.Accumulator.{Run, add_runs}
use scrutiny.Baseline.Build.{text_itself}
use scrutiny.Baseline.Maps.Laws.{has-values}
use scrutiny.Analysis.Diff.Syscalls.{diff_syscalls}
use scrutiny.Analysis.Diff.Network.{diff_network}
use scrutiny.Analysis.Engine.Quiet.{diff_network-known, diff_syscalls-known}
use scrutiny.Baseline.Build.Coverage.{
  IsKeyed, add_runs-IsKeyed, add_runs-EarlyUnion, run_calls, run_ports, run_conns, run_raw,
  run_promisc, seen, seen_each, known-All,
}

-- What Analyze's syscall and network comparisons report when a run is replayed against a baseline.
abbrev pub replay_calls : Result → AnomalyConfig → Run → List Anomaly
replay_calls b cfg r = elim r.syscalls [ none ↦ [] | some s ↦ diff_syscalls b.syscalls s cfg ]

abbrev pub replay_network : Result → AnomalyConfig → Run → List Anomaly
replay_network b cfg r = elim r.network [ none ↦ [] | some n ↦ diff_network b.network n cfg ]

pub IsKeyed-empty : IsKeyed empty
IsKeyed-empty = record { ports = tt; conns = tt; raw = tt }

module _ (l : List Run) where
  abbrev after : Accumulator
  after = add_runs l empty

  built_ports :
      (k : Text)
      → seen run_ports k l ≡ true
      → has k (map port_key (build after).network.listening_ports) ≡ true
  unfolding build has
  built_ports k h =
      rw
        (
          has-sort_by,
          has-values port_key k after.ports (add_runs-IsKeyed l empty IsKeyed-empty).ports,
        )
        (ground (arith, (add_runs-EarlyUnion l empty k).ports))

  built_conns :
      (k : Text)
      → seen run_conns k l ≡ true
      → has k (map conn_key (build after).network.outbound_connections) ≡ true
  unfolding build has
  built_conns k h =
      rw
        (
          has-sort_by,
          has-values conn_key k after.conns (add_runs-IsKeyed l empty IsKeyed-empty).conns,
        )
        (ground (arith, (add_runs-EarlyUnion l empty k).conns))

  built_raw :
      (k : Text)
      → seen run_raw k l ≡ true
      → has k (map raw_key (build after).network.raw_sockets) ≡ true
  unfolding build has
  built_raw k h =
      rw (has-sort_by, has-values raw_key k after.raw (add_runs-IsKeyed l empty IsKeyed-empty).raw)
        (ground (arith, (add_runs-EarlyUnion l empty k).raw))

  has-map_itself : (k : Text) (s : List Text) → has k (map text_itself s) ≡ has k s
  unfolding has
  has-map_itself k [] = refl
  has-map_itself k (x ∷ s) = ap (λ b. k == x || b) (has-map_itself k s)

  built_promisc :
      (k : Text)
      → seen run_promisc k l ≡ true
      → has k (build after).network.promiscuous_interfaces ≡ true
  unfolding build has
  built_promisc k h =
      rw (← has-map_itself k _)
        (rw (has-sort_by, has-map_itself) (ground (arith, (add_runs-EarlyUnion l empty k).promisc)))

  built_calls :
      (k : Text) → seen run_calls k l ≡ true → has k (keys (build after).syscalls.observed) ≡ true
  unfolding build has
  built_calls k h = ground (arith, (add_runs-EarlyUnion l empty k).calls)

  quiet_calls :
      (cfg : AnomalyConfig) (r : Run)
      → ((k : Text) → has k (run_calls r) ≡ true → seen run_calls k l ≡ true)
      → replay_calls (build after) cfg r ≡ []
  quiet_calls cfg r h = elim (Option-cases r.syscalls) [
    | inl e ↦ rw e
    | inr (s, e) ↦ rw e (
        diff_syscalls-known (build after).syscalls s cfg (
          known-All text_itself (λ k. has k (keys (build after).syscalls.observed))
            (keys s.observed)
            (λ k p.
              built_calls k (h k (ground (arith, e, p, has-map_itself k (keys s.observed)))))))
  ]

  quiet_network :
      (cfg : AnomalyConfig) (r : Run)
      → ((k : Text) → has k (run_ports r) ≡ true → seen run_ports k l ≡ true)
      → ((k : Text) → has k (run_conns r) ≡ true → seen run_conns k l ≡ true)
      → ((k : Text) → has k (run_raw r) ≡ true → seen run_raw k l ≡ true)
      → ((k : Text) → has k (run_promisc r) ≡ true → seen run_promisc k l ≡ true)
      → replay_network (build after) cfg r ≡ []
  quiet_network cfg r hp hc hr hi = elim (Option-cases r.network) [
    | inl e ↦ rw e
    | inr (n, e) ↦
        let b = (build after).network in
        rw e (
          diff_network-known b n cfg (record {
            ports =
                known-All port_key (λ k. has k (map port_key b.listening_ports)) n.listening_ports
                  (λ k p. built_ports k (hp k (ground (arith, e, p))));
            conns =
                known-All conn_key (λ k. has k (map conn_key b.outbound_connections))
                  n.outbound_connections (λ k p. built_conns k (hc k (ground (arith, e, p))));
            raw =
                known-All raw_key (λ k. has k (map raw_key b.raw_sockets)) n.raw_sockets
                  (λ k p. built_raw k (hr k (ground (arith, e, p))));
            promiscuous =
                known-All text_itself (λ k. has k b.promiscuous_interfaces) n.promiscuous_interfaces
                  (λ k p.
                    built_promisc k
                      (hi k (ground (arith, e, p, has-map_itself k n.promiscuous_interfaces))));
          }))
  ]

All-and {ℓ κ ι} :
    {A : Type ℓ} (P : A → Type κ) (Q : A → Type ι) (l : List A)
    → All P l
    → All Q l
    → All (λ x. P x × Q x) l
All-and P Q [] h k = tt
All-and P Q (x ∷ l) (p, h) (q, k) = ((p, q), All-and P Q l h k)

-- Whatever runs are merged, and under any configuration, a run that is replayed against the
-- baseline built from them raises no finding in the syscall and in the network comparison.
pub replay-quiet :
    (runs : List Run) (cfg : AnomalyConfig)
    → All
        (λ r.
          (replay_calls (build (add_runs runs empty)) cfg r ≡ [])
          × (replay_network (build (add_runs runs empty)) cfg r ≡ []))
        runs
replay-quiet runs cfg =
    let s = λ (f : Run → List Text). seen_each f runs in
    All-map _ _ runs
      (λ r (c, (p, (o, (w, i)))). (quiet_calls runs cfg r c, quiet_network runs cfg r p o w i))
      (All-and _ _ runs (s run_calls) (
        All-and _ _ runs (s run_ports)
          (All-and _ _ runs (s run_conns) (All-and _ _ runs (s run_raw) (s run_promisc)))))
