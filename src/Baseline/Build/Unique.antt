-- ===== src/Baseline/Build/Unique.antt =====
-- internal/baseline/merge.go: about the order in which Build visits maps.
use scrutiny.Base.{◌≡◌, inl, inr, List, [], ◌∷◌, arith, Option-cases}
use scrutiny.Base.Eq.{nat_eq, Distinct}
use scrutiny.Base.Text.{text_eq}
use scrutiny.Base.Assoc.{keys, values}
use scrutiny.Schema.Observed.{ListeningPort, OutboundConnection, RawSocket}
use scrutiny.Analysis.Keys.{port_key, conn_key, raw_key}
use scrutiny.Baseline.Accumulator.{Accumulator, empty, add_run, add_syscalls, add_network}
use scrutiny.Baseline.Build.{build}
use scrutiny.Baseline.Accumulator.{Run, add_runs}
use scrutiny.Baseline.Build.{by_key}
use mathlib.Core.List.{Perm}
use scrutiny.Base.Sort.Unique.{sort_by_unique}
use scrutiny.Baseline.Maps.Laws.{keep_first-Distinct, map-values}
use scrutiny.Baseline.Build.Coverage.{add_runs-IsKeyed, run_parts}

-- No key stands twice in the network maps.
record IsUnique (a : Accumulator) : Type 0 where
  ports : Distinct (keys a.ports)
  conns : Distinct (keys a.conns)
  raw : Distinct (keys a.raw)

add_run-IsUnique : (r : Run) (a : Accumulator) → IsUnique a → IsUnique (add_run r a)
unfolding add_network add_syscalls
add_run-IsUnique r a h =
    let parts = run_parts r a in
    elim (Option-cases r.network) [
      | inl e ↦ record {
        ports = rw parts.ports (ground (arith, e, h.ports));
        conns = rw parts.conns (ground (arith, e, h.conns));
        raw = rw parts.raw (ground (arith, e, h.raw));
      }
      | inr (n, e) ↦ record {
        ports =
            rw parts.ports
              (ground (arith, e, keep_first-Distinct port_key n.listening_ports a.ports h.ports));
        conns = rw parts.conns (
            ground (arith, e, keep_first-Distinct conn_key n.outbound_connections a.conns h.conns));
        raw =
            rw parts.raw (ground (arith, e, keep_first-Distinct raw_key n.raw_sockets a.raw h.raw));
      }
    ]

add_runs-IsUnique : (l : List Run) (a : Accumulator) → IsUnique a → IsUnique (add_runs l a)
unfolding add_runs
add_runs-IsUnique [] a h = h
add_runs-IsUnique (r ∷ l) a h = add_runs-IsUnique l (add_run r a) (add_run-IsUnique r a h)

-- Visit the ports, connections and raw sockets of the merged maps in any order: sorted by their
-- keys they are the lists that Build returns.
pub build_order :
    (l : List Run) (ports : List ListeningPort) (conns : List OutboundConnection)
    (raw : List RawSocket)
    → Perm (values (add_runs l empty).ports) ports
    → Perm (values (add_runs l empty).conns) conns
    → Perm (values (add_runs l empty).raw) raw
    → ((build (add_runs l empty)).network.listening_ports ≡ by_key port_key ports)
      × ((build (add_runs l empty)).network.outbound_connections ≡ by_key conn_key conns)
      × ((build (add_runs l empty)).network.raw_sockets ≡ by_key raw_key raw)
unfolding build
build_order l ports conns raw p c r =
    let keyed = add_runs-IsKeyed l empty (record { ports = tt; conns = tt; raw = tt }) in
    let once = add_runs-IsUnique l empty (record { ports = tt; conns = tt; raw = tt }) in
    (
      sort_by_unique port_key (hlevel) p (rw (map-values port_key _ keyed.ports) once.ports),
      sort_by_unique conn_key (hlevel) c (rw (map-values conn_key _ keyed.conns) once.conns),
      sort_by_unique raw_key (hlevel) r (rw (map-values raw_key _ keyed.raw) once.raw),
    )
