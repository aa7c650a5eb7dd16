-- ===== src/Network/Collect/Union.antt =====
-- internal/sensor/network/collector_linux.go: about the sockets that Collect reports.
use scrutiny.Base.{
  ◌≡◌, refl, ap, ◌∙◌, sym, Bool, false, ◌||◌, Option, none, some, List, [], ◌∷◌, map, arith,
  Option-cases, inl, inr,
}
use mathlib.Core.Path.{subst}
use scrutiny.Base.Eq.{nat_eq, has, Distinct}
use scrutiny.Schema.Observed.{ListeningPort, OutboundConnection, RawSocket}
use scrutiny.Base.Int64.{Int64}
use scrutiny.Base.Text.{Text, text_eq}
use scrutiny.Base.Text.Order.{text_lt}
use scrutiny.Base.Assoc.{Assoc, keys, values}
use scrutiny.Base.Sort.{sort_by}
use scrutiny.Base.Sort.Laws.{has-sort_by, sort_by-Distinct, has-sort}
use scrutiny.Baseline.Maps.{keep_first, add_names}
use scrutiny.Baseline.Maps.Laws.{
  Keyed, keep_first-Keyed, has-values, has-keep_first, has-add_names, keep_first-Distinct,
  map-values,
}
use scrutiny.Procfs.Collect.{Snapshot}
use scrutiny.Network.System.{socket_inodes, promiscuous_interfaces_now}
use scrutiny.Network.Collect.{
  listen_key, out_key, seen_raw_key, NetState, no_sockets, net_tables, ports_in, connections_in,
  raw_in, poll_network, poll_networks, listen_less, out_less, raw_less, finalize, collect_network,
}

abbrev pub some_poll : (Snapshot → Bool) → List Snapshot → Bool
some_poll test [] = false
some_poll test (p ∷ l) = test p || some_poll test l

-- A map of the state grows, poll after poll, by what each poll finds, the first with a key staying.
module _ {A : Type 0} (name : Int64 → Option Text) (pid : Int64) (key : A → Text)
    (part : NetState → Assoc Text A) (found : Snapshot → List A)
    (grows : (p : Snapshot) (s : NetState)
      → part (poll_network name pid p s) ≡ keep_first key (found p) (part s)) where
  polls-Keyed :
      (l : List Snapshot) (s : NetState)
      → Keyed key (part s)
      → Keyed key (part (poll_networks name pid l s))
  unfolding poll_networks
  polls-Keyed [] s h = h
  polls-Keyed (p ∷ l) s h =
      polls-Keyed l (poll_network name pid p s)
        (rw (grows p s) (keep_first-Keyed key (found p) (part s) h))

  polls-Distinct :
      (l : List Snapshot) (s : NetState)
      → Distinct (keys (part s))
      → Distinct (keys (part (poll_networks name pid l s)))
  unfolding poll_networks
  polls-Distinct [] s h = h
  polls-Distinct (p ∷ l) s h =
      polls-Distinct l (poll_network name pid p s)
        (rw (grows p s) (keep_first-Distinct key (found p) (part s) h))

  has-polls :
      (k : Text) (l : List Snapshot) (s : NetState)
      → has k (keys (part (poll_networks name pid l s)))
        ≡ (has k (keys (part s)) || some_poll (λ p. has k (map key (found p))) l)
  unfolding poll_networks
  has-polls k [] s = ground arith
  has-polls k (p ∷ l) s =
      has-polls k l (poll_network name pid p s)
      ∙ ground
          (arith, ap (λ m. has k (keys m)) (grows p s), has-keep_first key k (found p) (part s))

  -- The sorted values of the map name each socket once, and exactly those that some poll finds.
  polls-union :
      (less : A → A → Bool) (k : Text) (l : List Snapshot)
      → part no_sockets ≡ []
      → let sockets = sort_by less (values (part (poll_networks name pid l no_sockets))) in
        (has k (map key sockets) ≡ some_poll (λ p. has k (map key (found p))) l)
        × Distinct (map key sockets)
  unfolding has
  polls-union less k l empty =
      let m = part (poll_networks name pid l no_sockets) in
      let keyed = polls-Keyed l no_sockets (subst (Keyed key) (sym empty) tt) in
      let distinct = polls-Distinct l no_sockets (subst (λ q. Distinct (keys q)) (sym empty) tt) in
      (
        has-sort_by less key k (values m)
            ∙ has-values key k m keyed
            ∙ has-polls k l no_sockets
            ∙ ground (arith, ap (λ q. has k (keys q)) empty),
        sort_by-Distinct less key (values m)
            (subst Distinct (sym (map-values key m keyed)) distinct),
      )

module _ (name : Int64 → Option Text) (pid : Int64) where
  -- What a poll finds of the target's sockets; nothing where its descriptors are not read.
  abbrev own_found {ℓ} : {A : Type ℓ} → (List Text → List A) → Snapshot → List A
  own_found f p = elim (socket_inodes p pid) [ none ↦ [] | some own ↦ f own ]

  abbrev pub own_ports : Snapshot → List ListeningPort
  own_ports p = own_found (λ own. ports_in p pid own net_tables) p

  abbrev pub own_connections : Snapshot → List OutboundConnection
  own_connections p = own_found (λ own. connections_in p pid own net_tables) p

  abbrev pub own_raw : Snapshot → List RawSocket
  own_raw p = own_found (λ own. raw_in name p pid own) p

  abbrev pub promiscuous : Snapshot → List Text
  promiscuous p = own_found (λ own. promiscuous_interfaces_now p) p

  -- One poll, map by map.
  record Grown (p : Snapshot) (s : NetState) (t : NetState) : Type 0 where
    listen : t.listen_seen ≡ keep_first listen_key (own_ports p) s.listen_seen
    out : t.out_seen ≡ keep_first out_key (own_connections p) s.out_seen
    raw : t.raw_seen ≡ keep_first seen_raw_key (own_raw p) s.raw_seen
    promisc : t.promisc_seen ≡ add_names (promiscuous p) s.promisc_seen

  poll_network-Grown : (p : Snapshot) (s : NetState) → Grown p s (poll_network name pid p s)
  unfolding poll_network keep_first add_names
  poll_network-Grown p s = elim (Option-cases (socket_inodes p pid)) [
    | inl e ↦ record {
      listen = ground (arith, e);
      out = ground (arith, e);
      raw = ground (arith, e);
      promisc = ground (arith, e);
    }
    | inr (own, e) ↦ record {
      listen = ground (arith, e);
      out = ground (arith, e);
      raw = ground (arith, e);
      promisc = ground (arith, e);
    }
  ]

  has-promisc :
      (k : Text) (l : List Snapshot) (s : NetState)
      → has k (poll_networks name pid l s).promisc_seen
        ≡ (has k s.promisc_seen || some_poll (λ p. has k (promiscuous p)) l)
  unfolding poll_networks
  has-promisc k [] s = ground arith
  has-promisc k (p ∷ l) s =
      has-promisc k l (poll_network name pid p s)
      ∙ ground (
        arith,
        ap (has k) (poll_network-Grown p s).promisc,
        has-add_names k (promiscuous p) s.promisc_seen,
      )

-- Over all polls Collect reports each listening port, connection and raw socket of the target once,
-- and exactly those that some poll finds in the tables under an inode of the target; and exactly the
-- interfaces that are promiscuous at some such poll.
pub collect_network-union :
    (name : Int64 → Option Text) (pid : Int64) (k : Text) (polls : List Snapshot)
    → let r = collect_network name pid polls in
      (has k (map listen_key r.listening_ports)
        ≡ some_poll (λ p. has k (map listen_key (own_ports name pid p))) polls)
      × Distinct (map listen_key r.listening_ports)
      × (has k (map out_key r.outbound_connections)
          ≡ some_poll (λ p. has k (map out_key (own_connections name pid p))) polls)
      × Distinct (map out_key r.outbound_connections)
      × (has k (map seen_raw_key r.raw_sockets)
          ≡ some_poll (λ p. has k (map seen_raw_key (own_raw name pid p))) polls)
      × Distinct (map seen_raw_key r.raw_sockets)
      × (has k r.promiscuous_interfaces ≡ some_poll (λ p. has k (promiscuous name pid p)) polls)
unfolding collect_network finalize has
collect_network-union name pid k polls =
    let grown = poll_network-Grown name pid in
    let (ports, ports_once) =
      polls-union name pid listen_key (λ s. s.listen_seen) (own_ports name pid)
        (λ p s. (grown p s).listen) listen_less k polls refl in
    let (outs, outs_once) =
      polls-union name pid out_key (λ s. s.out_seen) (own_connections name pid)
        (λ p s. (grown p s).out) out_less k polls refl in
    let (raws, raws_once) =
      polls-union name pid seen_raw_key (λ s. s.raw_seen) (own_raw name pid)
        (λ p s. (grown p s).raw) raw_less k polls refl in
    let names = (poll_networks name pid polls no_sockets).promisc_seen in
    (
      ports,
      ports_once,
      outs,
      outs_once,
      raws,
      raws_once,
      has-sort text_lt k names ∙ has-promisc name pid k polls no_sockets ∙ ground arith,
    )
