-- ===== src/Ebpf/Record/Exact.antt =====
-- internal/sensor/ebpf/tracer.go: about the records that a capture leaves.
use scrutiny.Base.{
  ◌+◌, ◌%◌, ◌<◌, ◌≤◌, ◌≡◌, refl, sym, ap, ◌∙◌, Option, none, some, List, [], ◌∷◌, ◌++◌, length,
  take, append_below-length, take-append_below, take-few, map, arith, get_or, Bool-cases, inl, inr,
}
use scrutiny.Base.Eq.{◌==◌, nat_eq, eq_iff}
use scrutiny.Base.Int64.{Int64, word}
use scrutiny.Base.Text.{Text, text_eq}
use scrutiny.Base.Assoc.{lookup, insert}
use scrutiny.Base.Assoc.Laws.{lookup-insert}
use scrutiny.Schema.Observed.{SyscallRecord, SyscallsObservation}
use scrutiny.Ebpf.Table.{syscall_name}
use scrutiny.Ebpf.Record.{
  SyscallEvent, max_samples, format_args, sample, new_record, enter_event, exit_event, count_event,
  event_offset_ms, anchor, record_syscall_event, record_all,
}
use scrutiny.Ebpf.Record.Summary.{
  Stamped, stamp, keep, named, enters, exits, failed, last_offset, total_latency, max_latency,
  summary_from, summary,
}

-- The events of one name, counted one after the other.
count_all : List Stamped → SyscallRecord → SyscallRecord
unfolding count_event
count_all [] r = r
count_all ((off, evt) ∷ l) r = count_all l (count_event off evt r)

count_all-count :
    (l : List Stamped) (r : SyscallRecord)
    → r.count < word
    → (count_all l r).count ≡ (r.count + length (keep enters l)) % word
unfolding count_all count_event enter_event exit_event
count_all-count [] r h = omega arith
count_all-count ((off, evt) ∷ l) r h = ground (arith, count_all-count l (count_event off evt r))

count_all-exit_count :
    (l : List Stamped) (r : SyscallRecord)
    → r.exit_count < word
    → (count_all l r).exit_count ≡ (r.exit_count + length (keep exits l)) % word
unfolding count_all count_event enter_event exit_event
count_all-exit_count [] r h = omega arith
count_all-exit_count ((off, evt) ∷ l) r h =
    ground (arith, count_all-exit_count l (count_event off evt r))

count_all-error_count :
    (l : List Stamped) (r : SyscallRecord)
    → r.error_count < word
    → (count_all l r).error_count ≡ (r.error_count + length (keep failed l)) % word
unfolding count_all count_event enter_event exit_event
count_all-error_count [] r h = omega arith
count_all-error_count ((off, evt) ∷ l) r h =
    ground (arith, count_all-error_count l (count_event off evt r))

count_all-total :
    (l : List Stamped) (r : SyscallRecord)
    → r.total_latency_ns < word
    → (count_all l r).total_latency_ns ≡ (r.total_latency_ns + total_latency (keep exits l)) % word
unfolding count_all count_event enter_event exit_event
count_all-total [] r h = omega arith
count_all-total ((off, evt) ∷ l) r h = ground (arith, count_all-total l (count_event off evt r))

count_all-max :
    (l : List Stamped) (r : SyscallRecord)
    → (count_all l r).max_latency_ns ≡ max_latency r.max_latency_ns (keep exits l)
unfolding count_all count_event enter_event exit_event
count_all-max [] r = refl
count_all-max ((off, evt) ∷ l) r = elim (Bool-cases (evt.is_exit == 0)) [
  | inl e ↦ ground (arith, e, count_all-max l (count_event off evt r))
  | inr e ↦ ground (arith, e, count_all-max l (count_event off evt r))
]

count_all-first :
    (l : List Stamped) (r : SyscallRecord)
    → (count_all l r).first_seen_offset_ms ≡ r.first_seen_offset_ms
unfolding count_all count_event enter_event exit_event
count_all-first [] r = refl
count_all-first ((off, evt) ∷ l) r = ground (arith, count_all-first l (count_event off evt r))

count_all-last :
    (l : List Stamped) (r : SyscallRecord)
    → (count_all l r).last_seen_offset_ms ≡ last_offset r.last_seen_offset_ms l
unfolding count_all count_event enter_event exit_event
count_all-last [] r = refl
count_all-last ((off, evt) ∷ l) r = ground (arith, count_all-last l (count_event off evt r))

abbrev arguments : Stamped → Text
arguments (off, evt) = format_args evt.args

abbrev returned : Stamped → Int64
returned (off, evt) = evt.ret

count_all-args :
    (l : List Stamped) (r : SyscallRecord)
    → length r.args_sample ≤ max_samples
    → (count_all l r).args_sample
      ≡ take max_samples (r.args_sample ++ map arguments (keep enters l))
unfolding count_all count_event enter_event exit_event sample
count_all-args [] r h = sym (take-few max_samples r.args_sample h)
count_all-args ((off, evt) ∷ l) r h =
    let x = format_args evt.args in
    let short = append_below-length max_samples x r.args_sample h in
    let next = take-append_below max_samples x r.args_sample (map arguments (keep enters l)) in
    let rest = count_all-args l (count_event off evt r) in
    elim (Bool-cases (evt.is_exit == 0)) [ inl e ↦ ground arith | inr e ↦ ground arith ]

count_all-ret :
    (l : List Stamped) (r : SyscallRecord)
    → length r.ret_sample ≤ max_samples
    → (count_all l r).ret_sample ≡ take max_samples (r.ret_sample ++ map returned (keep exits l))
unfolding count_all count_event enter_event exit_event sample
count_all-ret [] r h = sym (take-few max_samples r.ret_sample h)
count_all-ret ((off, evt) ∷ l) r h =
    let short = append_below-length max_samples evt.ret r.ret_sample h in
    let next = take-append_below max_samples evt.ret r.ret_sample (map returned (keep exits l)) in
    let rest = count_all-ret l (count_event off evt r) in
    elim (Bool-cases (evt.is_exit == 0)) [ inl e ↦ ground arith | inr e ↦ ground arith ]

-- All the fields, from the record of a name that is not in the map.
count_all-summary :
    (off : Int64) (evt : SyscallEvent) (l : List Stamped)
    → count_all ((off, evt) ∷ l) (new_record off) ≡ summary_from off ((off, evt) ∷ l)
unfolding new_record
count_all-summary off evt l =
    let es : List Stamped = (off, evt) ∷ l in
    let r = new_record off in
    let s = summary_from off es in
    let all = count_all es r in
    let calls : all.count ≡ s.count = omega (arith, count_all-count es r) in
    let exit : all.exit_count ≡ s.exit_count = omega (arith, count_all-exit_count es r) in
    let error : all.error_count ≡ s.error_count = omega (arith, count_all-error_count es r) in
    let total : all.total_latency_ns ≡ s.total_latency_ns = omega (arith, count_all-total es r) in
    λ i. record {
      count = calls i;
      first_seen_offset_ms = count_all-first es r i;
      last_seen_offset_ms = count_all-last es r i;
      args_sample = count_all-args es r (omega arith) i;
      exit_count = exit i;
      error_count = error i;
      ret_sample = count_all-ret es r (omega arith) i;
      max_latency_ns = count_all-max es r i;
      total_latency_ns = total i;
    }

-- What the map has at a name, after the events of that name.
after : Option SyscallRecord → List Stamped → Option SyscallRecord
unfolding count_event new_record
after o [] = o
after o ((off, evt) ∷ l) = after (some (count_event off evt (get_or (new_record off) o))) l

after-some : (r : SyscallRecord) (l : List Stamped) → after (some r) l ≡ some (count_all l r)
unfolding after count_all
after-some r [] = refl
after-some r ((off, evt) ∷ l) = after-some (count_event off evt r) l

after-none : (l : List Stamped) → after none l ≡ summary l
unfolding after count_all
after-none [] = refl
after-none ((off, evt) ∷ l) =
    after-some (count_event off evt (new_record off)) l ∙ ap some (count_all-summary off evt l)

lookup-record_all :
    (name : Text) (l : List SyscallEvent) (obs : SyscallsObservation) (first : Int64)
    → lookup name (record_all l (obs, first)).0.observed
      ≡ after (lookup name obs.observed) (keep (named name) (stamp first l))
unfolding record_all record_syscall_event after
lookup-record_all name [] obs first = refl
lookup-record_all name (evt ∷ l) obs first =
    let n = syscall_name evt.syscall_nr in
    let off = event_offset_ms first evt in
    let r = count_event off evt (get_or (new_record off) (lookup n obs.observed)) in
    let m = insert n r obs.observed in
    let rest = lookup-record_all name l (record obs { observed = m }) (anchor first evt) in
    let read = lookup-insert n name r obs.observed in
    elim (Bool-cases (n == name)) [ inl e ↦ ground (arith, eq_iff n name) | inr e ↦ ground arith ]

-- After any syscall events, from an empty observation, a name has a record exactly when some event
-- has this name. The record counts the enter events, the exit events and the failed exits of the
-- name modulo 2 ^ 64, holds the offsets of the first and the last event of the name, the arguments
-- and return values of the first three, and the sum and the maximum of the latencies.
pub record_all-summary :
    (name : Text) (l : List SyscallEvent) (obs : SyscallsObservation)
    → obs.observed ≡ []
    → lookup name (record_all l (obs, 0)).0.observed ≡ summary (keep (named name) (stamp 0 l))
unfolding lookup
record_all-summary name l obs h =
    let es = keep (named name) (stamp 0 l) in
    lookup-record_all name l obs 0 ∙ ap (λ m. after (lookup name m) es) h ∙ after-none es
