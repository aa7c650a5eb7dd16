-- ===== src/Strace/Record/Exact.antt =====
-- internal/sensor/strace/parse.go: about the records that the lines of a capture leave.
use scrutiny.Base.{
  ℕ, ◌+◌, ◌%◌, ◌<◌, ◌≤◌, ◌≡◌, refl, sym, ap, ◌∙◌, Option, none, some, List, [], ◌∷◌, ◌++◌,
  if◌then◌else◌, length, take, append_below-length, take-append_below, take-few, arith, Bool-cases,
  inl, inr,
}
use scrutiny.Base.Eq.{◌==◌, nat_eq}
use scrutiny.Base.Int64.{Int64, word, smax}
use scrutiny.Base.Text.{Text, text_eq}
use scrutiny.Base.Assoc.{Assoc, lookup}
use scrutiny.Base.Assoc.Group.{group, with_key, update_all, value_after, lookup-group}
use scrutiny.Base.Report.{report_each}
use scrutiny.Schema.Observed.{SyscallRecord}
use scrutiny.Strace.Parse.{StraceEvent, parse_line}
use scrutiny.Strace.Record.{
  first_ts, line_offset_ms, empty_record, count_line, record_lines, collect_strace,
}

-- An event with its offset.
abbrev pub Stamped : Type 0
Stamped = Int64 × StraceEvent

abbrev pub stamp : Int64 → List StraceEvent → List Stamped
stamp first [] = []
stamp first (e ∷ l) = (line_offset_ms first e, e) ∷ stamp (first_ts first e) l

abbrev pub name_of : Stamped → Text
name_of (offset, e) = e.name

abbrev fresh : Stamped → SyscallRecord
fresh (offset, e) = empty_record offset

abbrev update : Stamped → SyscallRecord → SyscallRecord
update (offset, e) r = count_line offset e r

abbrev pub failures : List Stamped → ℕ
failures [] = 0
failures ((offset, e) ∷ l) = (if e.is_error then 1 else 0) + failures l

-- The argument texts that are not empty.
abbrev pub arguments : List Stamped → List Text
arguments [] = []
arguments ((offset, e) ∷ l) = if e.args == [] then arguments l else e.args ∷ arguments l

abbrev pub total_latency : List Stamped → ℕ
total_latency [] = 0
total_latency ((offset, e) ∷ l) = e.latency_ns + total_latency l

abbrev pub max_latency : Int64 → List Stamped → Int64
max_latency m [] = m
max_latency m ((offset, e) ∷ l) = max_latency (smax m e.latency_ns) l

abbrev pub last_offset : Int64 → List Stamped → Int64
last_offset offset [] = offset
last_offset offset ((o, e) ∷ l) = last_offset o l

-- The record of the events of one name, of which the first is at the offset.
abbrev pub summary : List Stamped → Option SyscallRecord
summary [] = none
summary ((offset, e) ∷ l) =
    let all : List Stamped = (offset, e) ∷ l in
    some (record {
      count = length all % word;
      first_seen_offset_ms = offset;
      last_seen_offset_ms = last_offset offset all;
      args_sample = take 3 (arguments all);
      exit_count = length all % word;
      error_count = failures all % word;
      ret_sample = [];
      max_latency_ns = max_latency 0 all;
      total_latency_ns = total_latency all % word;
    })

abbrev all_of : List Stamped → SyscallRecord → SyscallRecord
all_of = update_all name_of fresh update

all_of-counts :
    (l : List Stamped) (r : SyscallRecord)
    → r.count < word
    → r.exit_count < word
    → r.error_count < word
    → r.total_latency_ns < word
    → ((all_of l r).count ≡ (r.count + length l) % word)
      × ((all_of l r).exit_count ≡ (r.exit_count + length l) % word)
      × ((all_of l r).error_count ≡ (r.error_count + failures l) % word)
      × ((all_of l r).total_latency_ns ≡ (r.total_latency_ns + total_latency l) % word)
unfolding count_line
all_of-counts [] r a b c d = (omega arith, omega arith, omega arith, omega arith)
all_of-counts ((o, e) ∷ l) r a b c d = ground (arith, all_of-counts l (count_line o e r))

all_of-seen :
    (l : List Stamped) (r : SyscallRecord)
    → ((all_of l r).first_seen_offset_ms ≡ r.first_seen_offset_ms)
      × ((all_of l r).last_seen_offset_ms ≡ last_offset r.last_seen_offset_ms l)
      × ((all_of l r).max_latency_ns ≡ max_latency r.max_latency_ns l)
      × ((all_of l r).ret_sample ≡ r.ret_sample)
unfolding count_line
all_of-seen [] r = (refl, refl, refl, refl)
all_of-seen ((o, e) ∷ l) r =
    let (first, last, max, ret) = all_of-seen l (count_line o e r) in (first, last, max, ret)

all_of-args :
    (l : List Stamped) (r : SyscallRecord)
    → length r.args_sample ≤ 3
    → (all_of l r).args_sample ≡ take 3 (r.args_sample ++ arguments l)
unfolding count_line
all_of-args [] r h = sym (take-few 3 r.args_sample h)
all_of-args ((o, e) ∷ l) r h =
    let short = append_below-length 3 e.args r.args_sample h in
    let next = take-append_below 3 e.args r.args_sample (arguments l) in
    let rest = all_of-args l (count_line o e r) in
    elim (Bool-cases (e.args == [])) [
      | inl empty ↦ ground (arith, empty, rest)
      | inr full ↦ ground (arith, full, rest, short, next)
    ]

value_after-summary : (l : List Stamped) → value_after name_of fresh update none l ≡ summary l
unfolding count_line empty_record
value_after-summary [] = refl
value_after-summary ((offset, e) ∷ l) =
    let all : List Stamped = (offset, e) ∷ l in
    let r = empty_record offset in
    let (count, exit, error, total) =
      all_of-counts all r (omega arith) (omega arith) (omega arith) (omega arith) in
    let (first, last, max, ret) = all_of-seen all r in
    let counted : (all_of all r).count ≡ length all % word = omega (arith, count) in
    let exits : (all_of all r).exit_count ≡ length all % word = omega (arith, exit) in
    let errors : (all_of all r).error_count ≡ failures all % word = omega (arith, error) in
    let latency : (all_of all r).total_latency_ns ≡ total_latency all % word =
      omega (arith, total) in
    let args = all_of-args all r (omega arith) in
    λ i. some (record {
      count = counted i;
      first_seen_offset_ms = first i;
      last_seen_offset_ms = last i;
      args_sample = args i;
      exit_count = exits i;
      error_count = errors i;
      ret_sample = ret i;
      max_latency_ns = max i;
      total_latency_ns = latency i;
    })

record_lines-group :
    (l : List StraceEvent) (m : Assoc Text SyscallRecord) (first : Int64)
    → (record_lines l (m, first)).0 ≡ group name_of fresh update (stamp first l) m
unfolding record_lines group
record_lines-group [] m first = refl
record_lines-group (e ∷ l) m first = record_lines-group l _ (first_ts first e)

-- After any lines of strace a name has a record exactly when some line is a completed call of this
-- name, and then the record counts these calls and their errors modulo 2 ^ 64, and holds the offsets
-- of the first and the last, the first three texts of arguments that are not empty, and the sum and
-- the maximum of the latencies.
pub collect_strace-summary :
    (name : Text) (lines : List Text)
    → lookup name (collect_strace lines).0.observed
      ≡ summary (with_key name_of name (stamp 0 (report_each parse_line lines)))
unfolding collect_strace lookup
collect_strace-summary name lines =
    let events = report_each parse_line lines in
    ap (lookup name) (record_lines-group events [] 0)
    ∙ lookup-group name_of fresh update name (stamp 0 events) []
    ∙ value_after-summary (with_key name_of name (stamp 0 events))
