-- ===== src/Baseline/Build/Records.antt =====
-- internal/baseline/merge.go: about the merged record of a syscall.
use scrutiny.Base.{
  ◌≡◌, refl, sym, ◌∙◌, inl, inr, none, some, List, [], ◌∷◌, ◌++◌, arith, All, Option-cases,
}
use mathlib.Core.List.{append_assoc, append-nil}
use mathlib.Core.Path.{subst}
use scrutiny.Base.Text.{Text, text_eq}
use scrutiny.Base.Assoc.{Assoc, lookup}
use scrutiny.Schema.Observed.{SyscallRecord}
use scrutiny.Baseline.Maps.{merge_calls}
use scrutiny.Baseline.Maps.Combined.{IsSound}
use scrutiny.Baseline.Maps.Combined.Calls.{records_of, ComesTo, lookup-merge_calls}
use scrutiny.Baseline.Accumulator.{
  Run, Accumulator, empty, add_syscalls, add_network, add_run, add_runs,
}
use scrutiny.Baseline.Build.{build}
use scrutiny.Baseline.Build.Coverage.{run_parts}

-- The syscalls of a run.
abbrev pub calls_of : Run → Assoc Text SyscallRecord
calls_of r = elim r.syscalls [ none ↦ [] | some s ↦ s.observed ]

-- The records of a name, in the order of the runs.
abbrev pub all_records : Text → List Run → List SyscallRecord
all_records name [] = []
all_records name (r ∷ l) = records_of name (calls_of r) ++ all_records name l

calls_of-add_run :
    (r : Run) (a : Accumulator) → (add_run r a).syscalls ≡ merge_calls (calls_of r) a.syscalls
unfolding add_network add_syscalls merge_calls
calls_of-add_run r a =
    (run_parts r a).syscalls
    ∙ elim (Option-cases r.syscalls) [ inl e ↦ ground (arith, e) | inr (s, e) ↦ ground (arith, e) ]

All-split : {A : Type 0} (P : A → Type 0) (s t : List A) → All P (s ++ t) → All P s × All P t
All-split P [] t h = (tt, h)
All-split P (x ∷ s) t (p, h) = let (u, v) = All-split P s t h in ((p, u), v)

lookup-add_runs :
    (name : Text) (before : List SyscallRecord) (l : List Run) (a : Accumulator)
    → All IsSound (all_records name l)
    → ComesTo before (lookup name a.syscalls)
    → ComesTo (before ++ all_records name l) (lookup name (add_runs l a).syscalls)
unfolding add_runs
lookup-add_runs name before [] a sound h =
    subst (λ k. ComesTo k (lookup name a.syscalls)) (sym (append-nil before)) h
lookup-add_runs name before (r ∷ l) a sound h =
    let mine = records_of name (calls_of r) in
    let (r_sound, l_sound) = All-split IsSound mine (all_records name l) sound in
    let kept =
      subst (λ m. ComesTo (before ++ mine) (lookup name m)) (sym (calls_of-add_run r a))
        (lookup-merge_calls name before (calls_of r) a.syscalls r_sound h) in
    subst (λ k. ComesTo k (lookup name (add_runs l (add_run r a)).syscalls))
      (append_assoc before mine (all_records name l))
      (lookup-add_runs name (before ++ mine) l (add_run r a) l_sound kept)

-- The baseline has a record of a syscall exactly when some run observed it. Its counters and its total
-- latency are the sums over these records modulo 2^64, its offsets the first and the last, its maximum
-- latency the largest, in the signed order, and its samples the first three, for records whose
-- counters are 64-bit words and that have at most three samples.
pub build-records :
    (name : Text) (l : List Run)
    → All IsSound (all_records name l)
    → ComesTo (all_records name l) (lookup name (build (add_runs l empty)).syscalls.observed)
unfolding build lookup
build-records name l sound = lookup-add_runs name [] l empty sound refl
