-- ===== src/Command/Session/Runs.antt =====
-- cmd/scrutiny/main.go: about the runs of a baseline.
use scrutiny.Base.{
  ℕ, zero, suc, ◌+◌, ◌≤◌, ◌≡◌, ◌≢◌, refl, sym, ap, ◌∙◌, Bool, true, false, not, ◌&&◌, some, List,
  [], ◌∷◌, ◌++◌, map, ◌⊎◌, inl, inr, All, length, ltb, Bool-cases, arith, if◌then◌else◌,
}
use mathlib.Core.Path.{subst}
use mathlib.Core.List.{append_assoc, append-nil}
use scrutiny.Base.Eq.{nat_eq, eq_iff}
use scrutiny.Base.Int64.{Int64}
use scrutiny.Base.Text.{Text, text_eq}
use scrutiny.Schema.Platform.{PlatformContext, TargetProcess}
use scrutiny.Schema.Baseline.{Time, RunRecord, Baseline, new_baseline}
use scrutiny.Schema.Anomaly.{AnomalyConfig}
use scrutiny.Baseline.Accumulator.{Run, Accumulator, empty, add_run, add_runs}
use scrutiny.Baseline.Build.{Result, build}
use scrutiny.Baseline.Build.Counts.{counters-add_runs}
use scrutiny.Baseline.Build.Replay.{replay_calls, replay_network, replay-quiet}
use scrutiny.Command.Args.{Config}
use scrutiny.Command.Session.{
  Window, run_record, baseline_loop, run_count, baseline_record, run_baseline,
}

-- The numbers of `n` runs from `i` on.
abbrev pub numbers : ℕ → ℕ → List ℕ
numbers i zero = []
numbers i (suc n) = i ∷ numbers (i + 1) n

-- The process is gone before a run that is not the first.
abbrev pub exited : (ℕ → Window) → ℕ → Bool
exited window i = ltb 1 i && not (window i).alive

abbrev pub captures : (ℕ → Window) → List ℕ → List Run
captures window l = map (λ i. (window i).captured) l

abbrev pub run_records : Int64 → (ℕ → Window) → List ℕ → List RunRecord
run_records pid window l = map (λ i. run_record pid i (window i)) l

-- From `run` on the loop makes `n` of the runs that are left.
abbrev pub StopsAfter : (ℕ → Window) → ℕ → ℕ → ℕ → Type 0
StopsAfter window left run n =
    (n ≤ left)
    × All (λ i. exited window i ≡ false) (numbers run n)
    × ((n ≡ left) ⊎ (exited window (run + n) ≡ true))

abbrev with_records : Accumulator → List RunRecord → Accumulator × List RunRecord
with_records acc l = (acc, l)

baseline_loop-runs :
    (pid : Int64) (window : ℕ → Window) (left run : ℕ) (acc : Accumulator)
    (records : List RunRecord)
    → (n : ℕ) × (baseline_loop pid window left run (acc, records) ≡ (
      add_runs (captures window (numbers run n)) acc,
      records ++ run_records pid window (numbers run n),
    ))
      × StopsAfter window left run n
unfolding baseline_loop add_runs
baseline_loop-runs pid window zero run acc records =
    (0, ap (with_records acc) (sym (append-nil records)), (omega arith, tt, inl refl))
baseline_loop-runs pid window (suc left) run acc records =
    let w = window run in
    let next : Accumulator × List RunRecord =
      (add_run w.captured acc, records ++ run_record pid run w ∷ []) in
    let (n, made, (few, alive, end)) = baseline_loop-runs pid window left (run + 1) next.0 next.1 in
    let choose : Bool → Accumulator × List RunRecord =
      λ b. if b then (acc, records) else baseline_loop pid window left (run + 1) next in
    elim (Bool-cases (exited window run)) [
      | inl gone ↦ (
        0,
        ap choose gone ∙ ap (with_records acc) (sym (append-nil records)),
        (omega arith, tt, inr (ap (exited window) (omega arith) ∙ gone)),
      )
      | inr on ↦ (
        suc n,
        ap choose on
            ∙ made
            ∙ ap (with_records (add_runs (captures window (numbers run (suc n))) acc))
                (append_assoc records _ _),
        (
          omega (arith, few),
          (on, alive),
          elim end [
            | inl all ↦ inl (ap suc all)
            | inr gone ↦ inr (ap (exited window) (omega arith) ∙ gone)
          ],
        ),
      )
    ]

-- What a baseline holds of the merged runs.
abbrev pub merged : Baseline → Result
merged b = record {
  syscalls = b.syscalls;
  network = b.network;
  filesystem = b.filesystem;
  process = b.process;
  memory = b.memory;
  registry = b.registry;
  notes = b.scrutiny.quality.variance_notes;
}

length-numbers : (window : ℕ → Window) (i n : ℕ) → length (captures window (numbers i n)) ≡ n
length-numbers window i zero = refl
length-numbers window i (suc n) = ap suc (length-numbers window (i + 1) n)

run_count-positive : (runs : Int64) → 1 ≤ run_count runs
unfolding run_count
run_count-positive zero = omega arith
run_count-positive (suc n) = ground arith

first_run : (window : ℕ → Window) (left n : ℕ) → 1 ≤ left → StopsAfter window left 1 n → 1 ≤ n
first_run window left (suc n) some_left h = omega arith
first_run window left zero some_left (_, _, inl none_left) = omega (arith, none_left)
first_run window left zero some_left (_, _, inr gone) = ground (arith, gone)

-- A baseline of a process is made of n runs, at least one and at most the number that is asked for
-- (one if this is not positive): it stops early only before a run, not the first, at which the process
-- has exited. It records these runs in order with their number, holds what Build makes of their
-- merged captures, and no capture that is replayed against it raises a finding in the comparison of
-- syscalls and network, under any configuration.
pub run_baseline-runs :
    (cfg : Config) (id : Text) (now : Time) (platform : PlatformContext) (target : TargetProcess)
    (window : ℕ → Window) (a : AnomalyConfig)
    → cfg.pid ≢ 0
    → (b : Baseline) × (n : ℕ) × (run_baseline cfg id now platform target window ≡ some b)
      × (1 ≤ n)
      × StopsAfter window (run_count cfg.runs) 1 n
      × (b.scrutiny.quality.runs ≡ run_records cfg.pid window (numbers 1 n))
      × (b.scrutiny.quality.run_count ≡ n)
      × (merged b ≡ build (add_runs (captures window (numbers 1 n)) empty))
      × All
          (λ r. (replay_calls (merged b) a r ≡ []) × (replay_network (merged b) a r ≡ []))
          (captures window (numbers 1 n))
unfolding run_baseline baseline_record
run_baseline-runs cfg id now platform target window a present =
    let (n, made, stop) = baseline_loop-runs cfg.pid window (run_count cfg.runs) 1 empty [] in
    let l = captures window (numbers 1 n) in
    let fresh = new_baseline id now platform target in
    let acc = (baseline_loop cfg.pid window (run_count cfg.runs) 1 (empty, [])).0 in
    let acc_is : acc ≡ add_runs l empty = ap (λ p. p.0) made in
    let (_, _, _, runs) = counters-add_runs [] l empty in
    let quiet =
      λ (b : Result). All (λ r. (replay_calls b a r ≡ []) × (replay_network b a r ≡ [])) l in
    (
      baseline_record cfg fresh (baseline_loop cfg.pid window (run_count cfg.runs) 1 (empty, [])),
      n,
      ground (arith, eq_iff cfg.pid 0, present),
      first_run window _ n (run_count-positive cfg.runs) stop,
      stop,
      ap (λ p. p.1) made,
      ap (λ x. x.runs) acc_is ∙ omega (arith, runs, length-numbers window 1 n),
      ap build acc_is,
      subst quiet (ap build (sym acc_is)) (replay-quiet l a),
    )
