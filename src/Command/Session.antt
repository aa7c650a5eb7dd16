-- ===== src/Command/Session.antt =====
-- cmd/scrutiny/main.go: runBaseline and runObserve, without their output. What is captured, the clock
-- and whether the process still runs are parameters.
pub mod Runs
use scrutiny.Base.{
  ℕ, zero, suc, ◌+◌, Bool, true, false, not, ◌&&◌, ◌||◌, Option, none, some, List, [], ◌∷◌, ◌++◌,
  if◌then◌else◌, ltb, get_or,
}
use scrutiny.Base.Eq.{◌==◌, nat_eq}
use scrutiny.Base.Int64.{Int64, slt}
use scrutiny.Base.Text.{Text, text_eq}
use scrutiny.Schema.Platform.{PlatformContext, TargetProcess, context_eq}
use scrutiny.Schema.Baseline.{
  Time, RunRecord, BaselineQuality, ScrutinyMeta, Baseline, Observation, new_baseline,
  new_observation,
}
use scrutiny.Baseline.Accumulator.{Run, Accumulator, empty, add_run}
use scrutiny.Baseline.Build.{build}
use scrutiny.Baseline.Notes.{confidence}
use scrutiny.Command.Args.{Config}

-- One window of a baseline: is the process alive before it, when it starts and ends, and what the
-- sensors capture.
pub record Window : Type 0 where
  pub alive : Bool
  pub started_at : Time
  pub ended_at : Time
  pub captured : Run

unfoldable pub run_record : Int64 → ℕ → Window → RunRecord
run_record pid run w = record {
  run_id = run;
  pid = pid;
  started_at = w.started_at;
  ended_at = w.ended_at;
  exit_code = 0;
  anomalies_vs_prior = [];
}

-- The loop: `left` runs from `run` on, the accumulator, and the records of the runs.
unfoldable pub baseline_loop :
    Int64 → (ℕ → Window) → ℕ → ℕ → Accumulator × List RunRecord → Accumulator × List RunRecord
unfolding add_run run_record
baseline_loop pid window zero run s = s
baseline_loop pid window (suc left) run (acc, records) =
    let w = window run in
    let next =
      baseline_loop pid window left (run + 1)
        (add_run w.captured acc, records ++ run_record pid run w ∷ []) in
    if ltb 1 run && not w.alive then (acc, records) else next

-- `if runs < 1 { runs = 1 }`
unfoldable pub run_count : Int64 → ℕ
run_count runs = if slt runs 1 then 1 else runs

-- What is filled in after the loop.
unfoldable pub baseline_record : Config → Baseline → Accumulator × List RunRecord → Baseline
unfolding build confidence
baseline_record cfg fresh (acc, records) =
    let res = build acc in
    let varies : Bool = elim res.notes [ [] ↦ false | note ∷ notes ↦ true ] in
    record fresh {
      syscalls = res.syscalls;
      network = res.network;
      filesystem = res.filesystem;
      process = res.process;
      memory = res.memory;
      registry = res.registry;
      scrutiny = record fresh.scrutiny {
        quality = record {
          duration_seconds = cfg.duration;
          runs = records;
          run_count = acc.runs;
          confidence = confidence acc.runs varies;
          variance_notes = res.notes;
        };
      };
    }

-- None where the program ends with an error.
unfoldable pub run_baseline :
    Config → Text → Time → PlatformContext → TargetProcess → (ℕ → Window) → Option Baseline
unfolding baseline_loop run_count new_baseline baseline_record
run_baseline cfg id now platform target window =
    let fresh = new_baseline id now platform target in
    let s = baseline_loop cfg.pid window (run_count cfg.runs) 1 (empty, []) in
    if cfg.pid == 0 then none else some (baseline_record cfg fresh s)

-- The observation of a capture against a baseline.
unfoldable pub run_observe :
    Config
    → Baseline
    → Text
    → Text
    → Time
    → PlatformContext
    → TargetProcess
    → Run
    → Option Observation
unfolding new_observation
run_observe cfg baseline id observation_id now platform target c =
    let fresh =
      new_observation id observation_id now baseline.scrutiny.baseline_id platform target in
    let base = fresh.base in
    let quality = record base.scrutiny.quality { duration_seconds = cfg.duration } in
    if cfg.pid == 0 || cfg.baseline_in == []
    then none
    else some (record fresh {
      base = record base {
        scrutiny = record base.scrutiny { quality = quality };
        syscalls = get_or base.syscalls c.syscalls;
        filesystem = get_or base.filesystem c.files;
        network = get_or base.network c.network;
        process = get_or base.process c.process;
        memory = get_or base.memory c.memory;
        registry = get_or base.registry c.registry;
      };
      context_match = baseline.scrutiny.platform.detected_platform == platform.detected_platform;
    })
