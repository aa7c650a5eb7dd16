-- ===== src/Tests/Command.antt =====
-- The command line on concrete input.
use scrutiny.Base.{◌-◌, true, ℕ, ◌+◌, ◌≤◌, ◌≡◌, refl, none, some, [], ◌∷◌, All, ltb, arith}
use scrutiny.Base.Text.{codes, text_eq}
use scrutiny.Base.Eq.{list_beq}
use scrutiny.Schema.Baseline.{Baseline}
use scrutiny.Baseline.Accumulator.{empty, add_runs}
use scrutiny.Baseline.Build.{build}
use scrutiny.Baseline.Build.Replay.{replay_calls, replay_network}
use scrutiny.Base.Int64.{word}
use scrutiny.Command.Args.Printed.{spelled, parse_args-spelled}
use scrutiny.Command.Args.{Config, default_config, parse_args}
use scrutiny.Command.Session.{Window, baseline_loop, run_count, run_baseline, run_observe}
use scrutiny.Command.Session.Runs.{
  numbers, captures, run_records, StopsAfter, merged, run_baseline-runs,
}
use scrutiny.Tests.Samples.{fresh_baseline, platform, target, tracing, listening}

abbrev asked : Config
asked = record (default_config (codes "baseline")) { pid = 7; runs = 4; baseline_out = codes "b" }

options :
    parse_args (
      codes "baseline"
      ∷ codes "--pid"
      ∷ codes " 7x"
      ∷ codes "--runs"
      ∷ codes "4"
      ∷ codes "--out"
      ∷ codes "b"
      ∷ codes "--duration"
      ∷ codes "long"
      ∷ codes "--backend"
      ∷ [])
    ≡ some asked
unfolding parse_args codes list_beq
options = refl

no_command : parse_args [] ≡ none
unfolding parse_args
no_command = refl

-- The process exits after the second run.
abbrev window : ℕ → Window
window i = record {
  alive = ltb i 3;
  started_at = 10 + i;
  ended_at = 20 + i;
  captured = record {
    syscalls = some tracing;
    network = some listening;
    files = none;
    process = none;
    memory = none;
    registry = none;
  };
}

two_of_four :
    (baseline_loop 7 window (run_count 4) 1 (empty, [])).1 ≡ run_records 7 window (1 ∷ 2 ∷ [])
unfolding baseline_loop run_count
two_of_four = refl

without_baseline :
    run_observe asked fresh_baseline (codes "s") (codes "o") 0 platform target (window 1).captured
    ≡ none
unfolding run_observe codes list_beq
without_baseline = refl

run_baseline-runs_example :
    (b : Baseline) × (n : ℕ) × (run_baseline asked (codes "s") 0 platform target window ≡ some b)
    × (1 ≤ n)
    × StopsAfter window (run_count asked.runs) 1 n
    × (b.scrutiny.quality.runs ≡ run_records asked.pid window (numbers 1 n))
    × (b.scrutiny.quality.run_count ≡ n)
    × (merged b ≡ build (add_runs (captures window (numbers 1 n)) empty))
    × All
        (λ r.
          (replay_calls (merged b) fresh_baseline.anomaly_cfg r ≡ [])
          × (replay_network (merged b) fresh_baseline.anomaly_cfg r ≡ []))
        (captures window (numbers 1 n))
run_baseline-runs_example =
    run_baseline-runs asked (codes "s") 0 platform target window fresh_baseline.anomaly_cfg
      (omega arith)

abbrev everything : Config
everything = record asked {
  runs = word - 2;
  obs_in = codes "--json";
  verbose = true;
  backend = codes "strace";
}

parse_args-spelled_example : parse_args (spelled everything) ≡ some everything
parse_args-spelled_example =
    parse_args-spelled everything (omega arith) (omega arith) (omega arith) refl
