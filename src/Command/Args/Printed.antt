-- ===== src/Command/Args/Printed.antt =====
-- cmd/scrutiny/main.go: about parseArgs on the arguments that spell out a configuration.
use scrutiny.Base.{
  ◌<◌, sym, ◌≡◌, refl, ap, ◌∙◌, Bool, true, false, none, some, List, [], ◌∷◌, ◌++◌, if◌then◌else◌,
}
use scrutiny.Base.Int64.{Int64, word}
use scrutiny.Base.Eq.{list_beq, nat_eq}
use scrutiny.Base.Text.{Text, codes, text_eq}
use scrutiny.Base.Decimal.{decimal}
use scrutiny.Command.Args.Scan.{scan_int-decimal}
use scrutiny.Command.Args.{Config, set_option, set_flag, parse_options, default_config, parse_args}

abbrev pub flags : Bool → Bool → List Text
flags verbose json =
    (if verbose then codes "--verbose" ∷ [] else []) ++ (if json then codes "--json" ∷ [] else [])

-- The arguments after the numbers.
abbrev pub texts : Config → List Text
texts cfg =
    codes "--out"
    ∷ cfg.baseline_out
    ∷ codes "--baseline"
    ∷ cfg.baseline_in
    ∷ codes "--observation"
    ∷ cfg.obs_in
    ∷ codes "--backend"
    ∷ cfg.backend
    ∷ flags cfg.verbose cfg.json_output

-- The arguments that spell out a configuration.
abbrev pub spelled : Config → List Text
spelled cfg =
    cfg.command
    ∷ codes "--pid"
    ∷ decimal cfg.pid
    ∷ codes "--runs"
    ∷ decimal cfg.runs
    ∷ codes "--duration"
    ∷ decimal cfg.duration
    ∷ texts cfg

parse_options-with :
    (name value : Text) (l : List Text) (cfg next : Config)
    → set_option name value cfg ≡ some next
    → parse_options (name ∷ value ∷ l) cfg ≡ parse_options l next
unfolding parse_options
parse_options-with name value l cfg next e =
    ap
      (λ o. elim o as (λ x. Config) [
        | none ↦ parse_options (value ∷ l) (set_flag name cfg)
        | some n ↦ parse_options l n
      ])
      e

parse_options-pid :
    (n : Int64) (l : List Text) (c : Config)
    → n < word
    → parse_options (codes "--pid" ∷ decimal n ∷ l) c ≡ parse_options l (record c { pid = n })
unfolding set_option codes list_beq
parse_options-pid n l c h =
    parse_options-with (codes "--pid") (decimal n) l c (record c { pid = n })
      (ap (λ k. some (record c { pid = k })) (scan_int-decimal n c.pid h))

parse_options-runs :
    (n : Int64) (l : List Text) (c : Config)
    → n < word
    → parse_options (codes "--runs" ∷ decimal n ∷ l) c ≡ parse_options l (record c { runs = n })
unfolding set_option codes list_beq
parse_options-runs n l c h =
    parse_options-with (codes "--runs") (decimal n) l c (record c { runs = n })
      (ap (λ k. some (record c { runs = k })) (scan_int-decimal n c.runs h))

parse_options-duration :
    (n : Int64) (l : List Text) (c : Config)
    → n < word
    → parse_options (codes "--duration" ∷ decimal n ∷ l) c
      ≡ parse_options l (record c { duration = n })
unfolding set_option codes list_beq
parse_options-duration n l c h =
    parse_options-with (codes "--duration") (decimal n) l c (record c { duration = n })
      (ap (λ k. some (record c { duration = k })) (scan_int-decimal n c.duration h))

parse_options-flags :
    (v j : Bool) (c : Config)
    → parse_options (flags v j) (record c { verbose = false; json_output = false })
      ≡ record c { verbose = v; json_output = j }
unfolding parse_options set_option set_flag codes list_beq
parse_options-flags true true c = refl
parse_options-flags true false c = refl
parse_options-flags false true c = refl
parse_options-flags false false c = refl

parse_options-texts :
    (cfg start : Config)
    → parse_options (texts cfg) (record start { verbose = false; json_output = false })
      ≡ record start {
        baseline_out = cfg.baseline_out;
        baseline_in = cfg.baseline_in;
        obs_in = cfg.obs_in;
        backend = cfg.backend;
        verbose = cfg.verbose;
        json_output = cfg.json_output;
      }
unfolding set_option codes list_beq
parse_options-texts cfg start =
    parse_options-with (codes "--out") cfg.baseline_out _ _ _ refl
    ∙ parse_options-with (codes "--baseline") cfg.baseline_in _ _ _ refl
    ∙ parse_options-with (codes "--observation") cfg.obs_in _ _ _ refl
    ∙ parse_options-with (codes "--backend") cfg.backend _ _ _ refl
    ∙ parse_options-flags cfg.verbose cfg.json_output (record start {
      baseline_out = cfg.baseline_out;
      baseline_in = cfg.baseline_in;
      obs_in = cfg.obs_in;
      backend = cfg.backend;
    })

-- A configuration whose numbers are 64-bit words and whose output of observations is empty, which no
-- option sets, is read back from the arguments that spell it out.
pub parse_args-spelled :
    (cfg : Config)
    → cfg.pid < word
    → cfg.runs < word
    → cfg.duration < word
    → cfg.obs_out ≡ []
    → parse_args (spelled cfg) ≡ some cfg
unfolding parse_args
parse_args-spelled cfg pid runs duration obs =
    let a = default_config cfg.command in
    let b = record a { pid = cfg.pid } in
    let c = record b { runs = cfg.runs } in
    let d = record c { duration = cfg.duration } in
    let more = codes "--duration" ∷ decimal cfg.duration ∷ texts cfg in
    ap some (
      parse_options-pid cfg.pid (codes "--runs" ∷ decimal cfg.runs ∷ more) a pid
      ∙ parse_options-runs cfg.runs more b runs
      ∙ parse_options-duration cfg.duration (texts cfg) c duration
      ∙ parse_options-texts cfg d
      ∙ ap (λ o. record cfg { obs_out = o }) (sym obs))
