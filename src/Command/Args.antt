-- ===== src/Command/Args.antt =====
-- cmd/scrutiny/main.go: parseArgs.
pub mod Scan
pub mod Printed
use scrutiny.Base.{
  ◌-◌, ◌%◌, Bool, true, false, not, ◌&&◌, ◌||◌, Option, none, some, List, [], ◌∷◌, if◌then◌else◌,
  ltb, leb,
}
use scrutiny.Base.Eq.{◌==◌, nat_eq}
use scrutiny.Base.Int64.{Int64, word, sign_bit}
use scrutiny.Base.Text.{Text, codes, text_eq}
use scrutiny.Base.Text.Parts.{is_space, is_digit, take_while, drop_while}
use scrutiny.Base.Numeral.{digits_from}

pub record Config : Type 0 where
  pub command : Text
  pub pid : Int64
  pub runs : Int64
  pub duration : Int64
  pub baseline_out : Text
  pub baseline_in : Text
  pub obs_out : Text
  pub obs_in : Text
  pub verbose : Bool
  pub json_output : Bool
  pub backend : Text

-- The digits at the start, with a sign; none where there is no digit, or beyond 64 bits.
unfoldable pub scan_digits : Bool → Text → Option Int64
unfolding take_while is_digit digits_from
scan_digits negative s =
    let d = take_while is_digit s in
    let n = digits_from 0 d in
    if d == []
    then none
    else if negative
    then if leb n sign_bit then some ((word - n) % word) else none
    else if ltb n sign_bit
    then some n
    else none

unfoldable pub scan_signed : Text → Option Int64
unfolding scan_digits
scan_signed [] = none
scan_signed (c ∷ s) =
    if c == b'-'
    then scan_digits true s
    else if c == b'+'
    then scan_digits false s
    else scan_digits false (c ∷ s)

-- `fmt.Sscanf(s, "%d", &n)`: white space but a line's end is skipped, what follows the digits is
-- ignored, and on an error the variable keeps its value.
unfoldable pub scan_int : Text → Int64 → Int64
unfolding scan_signed drop_while is_space
scan_int s old = elim (scan_signed (drop_while (λ c. is_space c && not (c == b'\n')) s)) [
  | none ↦ old
  | some n ↦ n
]

-- An option with a value, and an option without.
unfoldable pub set_option : Text → Text → Config → Option Config
unfolding scan_int
set_option name value cfg =
    if name == codes "--pid"
    then some (record cfg { pid = scan_int value cfg.pid })
    else if name == codes "--runs"
    then some (record cfg { runs = scan_int value cfg.runs })
    else if name == codes "--duration"
    then some (record cfg { duration = scan_int value cfg.duration })
    else if name == codes "--out"
    then some (record cfg { baseline_out = value })
    else if name == codes "--baseline"
    then some (record cfg { baseline_in = value })
    else if name == codes "--observation"
    then some (record cfg { obs_in = value })
    else if name == codes "--backend"
    then some (record cfg { backend = value })
    else none

unfoldable pub set_flag : Text → Config → Config
set_flag name cfg =
    if name == codes "--verbose" || name == codes "-v"
    then record cfg { verbose = true }
    else if name == codes "--json"
    then record cfg { json_output = true }
    else cfg

-- The loop over the arguments. An option with a value that stands last changes nothing.
unfoldable pub parse_options : List Text → Config → Config
unfolding set_option set_flag
parse_options [] cfg = cfg
parse_options (name ∷ []) cfg = set_flag name cfg
parse_options (name ∷ value ∷ l) cfg =
    let alone = parse_options (value ∷ l) (set_flag name cfg) in
    elim (set_option name value cfg) [ none ↦ alone | some next ↦ parse_options l next ]

abbrev pub default_config : Text → Config
default_config command = record {
  command = command;
  pid = 0;
  runs = 3;
  duration = 120;
  baseline_out = [];
  baseline_in = [];
  obs_out = [];
  obs_in = [];
  verbose = false;
  json_output = false;
  backend = [];
}

-- None where the usage is printed and the program exits.
unfoldable pub parse_args : List Text → Option Config
unfolding parse_options
parse_args [] = none
parse_args (command ∷ args) = some (parse_options args (default_config command))
