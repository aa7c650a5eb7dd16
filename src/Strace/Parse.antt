-- ===== src/Strace/Parse.antt =====
-- internal/sensor/strace/parse.go: one line of strace. A regular expression is a chain of reads.
use scrutiny.Base.{
  ℕ, ◌*◌, ◌%◌, Bool, not, ◌&&◌, ◌||◌, Option, none, some, [], ◌∷◌, ◌++◌, if◌then◌else◌, take, leb,
}
use scrutiny.Base.Eq.{◌==◌, nat_eq}
use scrutiny.Base.Int64.{Int64, word, add64}
use scrutiny.Base.Text.{Text, codes, text_eq}
use scrutiny.Base.Text.Search.{has_prefix, has_suffix}
use scrutiny.Base.Text.Parts.{is_digit, take_while, drop_while, drop_like, trim_end, trim_space}
use scrutiny.Base.Text.Version.{find_first, is_word_byte}
use scrutiny.Base.Numeral.{atoi_digits}
use scrutiny.Base.Bytes.{◌>>=◌}

pub record StraceEvent : Type 0 where
  pub name : Text
  pub ts_micros : Int64
  pub latency_ns : Int64
  pub is_error : Bool
  pub args : Text

abbrev mul64 : Int64 → ℕ → Int64
mul64 a b = a * b % word

-- `(class+)`: the longest start in a class of bytes, at least one byte, and the rest.
unfoldable pub some_of : (ℕ → Bool) → Text → Option (Text × Text)
unfolding take_while drop_like
some_of test s = let w = take_while test s in if w == [] then none else some (w, drop_like w s)

unfoldable pub literal : Text → Text → Option Text
unfolding has_prefix drop_like
literal p s = if has_prefix s p then some (drop_like p s) else none

-- `\s`
regex_space : ℕ → Bool
unfolding is_word_byte
regex_space c = not (is_word_byte c)

-- `\w`
unfoldable pub is_word : ℕ → Bool
unfolding is_digit
is_word c = is_digit c || leb b'a' c && leb c b'z' || leb b'A' c && leb c b'Z' || c == b'_'

-- `(\d+)\.(\d+)`
unfoldable pub seconds : Text → Option (Text × Text × Text)
unfolding some_of literal is_digit
seconds s = do
  (sec, s) ← some_of is_digit s
  s ← literal (codes ".") s
  (frac, s) ← some_of is_digit s
  some (sec, frac, s)

-- `(\d+)\.(\d+)\s+(.*)` at the start
unfoldable pub prefix_ts : Text → Option (Text × Text × Text)
unfolding seconds some_of regex_space
prefix_ts s = do (sec, frac, s) ← seconds s; (gap, s) ← some_of regex_space s; some (sec, frac, s)

-- The same after `(\d+)\s+`
unfoldable pub prefix_pid_ts : Text → Option (Text × Text × Text)
unfolding prefix_ts some_of regex_space is_digit
prefix_pid_ts s = do (pid, s) ← some_of is_digit s; (gap, s) ← some_of regex_space s; prefix_ts s

-- Padded with zeros to six digits, and cut after six.
unfoldable pub frac_micros : Text → Int64
unfolding atoi_digits
frac_micros frac = atoi_digits (take 6 (frac ++ codes "000000"))

unfoldable pub micros : Text → Text → Int64
unfolding atoi_digits frac_micros
micros sec frac = add64 (mul64 (atoi_digits sec) 1000000) (frac_micros frac)

-- The timestamp and the body of a line.
unfoldable pub stamped_body : Text → Int64 × Text
unfolding prefix_pid_ts prefix_ts micros trim_space
stamped_body line = elim (prefix_pid_ts line) [
  | some (sec, frac, body) ↦ (micros sec frac, trim_space body)
  | none ↦ elim (prefix_ts line) [
    | some (sec, frac, body) ↦ (micros sec frac, trim_space body)
    | none ↦ (0, trim_space line)
  ]
]

-- `<\.\.\. (\w+) resumed>` at the start
unfoldable pub resumed_name : Text → Option Text
unfolding literal some_of is_word
resumed_name s = do
  s ← literal (codes "<... ") s
  (name, s) ← some_of is_word s
  rest ← literal (codes " resumed>") s
  some name

-- `(\w+)\(` at the start
unfoldable pub called_name : Text → Option Text
unfolding literal some_of is_word
called_name s = do (name, s) ← some_of is_word s; rest ← literal (codes "(") s; some name

unfoldable pub event_name : Text → Option Text
unfolding resumed_name called_name
event_name body = elim (resumed_name body) [ some name ↦ some name | none ↦ called_name body ]

-- The texts around the last place of a text.
unfoldable pub cut_last_at : Text → Text → Option (Text × Text)
unfolding has_prefix drop_like
cut_last_at p [] = none
cut_last_at p (c ∷ s) = elim (cut_last_at p s) [
  | some (before, after) ↦ some (c ∷ before, after)
  | none ↦ if has_prefix (c ∷ s) p then some ([], drop_like p (c ∷ s)) else none
]

-- `<(\d+)\.(\d+)>\s*$` at the start: the latency
unfoldable pub duration_at : Text → Option Int64
unfolding literal seconds drop_while regex_space micros
duration_at s = do
  s ← literal (codes "<") s
  (sec, frac, s) ← seconds s
  s ← literal (codes ">") s
  if drop_while regex_space s == [] then some (mul64 (micros sec frac) 1000) else none

unfoldable pub latency_of : Text → Int64
unfolding find_first duration_at
latency_of body = elim (find_first duration_at body) [ none ↦ 0 | some n ↦ n ]

not_paren : ℕ → Bool
not_paren c = not (c == b'(')

-- From the first parenthesis before the result, at most 128 bytes.
unfoldable pub args_of : Text → Text
unfolding drop_while not_paren
args_of before = take 128 (drop_while not_paren before)

-- None where `ok` is false.
unfoldable pub parse_line : Text → Option StraceEvent
unfolding trim_end stamped_body has_prefix has_suffix event_name cut_last_at latency_of args_of
parse_line raw =
    let (ts, body) = stamped_body (trim_end (λ c. c == 13 || c == 10) raw) in
    if has_prefix body (codes "---")
      || has_prefix body (codes "+++")
      || has_suffix body (codes "<unfinished ...>")
    then none
    else event_name body >>= λ name. cut_last_at (codes " = ") body >>= λ (before, result).
        some (record {
          name = name;
          ts_micros = ts;
          latency_ns = latency_of body;
          is_error = has_prefix result (codes "-1 E");
          args = args_of before;
        })
