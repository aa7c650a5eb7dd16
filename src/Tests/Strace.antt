-- ===== src/Tests/Strace.antt =====
-- The strace sensor on concrete input.
use scrutiny.Base.{◌≡◌, refl, true, false, none, some, List, [], ◌∷◌}
use scrutiny.Base.Eq.{list_beq}
use scrutiny.Base.Text.{Text, codes, text_eq}
use scrutiny.Base.Assoc.{lookup}
use scrutiny.Base.Assoc.Group.{with_key}
use scrutiny.Base.Report.{report_each}
use scrutiny.Strace.Parse.{parse_line}
use scrutiny.Strace.Record.{collect_strace}
use scrutiny.Strace.Record.Exact.{name_of, stamp, summary, collect_strace-summary}

abbrev opened : Text
opened = codes "12 1700000000.000123 openat(3, \"/a = b\") = -1 ENOENT (No such file) <0.000021>\n"

openat :
    parse_line opened
    ≡ some (record {
      name = codes "openat";
      ts_micros = 1700000000000123;
      latency_ns = 21000;
      is_error = true;
      args = codes "(3, \"/a = b\")";
    })
unfolding parse_line codes list_beq
openat = refl

unfinished : parse_line (codes "12 1700000000.5 read(3,  <unfinished ...>") ≡ none
unfolding parse_line codes list_beq
unfinished = refl

resumed :
    parse_line (codes "1.5 <... read resumed>, 4) = 2 <0.5>")
    ≡ some (record {
      name = codes "read";
      ts_micros = 1500000;
      latency_ns = 500000000;
      is_error = false;
      args = [];
    })
unfolding parse_line codes list_beq
resumed = refl

abbrev lines : List Text
lines = opened ∷ codes "--- SIGCHLD {} ---" ∷ opened ∷ []

collect_strace-summary_example :
    lookup (codes "openat") (collect_strace lines).0.observed
    ≡ summary (with_key name_of (codes "openat") (stamp 0 (report_each parse_line lines)))
collect_strace-summary_example = collect_strace-summary (codes "openat") lines
