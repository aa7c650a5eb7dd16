-- ===== src/Sysmon/Parse.antt =====
-- internal/sensor/sysmon/parse.go: events, and the functions that read their fields.
use scrutiny.Base.{ℕ, Bool, false, ◌||◌, none, some, List, [], ◌∷◌, if◌then◌else◌, get_or}
use scrutiny.Base.Eq.{◌==◌, nat_eq}
use scrutiny.Base.Int64.{Int64}
use scrutiny.Base.Text.{Text, codes, text_eq}
use scrutiny.Base.Text.Search.{contains, to_lower}
use scrutiny.Base.Text.Parts.{trim_space, split, cut, fields}
use scrutiny.Base.Numeral.{parse_int}
use scrutiny.Base.Assoc.{Assoc, lookup}
use scrutiny.Schema.Observed.{FilePath}

pub record SysmonEvent : Type 0 where
  pub id : Int64
  pub event_data : Assoc Text Text

-- e.Data[name]
unfoldable pub datum : SysmonEvent → Text → Text
unfolding lookup
datum e name = get_or [] (lookup name e.event_data)

unfoldable pub atoi : Text → Int64 × Bool
unfolding parse_int trim_space
atoi s = parse_int (trim_space s)

abbrev is_separator : ℕ → Bool
is_separator c = c == b'\\' || c == b'/'

has_separator : Text → Bool
has_separator [] = false
has_separator (c ∷ p) = is_separator c || has_separator p

-- The text after the last slash or backslash.
unfoldable pub win_base : Text → Text
unfolding has_separator
win_base [] = []
win_base (c ∷ p) =
    let rest = win_base p in if has_separator p then rest else if is_separator c then p else c ∷ p

abbrev pub equal_fold : Text → Text → Bool
equal_fold a b = to_lower a == to_lower b

hash_in : List Text → Text → Text
unfolding cut trim_space to_lower
hash_in [] algo = []
hash_in (part ∷ parts) algo =
    let rest = hash_in parts algo in
    elim (cut b'=' part) [
      | none ↦ rest
      | some (name, value) ↦ if equal_fold name algo then to_lower (trim_space value) else rest
    ]

unfoldable pub extract_hash : Text → Text → Text
unfolding hash_in split
extract_hash hashes algo = hash_in (split b',' hashes) algo

unfoldable pub split_args : Text → List Text
unfolding trim_space fields
split_args line = if trim_space line == [] then [] else fields line

abbrev pub persistence_substrings : List Text
persistence_substrings =
    codes "\\CurrentVersion\\Run"
    ∷ codes "\\CurrentVersion\\RunOnce"
    ∷ codes "\\Winlogon"
    ∷ codes "\\Image File Execution Options"
    ∷ codes "\\CurrentControlSet\\Services"
    ∷ codes "\\CurrentVersion\\Explorer\\Shell Folders"
    ∷ codes "\\CurrentVersion\\Policies\\Explorer\\Run"
    ∷ []

abbrev pub security_weakening_substrings : List Text
security_weakening_substrings =
    codes "\\Lsa\\EveryoneIncludesAnonymous"
    ∷ codes "\\Lsa\\RestrictAnonymous"
    ∷ codes "\\Lsa\\RestrictAnonymousSAM"
    ∷ codes "\\LanmanServer\\Parameters\\NullSessionPipes"
    ∷ codes "\\LanmanServer\\Parameters\\NullSessionShares"
    ∷ codes "\\LanmanServer\\Parameters\\RestrictNullSessAccess"
    ∷ codes "\\Windows Defender\\"
    ∷ codes "\\FirewallPolicy\\"
    ∷ codes "\\Terminal Server\\fDenyTSConnections"
    ∷ []

contains_lower : Text → List Text → Bool
unfolding contains to_lower
contains_lower lower [] = false
contains_lower lower (s ∷ l) = contains lower (to_lower s) || contains_lower lower l

unfoldable pub is_persistence_key : Text → Bool
unfolding contains_lower
is_persistence_key key = contains_lower (to_lower key) persistence_substrings

unfoldable pub is_security_weakening_key : Text → Bool
unfolding contains_lower
is_security_weakening_key key = contains_lower (to_lower key) security_weakening_substrings

unfoldable pub file_path : Text → FilePath
file_path p = record {
  path = p;
  normalized_path = p;
  count = 1;
  sensitive = false;
  interop_path = false;
}
