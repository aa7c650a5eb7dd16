-- ===== src/Context/Version.antt =====
-- internal/context/detect.go: the version texts that detection reads.
use scrutiny.Base.{Option, none, some, List, [], ◌∷◌, if◌then◌else◌, get_or}
use scrutiny.Base.Eq.{◌==◌, nat_eq}
use scrutiny.Base.Text.{Text, codes}
use scrutiny.Base.Text.Search.{has_prefix}
use scrutiny.Base.Text.Parts.{drop_like, split, trim, trim_prefix, trim_space}
use scrutiny.Base.Text.Version.{find_first, two_part_at, three_part_at, word_after}
use scrutiny.Host.{Host}

unfoldable pub extract_kernel_version : Text → Text
unfolding find_first word_after
extract_kernel_version s =
    get_or (codes "unknown") (find_first (word_after (codes "Linux version ")) s)

-- `.*?(\d+\.\d+\.\d+[\.\d]*)`: the first version before the end of the line
version_on_line : Text → Option Text
unfolding three_part_at
version_on_line [] = none
version_on_line (c ∷ s) = elim (three_part_at (c ∷ s)) [
  | some v ↦ some v
  | none ↦ if c == b'\n' then none else version_on_line s
]

wsl_build_at : Text → Option Text
unfolding version_on_line has_prefix drop_like
wsl_build_at s =
    if has_prefix s (codes "WSL2") then version_on_line (drop_like (codes "WSL2") s) else none

unfoldable pub extract_wsl2_build : Text → Text
unfolding wsl_build_at find_first
extract_wsl2_build s = elim (find_first wsl_build_at s) [
  | some build ↦ build
  | none ↦ extract_kernel_version s
]

unfoldable pub wine_version_from_binary : Host → Text → Text
unfolding find_first two_part_at trim_space
wine_version_from_binary h path = elim (h.run path (codes "--version" ∷ [])) [
  | none ↦ codes "unknown"
  | some out ↦ get_or (codes "unknown") (find_first two_part_at (trim_space out))
]

pretty_name : List Text → Option Text
unfolding has_prefix trim trim_prefix
pretty_name [] = none
pretty_name (line ∷ lines) =
    if has_prefix line (codes "PRETTY_NAME=")
    then some (trim (λ c. c == b'"') (trim_prefix line (codes "PRETTY_NAME=")))
    else pretty_name lines

first_release : Host → List Text → Text
unfolding pretty_name split
first_release h [] = codes "unknown"
first_release h (path ∷ paths) = elim (h.read_file path) [
  | none ↦ first_release h paths
  | some content ↦ elim (pretty_name (split b'\n' content)) [
    | none ↦ first_release h paths
    | some name ↦ name
  ]
]

unfoldable pub read_os_release : Host → Text
unfolding first_release
read_os_release h = first_release h (codes "/etc/os-release" ∷ codes "/usr/lib/os-release" ∷ [])
