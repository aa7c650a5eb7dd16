-- ===== src/Context/Paths.antt =====
-- internal/context/detect.go: WindowsPathFromWSL and IsInteropPath.
pub mod Laws
use scrutiny.Base.{
  ℕ, true, false, not, ◌||◌, Bool, List, [], ◌∷◌, ◌++◌, map, reverse, if◌then◌else◌,
}
use scrutiny.Base.Eq.{◌==◌, nat_eq}
use scrutiny.Base.Text.{Text, codes, join, text_eq}
use scrutiny.Base.Text.Search.{has_prefix}
use scrutiny.Base.Text.Parts.{drop_like, split, take_while, to_upper, trim_prefix}
use scrutiny.Schema.Platform.{
  native_linux, wsl1, wsl2, wine, native_windows, container, unknown, PlatformContext,
}
use scrutiny.Host.{Host}

-- filepath.FromSlash: only Windows has another separator.
unfoldable pub from_slash : Host → Text → Text
from_slash h path =
    if h.goos == codes "windows" then map (λ c. if c == b'/' then b'\\' else c) path else path

unfoldable pub not_slash : ℕ → Bool
not_slash c = if c == b'/' then false else true

-- The part before the first slash, and what is from the slash on.
unfoldable pub parts : Text → Text → List Text
parts first [] = first ∷ []
parts first (c ∷ rest) = first ∷ rest ∷ []

-- strings.SplitN(s, "/", 2)
unfoldable pub split_once : Text → List Text
unfolding take_while drop_like not_slash parts
split_once s = parts (take_while not_slash s) (drop_like (take_while not_slash s) s)

unfoldable pub windows_path_from_wsl : Host → Text → Text
unfolding has_prefix trim_prefix to_upper
windows_path_from_wsl h path =
    if has_prefix path (codes "/mnt/")
    then elim (split_once (trim_prefix path (codes "/mnt/"))) [
      | [] ↦ path
      | drive ∷ [] ↦ to_upper drive ++ codes ":\\"
      | drive ∷ rest ∷ more ↦ (to_upper drive ++ codes ":\\") ++ from_slash h rest
    ]
    else path

-- The elements kept so far, in reverse, after one more: `.` and an empty one add nothing, and `..`
-- removes the one before it.
push : Bool → List Text → Text → List Text
push rooted done p =
    if p == [] || p == codes "."
    then done
    else if not (p == codes "..")
    then p ∷ done
    else elim done [
      | [] ↦ if rooted then [] else p ∷ []
      | q ∷ before ↦ if q == codes ".." then p ∷ q ∷ before else before
    ]

clean_parts : Bool → List Text → List Text → List Text
unfolding push
clean_parts rooted done [] = reverse done
clean_parts rooted done (p ∷ ps) = clean_parts rooted (push rooted done p) ps

-- filepath.Clean with the separator `/`
unfoldable pub clean : Text → Text
unfolding has_prefix clean_parts split
clean s =
    let rooted = has_prefix s (codes "/") in
    let body = join (clean_parts rooted [] (split b'/' s)) (codes "/") in
    if rooted then codes "/" ++ body else if body == [] then codes "." else body

-- filepath.Join of two elements, the second not empty
unfoldable pub path_join : Text → Text → Text
unfolding clean
path_join dir name = if dir == [] then clean name else clean (dir ++ (codes "/" ++ name))

unfoldable pub wine_prefix : Host → Text
wine_prefix h =
    let set = h.getenv (codes "WINEPREFIX") in
    if set == [] then path_join (h.getenv (codes "HOME")) (codes ".wine") else set

unfoldable pub is_interop_path : Host → Text → PlatformContext → Bool
unfolding has_prefix wine_prefix
is_interop_path h path ctx = elim ctx.detected_platform [
  | native_linux ↦ false
  | wsl1 ↦ has_prefix path (codes "/mnt/")
  | wsl2 ↦ has_prefix path (codes "/mnt/")
  | wine ↦
      has_prefix path (wine_prefix h ++ codes "/drive_c")
      || has_prefix path (wine_prefix h ++ codes "/dosdevices")
  | native_windows ↦ false
  | container ↦ false
  | unknown ↦ false
]
