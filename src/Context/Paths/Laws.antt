-- ===== src/Context/Paths/Laws.antt =====
-- internal/context/detect.go: about WindowsPathFromWSL.
use scrutiny.Base.{◌≡◌, refl, false, [], ◌∷◌, ◌++◌, arith, if◌then◌else◌}
use scrutiny.Base.Eq.{◌==◌, nat_eq, eq_iff, has}
use scrutiny.Base.Text.{Text, codes, text_eq}
use scrutiny.Base.Text.Search.{has_prefix-append}
use scrutiny.Base.Text.Parts.{take_while, to_upper, drop_like-append}
use scrutiny.Host.{Host}
use scrutiny.Context.Paths.{from_slash, not_slash, parts, split_once, windows_path_from_wsl}

first_part :
    (drive rest : Text)
    → has b'/' drive ≡ false
    → take_while not_slash (drive ++ b'/' ∷ rest) ≡ drive
unfolding take_while not_slash has
first_part [] rest h = refl
first_part (c ∷ drive) rest h = ground (arith, eq_iff b'/' c, eq_iff c b'/', first_part drive rest)

split_once-at :
    (drive rest : Text)
    → has b'/' drive ≡ false
    → split_once (drive ++ b'/' ∷ rest) ≡ drive ∷ rest ∷ []
unfolding split_once parts
split_once-at drive rest h = rw (first_part drive rest h, drop_like-append drive (b'/' ∷ rest)) refl

-- A path `/mnt/<drive>/<rest>` becomes the drive in capitals, a colon, a backslash and the rest. The
-- slashes of the rest become backslashes only where the program itself runs on Windows.
pub windows_path_from_wsl-drive :
    (h : Host) (drive rest : Text)
    → has b'/' drive ≡ false
    → windows_path_from_wsl h (codes "/mnt/" ++ (drive ++ b'/' ∷ rest))
      ≡ (to_upper drive ++ codes ":\\")
        ++ (if h.goos == codes "windows" then from_slash h rest else rest)
unfolding windows_path_from_wsl from_slash
windows_path_from_wsl-drive h drive rest n =
    let path = drive ++ b'/' ∷ rest in
    rw
      (
        has_prefix-append (codes "/mnt/") path,
        drop_like-append (codes "/mnt/") path,
        split_once-at drive rest n,
      )
      (ground arith)
