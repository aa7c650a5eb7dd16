-- ===== src/Context/Evidence.antt =====
-- internal/context/detect.go and stat_linux.go: what tells Wine, WSL and containers.
use scrutiny.Base.{false, not, ◌&&◌, ◌||◌, Bool, Option, none, some, [], if◌then◌else◌, get_or}
use scrutiny.Base.Eq.{◌==◌, nat_eq}
use scrutiny.Base.Decimal.{decimal_nat}
use scrutiny.Base.Text.{Text, codes, text_eq}
use scrutiny.Base.Text.Search.{contains, to_lower}
use scrutiny.Base.Text.Parts.{trim_space}
use scrutiny.Host.{Host}
use scrutiny.Context.Version.{extract_wsl2_build, wine_version_from_binary}

mentions : Option Text → Text → Bool
unfolding contains to_lower
mentions none word = false
mentions (some s) word = contains (to_lower s) word

unfoldable pub detect_wine : Host → Option Text
unfolding mentions
detect_wine h =
    let loader = h.getenv (codes "WINELOADER") in
    let version = wine_version_from_binary h (codes "wine") in
    if not (loader == [])
    then some (wine_version_from_binary h loader)
    else if not (h.getenv (codes "WINEPREFIX") == [])
    then some version
    else if mentions (h.readlink (codes "/proc/self/exe")) (codes "wine")
    then some version
    else if mentions (h.read_file (codes "/proc/1/cmdline")) (codes "wine")
    then some version
    else none

virt_is_wsl : Host → Bool
unfolding trim_space
virt_is_wsl h = elim (h.run (codes "systemd-detect-virt") []) [
  | none ↦ false
  | some out ↦ trim_space out == codes "wsl"
]

unfoldable pub detect_wsl2 : Host → Text → Option Text
unfolding contains virt_is_wsl
detect_wsl2 h proc_version =
    let os_release = get_or [] (h.read_file (codes "/proc/sys/kernel/osrelease")) in
    if contains proc_version (codes "WSL2")
    then some (extract_wsl2_build proc_version)
    else if contains os_release (codes "WSL2")
        || contains os_release (codes "microsoft-standard-WSL2")
    then some (extract_wsl2_build os_release)
    else if virt_is_wsl h && not (contains proc_version (codes "Microsoft"))
    then some (extract_wsl2_build proc_version)
    else none

unfoldable pub detect_wsl1 : Text → Bool
unfolding contains
detect_wsl1 proc_version =
    contains proc_version (codes "Microsoft") && not (contains proc_version (codes "WSL2"))

unfoldable pub cgroup_ns_inode : Host → Text
unfolding decimal_nat
cgroup_ns_inode h = elim (h.inode (codes "/proc/self/ns/cgroup")) [
  | none ↦ []
  | some ino ↦ decimal_nat ino
]

unfoldable pub detect_container : Host → Option Text
unfolding mentions
detect_container h =
    let cgroup = h.read_file (codes "/proc/1/cgroup") in
    let inode = cgroup_ns_inode h in
    if h.exists (codes "/.dockerenv")
    then some (codes "docker")
    else if h.exists (codes "/run/.containerenv")
    then some (codes "podman")
    else if mentions cgroup (codes "docker")
    then some (codes "docker")
    else if mentions cgroup (codes "lxc")
    then some (codes "lxc")
    else if mentions cgroup (codes "kubepods")
    then some (codes "kubernetes")
    else if h.exists (codes "/sys/fs/cgroup/cgroup.controllers")
        && not (inode == [])
        && not (inode == codes "4026531835")
    then some (codes "container")
    else none
