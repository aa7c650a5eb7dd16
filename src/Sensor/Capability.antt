-- ===== src/Sensor/Capability.antt =====
-- internal/sensor/capability.go: the capability probe.
pub mod Mask
use scrutiny.Base.{
  ℕ, ◌/◌, ◌%◌, ◌^◌, Bool, true, false, not, ◌&&◌, ◌||◌, Option, none, some, List, [], ◌∷◌, ◌++◌,
  if◌then◌else◌, get_or,
}
use scrutiny.Base.Eq.{◌==◌, nat_eq}
use scrutiny.Base.Int64.{Int64, slt, sle}
use scrutiny.Base.Numeral.{parse_hex, atoi_digits}
use scrutiny.Base.Text.{Text, codes, text_eq}
use scrutiny.Base.Text.Search.{has_prefix, contains, to_lower}
use scrutiny.Base.Text.Parts.{drop_like, split, trim_prefix, trim_space}
use scrutiny.Base.Text.Version.{find_first, three_groups_at, two_part_at, word_after}
use scrutiny.Schema.Platform.{context_eq, SensorBackend}
use scrutiny.Host.{Host}

pub record CapabilityReport : Type 0 where
  pub backend : SensorBackend
  pub ebpf_available : Bool
  pub ebpf_ring_buffer : Bool
  pub ebpf_perf_buffer : Bool
  pub kernel_major : Int64
  pub kernel_minor : Int64
  pub kernel_patch : Int64
  pub has_cap_bpf : Bool
  pub has_cap_sys_ptrace : Bool
  pub strace_available : Bool
  pub strace_version : Text
  pub forced_fallback : Bool
  pub fallback_reason : Text
  pub warnings : List Text

-- The zero value; the empty backend is modelled as `no_backend`.
abbrev pub no_report : CapabilityReport
no_report = record {
  backend = SensorBackend.no_backend;
  ebpf_available = false;
  ebpf_ring_buffer = false;
  ebpf_perf_buffer = false;
  kernel_major = 0;
  kernel_minor = 0;
  kernel_patch = 0;
  has_cap_bpf = false;
  has_cap_sys_ptrace = false;
  strace_available = false;
  strace_version = [];
  forced_fallback = false;
  fallback_reason = [];
  warnings = [];
}

unfoldable pub parse_kernel_version : Text → Int64 × Int64 × Int64
unfolding find_first three_groups_at atoi_digits
parse_kernel_version s = elim (find_first three_groups_at s) [
  | none ↦ (0, 0, 0)
  | some (major, minor, patch) ↦ (atoi_digits major, atoi_digits minor, atoi_digits patch)
]

unfoldable pub kernel_meets_min : Int64 → Int64 → Int64 → Int64 → Bool
kernel_meets_min major minor min_major min_minor =
    if slt min_major major
    then true
    else if major == min_major && sle min_minor minor
    then true
    else false

-- The first alternative of the expression, then the second.
strace_version_at : Text → Option Text
unfolding word_after has_prefix drop_like two_part_at
strace_version_at s = elim (word_after (codes "strace -- version ") s) [
  | some v ↦ some v
  | none ↦
      if has_prefix s (codes "strace ") then two_part_at (drop_like (codes "strace ") s) else none
]

unfoldable pub extract_strace_version : Text → Text
unfolding strace_version_at find_first
extract_strace_version s = get_or (codes "unknown") (find_first strace_version_at s)

unfoldable pub probe_strace : Host → Bool × Text
probe_strace h =
    let (failed, out) = h.run_combined (codes "strace") (codes "-V" ∷ []) in
    if failed
    then if not (out == []) then (true, extract_strace_version out) else (false, [])
    else (true, extract_strace_version out)

-- None for a name that is not in the table.
unfoldable pub cap_name_to_bit : Text → Option ℕ
unfolding to_lower
cap_name_to_bit name =
    let low = to_lower name in
    if low == codes "cap_bpf"
    then some 39
    else if low == codes "cap_sys_ptrace"
    then some 19
    else if low == codes "cap_sys_admin"
    then some 21
    else none

unfoldable pub bit : ℕ → ℕ → Bool
bit mask n = (mask / 2 ^ n) % 2 == 1

-- The loop over the lines, which stops at the first that begins with `CapEff:`.
unfoldable pub cap_in_lines : Text → List Text → Bool
unfolding has_prefix trim_prefix trim_space parse_hex cap_name_to_bit bit
cap_in_lines name [] = false
cap_in_lines name (line ∷ lines) =
    if has_prefix line (codes "CapEff:")
    then elim (parse_hex (trim_space (trim_prefix line (codes "CapEff:")))) [
      | none ↦ false
      | some mask ↦ elim (cap_name_to_bit name) [ none ↦ false | some n ↦ bit mask n ]
    ]
    else cap_in_lines name lines

unfoldable pub has_cap : Host → Text → Bool
unfolding cap_in_lines split
has_cap h name = elim (h.read_file (codes "/proc/self/status")) [
  | none ↦ false
  | some status ↦ cap_in_lines name (split b'\n' status)
]

unfoldable pub current_kernel_release : Host → Text
unfolding trim_space
current_kernel_release h = elim (h.run (codes "uname") (codes "-r" ∷ [])) [
  | none ↦ codes "unknown"
  | some out ↦ trim_space out
]

mounts_bpf : Host → Bool
unfolding contains
mounts_bpf h = elim (h.read_file (codes "/proc/mounts")) [
  | none ↦ false
  | some mounts ↦ contains mounts (codes "bpf")
]

unfoldable pub wsl2_ebpf_probe : Host → Bool
unfolding mounts_bpf
wsl2_ebpf_probe h =
    mounts_bpf h
    || h.exists (codes "/proc/config.gz")
    || h.exists (codes "/boot/config-" ++ current_kernel_release h)

-- The sysctl that keeps an unprivileged process from loading, if it does.
sysctl_blocks : Host → Option Text
unfolding trim_space
sysctl_blocks h = elim (h.read_file (codes "/proc/sys/kernel/unprivileged_bpf_disabled")) [
  | none ↦ none
  | some content ↦
      let val = trim_space content in
      if val == codes "1" || val == codes "2" then some val else none
]

-- The error, none if the program loads.
unfoldable pub live_ebpf_probe : Host → Bool → Option Text
unfolding sysctl_blocks
live_ebpf_probe h privileged = if privileged then h.tracer_error else elim (sysctl_blocks h) [
  | none ↦ h.tracer_error
  | some val ↦ some (
      codes "unprivileged_bpf_disabled="
      ++ (val ++ codes " and no CAP_BPF (run as root or grant cap_bpf)"))
]
