-- ===== src/Tests/Sensor.antt =====
-- Detection, the capability probe and the classification of file accesses on concrete input.
use scrutiny.Base.{
  ◌≡◌, refl, true, false, none, some, List, [], ◌∷◌, ◌++◌, ◌&&◌, ◌||◌, not, map, All, arith,
  if◌then◌else◌,
}
use scrutiny.Base.Eq.{◌==◌, nat_eq, has, list_beq}
use scrutiny.Base.Int64.{slt, sle}
use scrutiny.Base.Text.{codes, text_eq}
use scrutiny.Base.Assoc.Laws.{is_some}
use scrutiny.Base.Text.Parts.{to_upper}
use scrutiny.Schema.Platform.{wsl1, wsl2, context_eq}
use scrutiny.Host.{Host}
use scrutiny.Context.Detect.{detect_linux}
use scrutiny.Context.Laws.{IsWellFormed, detect_linux-IsWellFormed}
use scrutiny.Context.Paths.{from_slash, windows_path_from_wsl}
use scrutiny.Context.Paths.Laws.{windows_path_from_wsl-drive}
use scrutiny.Sensor.Capability.{
  parse_kernel_version, has_cap, wsl2_ebpf_probe, cap_in_lines, extract_strace_version,
}
use scrutiny.Base.Text.Search.{has_prefix}
use scrutiny.Sensor.Capability.{cap_name_to_bit, bit}
use scrutiny.Sensor.Capability.Mask.{cap_line, hex_value, cap_in_lines-mask}
use scrutiny.Sensor.Probe.{linux_probe}
use scrutiny.Sensor.Probe.Laws.{IsConsistent, linux_probe-IsConsistent, linux_probe-chooses_ebpf}
use scrutiny.Ebpf.Classify.{FileAccess, Bucket, build_filesystem}
use scrutiny.Ebpf.Classify.Lists.{path_of, files_of, accessed, build_filesystem-lists}
use scrutiny.Ebpf.Classify.Counts.{accesses, build_filesystem-counts}
use scrutiny.Tests.Samples.{platform}

-- A WSL2 host with one file to read and nothing to run.
abbrev pub host : Host
host = record {
  goos = codes "linux";
  read_file = λ path.
      if path == codes "/proc/version"
      then some (codes "Linux version 5.15.90.1-microsoft-standard-WSL2 (gcc)")
      else if path == codes "/proc/mounts"
      then some (codes "bpf /sys/fs/bpf bpf rw 0 0")
      else none;
  exists = λ path. false;
  getenv = λ name. [];
  readlink = λ path. none;
  run = λ name args. none;
  run_combined = λ name args. (true, []);
  uid = 0;
  inode = λ path. none;
  tracer_error = none;
  sysmon_available = false;
}

abbrev opened : List FileAccess
opened =
    record { syscall_nr = 2; flags = 65; op = 0; path = codes "/tmp/a" }
    ∷ record { syscall_nr = 2; flags = 1; op = 0; path = codes "/tmp/a" }
    ∷ record { syscall_nr = 59; flags = 0; op = 2; path = [] }
    ∷ []

detect_linux-IsWellFormed_example : IsWellFormed (detect_linux host)
detect_linux-IsWellFormed_example = detect_linux-IsWellFormed host

windows_path_from_wsl-drive_example :
    windows_path_from_wsl host (codes "/mnt/" ++ (codes "c" ++ b'/' ∷ codes "Users/x"))
    ≡ (to_upper (codes "c") ++ codes ":\\")
      ++ (if host.goos == codes "windows"
          then from_slash host (codes "Users/x")
          else codes "Users/x")
unfolding has codes
windows_path_from_wsl-drive_example =
    windows_path_from_wsl-drive host (codes "c") (codes "Users/x") refl

linux_probe-IsConsistent_example : IsConsistent (linux_probe host platform)
linux_probe-IsConsistent_example = linux_probe-IsConsistent host platform

linux_probe-chooses_ebpf_example :
    let (major, minor, patch) = parse_kernel_version platform.kernel_version in
    (linux_probe host platform).ebpf_available ≡ (
      not (platform.detected_platform == wsl1)
      && (slt 4 major || major == 4 && sle 15 minor)
      && (has_cap host (codes "cap_bpf") || host.uid == 0)
      && (not (platform.detected_platform == wsl2) || wsl2_ebpf_probe host)
      && not (is_some host.tracer_error))
linux_probe-chooses_ebpf_example = linux_probe-chooses_ebpf host platform

build_filesystem-lists_example :
    has
      (codes "/tmp/a")
      (map path_of (files_of Bucket.written (build_filesystem host platform opened)))
    ≡ accessed Bucket.written (codes "/tmp/a") opened
build_filesystem-lists_example =
    build_filesystem-lists host platform Bucket.written (codes "/tmp/a") opened

build_filesystem-counts_example :
    All
      (λ f. f.count ≡ accesses Bucket.written f.path opened)
      (files_of Bucket.written (build_filesystem host platform opened))
build_filesystem-counts_example = build_filesystem-counts host platform Bucket.written opened

detected : (detect_linux host).detected_platform ≡ wsl2
unfolding detect_linux codes list_beq scrutiny.Context.Detect.first_found
    scrutiny.Context.Evidence.detect_wine scrutiny.Context.Evidence.detect_wsl2
    scrutiny.Context.Detect.proc_version
detected = refl

build_of_wsl : (detect_linux host).kernel_version ≡ codes "5.15.90.1-microsoft-standard-WSL2"
unfolding detect_linux codes scrutiny.Context.Detect.first_found
    scrutiny.Context.Evidence.detect_wine list_beq scrutiny.Context.Evidence.detect_wsl2
    scrutiny.Context.Detect.proc_version scrutiny.Context.Version.extract_kernel_version
build_of_wsl = refl

drive_path : windows_path_from_wsl host (codes "/mnt/c/Users") ≡ codes "C:\\Users"
unfolding windows_path_from_wsl codes scrutiny.Context.Paths.split_once from_slash list_beq
drive_path = refl

kernel : parse_kernel_version (codes "5.15.90.1-microsoft") ≡ (5, 15, 90)
unfolding parse_kernel_version codes
kernel = refl

strace_text : extract_strace_version (codes "strace -- version 6.1\nCopyright") ≡ codes "6.1"
unfolding extract_strace_version codes
strace_text = refl

bpf_bit :
    cap_in_lines
      (codes "cap_bpf")
      (codes "Name:\tscrutiny" ∷ codes "CapEff:\t0000008000000000" ∷ [])
    ≡ true
unfolding cap_in_lines codes list_beq
bpf_bit = refl

counted : map (λ f. f.count) (build_filesystem host platform opened).paths_written ≡ 2 ∷ []
unfolding build_filesystem codes list_beq scrutiny.Base.Eq.decided
    scrutiny.Ebpf.Classify.Bucket-discrete
counted = refl

cap_in_lines-mask_example :
    cap_in_lines (codes "cap_sys_ptrace") (
      (codes "Name:\tscrutiny" ∷ codes "CapBnd:\tffff" ∷ [])
      ++ cap_line (8 ∷ 0 ∷ 0 ∷ 0 ∷ 0 ∷ []) ∷ codes "CapEff:\t0" ∷ [])
    ≡ bit (hex_value 0 (8 ∷ 0 ∷ 0 ∷ 0 ∷ 0 ∷ [])) 19
unfolding cap_name_to_bit codes list_beq has_prefix
cap_in_lines-mask_example =
    cap_in_lines-mask (codes "cap_sys_ptrace") 19 8 (0 ∷ 0 ∷ 0 ∷ 0 ∷ [])
      (codes "Name:\tscrutiny" ∷ codes "CapBnd:\tffff" ∷ []) (codes "CapEff:\t0" ∷ []) refl
      (omega arith) (omega arith) (refl, (refl, tt))
