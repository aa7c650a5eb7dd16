-- ===== src/Sensor/Probe.antt =====
-- internal/sensor/capability.go: Probe, linuxProbe, and the stamp on the platform context.
pub mod Laws
use scrutiny.Base.{true, not, ◌&&◌, ◌||◌, Option, none, some, List, [], ◌∷◌, ◌++◌, if◌then◌else◌}
use scrutiny.Base.Eq.{◌==◌, nat_eq}
use scrutiny.Base.Decimal.{decimal}
use scrutiny.Base.Text.{Text, codes, text_eq}
use scrutiny.Schema.Platform.{wsl1, wsl2, context_eq, SensorBackend, PlatformContext}
use scrutiny.Host.{Host}
use scrutiny.Sensor.Capability.{
  CapabilityReport, no_report, parse_kernel_version, kernel_meets_min, probe_strace, has_cap,
  wsl2_ebpf_probe, live_ebpf_probe,
}

-- The em dash of the messages, in UTF-8.
abbrev dash : Text
dash = 226 ∷ 128 ∷ 148 ∷ []

unfoldable pub pick_fallback : CapabilityReport → SensorBackend
pick_fallback r =
    if r.strace_available && r.has_cap_sys_ptrace
    then SensorBackend.strace
    else SensorBackend.no_backend

-- The four lines of an early return: the reason, the warnings after those that are there, and the
-- backend that is left.
unfoldable pub fall_back : Text → List Text → CapabilityReport → CapabilityReport
fall_back reason more r =
    let s = record r {
      forced_fallback = true;
      fallback_reason = reason;
      warnings = r.warnings ++ more;
    } in
    record s { backend = pick_fallback s }

-- After the kernel version and the check for strace.
unfoldable pub first_report : Host → PlatformContext → CapabilityReport
first_report h ctx =
    let (major, minor, patch) = parse_kernel_version ctx.kernel_version in
    let (available, version) = probe_strace h in
    record no_report {
      kernel_major = major;
      kernel_minor = minor;
      kernel_patch = patch;
      strace_available = available;
      strace_version = version;
      has_cap_sys_ptrace = has_cap h (codes "cap_sys_ptrace") || h.uid == 0;
    }

kernel_too_old : CapabilityReport → Text
kernel_too_old r =
    codes "kernel "
    ++ (decimal r.kernel_major
        ++ (codes "."
            ++ (decimal r.kernel_minor
                ++ (codes "." ++ (decimal r.kernel_patch ++ codes " below eBPF minimum (4.15)")))))

-- After the live probe, from its error if there is one.
unfoldable pub loaded : CapabilityReport → Option Text → CapabilityReport
loaded r (some err) =
    let reason = codes "eBPF live probe failed: " ++ err in fall_back reason (reason ∷ []) r
loaded r none = record r { ebpf_available = true; backend = SensorBackend.ebpf }

-- The live probe, the last check.
unfoldable pub try_load : Host → CapabilityReport → CapabilityReport
try_load h r = loaded r (live_ebpf_probe h r.has_cap_bpf)

-- From the check of WSL2 on.
unfoldable pub check_wsl2 : Host → PlatformContext → CapabilityReport → CapabilityReport
check_wsl2 h ctx r =
    if not (ctx.detected_platform == wsl2)
    then try_load h r
    else if not (wsl2_ebpf_probe h)
    then fall_back
        (codes "WSL2 kernel lacks CONFIG_BPF_SYSCALL " ++ (dash ++ codes " strace fallback"))
        (codes "Some WSL2 builds disable eBPF. Update Windows or enable in kernel config." ∷ []) r
    else try_load h (record r {
      warnings =
          r.warnings
          ++ codes "WSL2 eBPF: network visibility is forwarded through Windows host" ∷ [];
    })

-- From the check of the capability on.
unfoldable pub check_cap : Host → PlatformContext → CapabilityReport → CapabilityReport
check_cap h ctx r =
    let s = record r { has_cap_bpf = has_cap h (codes "cap_bpf") || h.uid == 0 } in
    if not s.has_cap_bpf
    then fall_back
        (codes "CAP_BPF not available " ++ (dash ++ codes " run as root or grant cap_bpf"))
        (codes "eBPF requires CAP_BPF. Run: setcap cap_bpf+ep scrutiny" ∷ []) s
    else check_wsl2 h ctx s

unfoldable pub linux_probe : Host → PlatformContext → CapabilityReport
unfolding kernel_too_old
linux_probe h ctx =
    let r = first_report h ctx in
    if ctx.detected_platform == wsl1
    then fall_back (codes "WSL1 does not support eBPF " ++ (dash ++ codes " strace only")) [] r
    else if not (kernel_meets_min r.kernel_major r.kernel_minor 4 15)
    then fall_back (kernel_too_old r) [] r
    else check_cap h ctx (record r {
      ebpf_perf_buffer = true;
      ebpf_ring_buffer = kernel_meets_min r.kernel_major r.kernel_minor 5 8;
    })

unfoldable pub windows_report : Host → CapabilityReport
windows_report h =
    if h.sysmon_available
    then record no_report { backend = SensorBackend.sysmon }
    else record no_report {
      backend = SensorBackend.no_backend;
      warnings =
          (codes "no Sysmon service found "
            ++ (dash
                ++ (codes " install Sysmon (process/network/file/registry telemetry)"
                    ++ codes " or Scrutiny is blind on Windows")))
          ∷ [];
    }

unfoldable pub probe : Host → PlatformContext → CapabilityReport
probe h ctx = if h.goos == codes "windows" then windows_report h else linux_probe h ctx

unfoldable pub apply_to_context : PlatformContext → CapabilityReport → PlatformContext
apply_to_context ctx r = record ctx {
  capabilities = record ctx.capabilities {
    active_backend = r.backend;
    ebpf_available = r.ebpf_available;
    ebpf_kernel_min = r.ebpf_perf_buffer;
    ebpf_ring_buffer = r.ebpf_ring_buffer;
    strace_available = r.strace_available;
  };
}
