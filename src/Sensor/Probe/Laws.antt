-- ===== src/Sensor/Probe/Laws.antt =====
-- internal/sensor/capability.go: about linuxProbe.
use scrutiny.Base.{◌≡◌, false, not, ◌&&◌, ◌||◌, arith, if◌then◌else◌}
use scrutiny.Base.Eq.{◌==◌, nat_eq}
use scrutiny.Base.Int64.{slt, sle}
use scrutiny.Base.Text.{codes, text_eq}
use scrutiny.Base.Assoc.Laws.{is_some}
use scrutiny.Schema.Platform.{wsl1, wsl2, context_eq, SensorBackend, PlatformContext}
use scrutiny.Host.{Host}
use scrutiny.Sensor.Capability.{
  CapabilityReport, parse_kernel_version, kernel_meets_min, has_cap, wsl2_ebpf_probe,
  live_ebpf_probe,
}
use scrutiny.Sensor.Probe.{
  pick_fallback, fall_back, first_report, loaded, try_load, check_wsl2, check_cap, linux_probe,
}

-- The parts of a report agree: eBPF is there exactly if nothing forced a fallback, the backend is
-- the best that is there, and eBPF needs the perf buffers' kernel and the capability, as the ring
-- buffers need the perf buffers' kernel.
pub record IsConsistent (r : CapabilityReport) : Type 0 where
  pub forced : r.forced_fallback ≡ not r.ebpf_available
  pub best : r.backend ≡ (
      if r.ebpf_available
      then SensorBackend.ebpf
      else if r.strace_available && r.has_cap_sys_ptrace
      then SensorBackend.strace
      else SensorBackend.no_backend)
  pub kernel : (r.ebpf_available && not r.ebpf_perf_buffer) ≡ false
  pub capable : (r.ebpf_available && not r.has_cap_bpf) ≡ false
  pub ring : (r.ebpf_ring_buffer && not r.ebpf_perf_buffer) ≡ false

-- The parts of every report of the probe on Linux agree, whatever the system answers.
pub linux_probe-IsConsistent : (h : Host) (ctx : PlatformContext) → IsConsistent (linux_probe h ctx)
unfolding linux_probe first_report check_cap check_wsl2 try_load fall_back live_ebpf_probe loaded
    pick_fallback
linux_probe-IsConsistent h ctx = record {
  forced = ground arith;
  best = ground arith;
  kernel = ground arith;
  capable = ground arith;
  ring = ground arith;
}

-- The probe on Linux chooses eBPF exactly if the host is not WSL1, the kernel is at least 4.15, the
-- process has CAP_BPF or is root, a WSL2 kernel has BPF, and the program loads.
pub linux_probe-chooses_ebpf :
    (h : Host) (ctx : PlatformContext)
    → let (major, minor, patch) = parse_kernel_version ctx.kernel_version in
      (linux_probe h ctx).ebpf_available ≡ (
        not (ctx.detected_platform == wsl1)
        && (slt 4 major || major == 4 && sle 15 minor)
        && (has_cap h (codes "cap_bpf") || h.uid == 0)
        && (not (ctx.detected_platform == wsl2) || wsl2_ebpf_probe h)
        && not (is_some h.tracer_error))
unfolding linux_probe first_report kernel_meets_min check_cap check_wsl2 try_load fall_back
    live_ebpf_probe loaded
linux_probe-chooses_ebpf h ctx = ground arith
