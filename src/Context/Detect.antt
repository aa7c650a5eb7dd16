-- ===== src/Context/Detect.antt =====
-- internal/context/detect.go: detectLinux, the detection hierarchy.
use scrutiny.Base.{◌++◌, Bool, true, false, Option, none, some, [], get_or}
use scrutiny.Base.Text.{Text, codes}
use scrutiny.Schema.Platform.{
  ExecutionContext, native_linux, wsl1, wsl2, wine, container, PlatformContext, SensorCapabilities,
}
use scrutiny.Host.{Host}
use scrutiny.Context.Capabilities.{
  native_linux_capabilities, wsl1_capabilities, wsl2_capabilities, wine_capabilities,
  container_capabilities,
}
use scrutiny.Context.Version.{extract_kernel_version, read_os_release}
use scrutiny.Context.Evidence.{detect_wine, detect_wsl2, detect_wsl1, detect_container}

unfoldable pub proc_version : Host → Text
proc_version h = get_or [] (h.read_file (codes "/proc/version"))

-- The context of a plain Linux host, which each branch overwrites in part.
linux_host : Host → ExecutionContext → SensorCapabilities → PlatformContext
linux_host h p caps = record {
  detected_platform = p;
  host_platform = codes "linux";
  interop_layer = codes "none";
  kernel_version = extract_kernel_version (proc_version h);
  os_version = read_os_release h;
  wine_version = none;
  wsl_build = none;
  container_runtime = none;
  capabilities = caps;
}

-- The branches in order, from what the four checks found: a Wine version, a WSL2 build, whether it
-- is WSL1, and a container runtime.
unfoldable pub first_found : Host → Option Text → Option Text → Bool → Option Text → PlatformContext
unfolding linux_host
first_found h (some version) wsl2_build is_wsl1 runtime =
    record (linux_host h wine wine_capabilities) {
      interop_layer = codes "wine-" ++ version;
      wine_version = some version;
    }
first_found h none (some build) is_wsl1 runtime = record (linux_host h wsl2 wsl2_capabilities) {
  host_platform = codes "windows";
  interop_layer = codes "wsl2-build-" ++ build;
  wsl_build = some build;
}
first_found h none none true runtime = record (linux_host h wsl1 wsl1_capabilities) {
  host_platform = codes "windows";
  interop_layer = codes "wsl1";
  wsl_build = some (codes "unknown");
}
first_found h none none false (some runtime) =
    record (linux_host h container container_capabilities) { container_runtime = some runtime }
first_found h none none false none = linux_host h native_linux native_linux_capabilities

unfoldable pub detect_linux : Host → PlatformContext
detect_linux h =
    first_found h (detect_wine h) (detect_wsl2 h (proc_version h)) (detect_wsl1 (proc_version h))
      (detect_container h)
