-- ===== src/Context/Capabilities.antt =====
-- internal/context/detect.go: the capability maps.
use scrutiny.Base.{true, false, Bool}
use scrutiny.Schema.Platform.{
  SensorAvailability, full, partial, forwarded, shared, namespaced, interop, emulated, unavailable,
  no_backend, SensorCapabilities,
}

-- The fields that the maps do not set have Go's zero values; the zero value of a backend, the
-- empty string, is modelled as `no_backend`, and the capability probe overwrites it.
unfoldable pub capabilities :
    SensorAvailability
    → SensorAvailability
    → SensorAvailability
    → SensorAvailability
    → SensorAvailability
    → Bool
    → SensorCapabilities
capabilities calls net files reg mem crosses = record {
  syscalls = calls;
  network = net;
  filesystem = files;
  registry = reg;
  memory = mem;
  interop_fs = crosses;
  active_backend = no_backend;
  ebpf_available = false;
  ebpf_kernel_min = false;
  ebpf_ring_buffer = false;
  strace_available = false;
}

unfoldable pub native_linux_capabilities : SensorCapabilities
unfolding capabilities
native_linux_capabilities = capabilities full full full unavailable full false

unfoldable pub wsl1_capabilities : SensorCapabilities
unfolding capabilities
wsl1_capabilities = capabilities full shared interop unavailable full true

unfoldable pub wsl2_capabilities : SensorCapabilities
unfolding capabilities
wsl2_capabilities = capabilities full forwarded interop unavailable full true

unfoldable pub wine_capabilities : SensorCapabilities
unfolding capabilities
wine_capabilities = capabilities partial full interop emulated partial false

unfoldable pub container_capabilities : SensorCapabilities
unfolding capabilities
container_capabilities = capabilities full full namespaced unavailable full false
