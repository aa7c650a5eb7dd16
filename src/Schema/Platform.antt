-- ===== src/Schema/Platform.antt =====
-- internal/schema/baseline.go: execution context, sensors, platform and target.
-- The enumerations are Go strings; the model has the constants that the schema declares.
use scrutiny.Base.{Bool, Option, List}
use scrutiny.Base.Eq.{eq_of_discrete, Eq, nat_eq}
use scrutiny.Base.Int64.{Int64}
use scrutiny.Base.Text.{Text, text_eq}

pub data ExecutionContext : Type 0 where
  native_linux wsl1 wsl2 wine native_windows container unknown : ExecutionContext

unfoldable pub ExecutionContext-discrete : Discrete ExecutionContext
ExecutionContext-discrete = hlevel

instance abbrev pub context_eq : Eq ExecutionContext
context_eq = eq_of_discrete ExecutionContext-discrete

pub data SensorAvailability : Type 0 where
  full partial forwarded shared namespaced interop emulated native unavailable : SensorAvailability

unfoldable pub SensorAvailability-discrete : Discrete SensorAvailability
SensorAvailability-discrete = hlevel

instance abbrev pub availability_eq : Eq SensorAvailability
availability_eq = eq_of_discrete SensorAvailability-discrete

pub data SensorBackend : Type 0 where
  ebpf strace etw sysmon wmi poll_net no_backend : SensorBackend

unfoldable pub SensorBackend-discrete : Discrete SensorBackend
SensorBackend-discrete = hlevel

instance abbrev pub backend_eq : Eq SensorBackend
backend_eq = eq_of_discrete SensorBackend-discrete

pub record SensorCapabilities : Type 0 where
  pub syscalls : SensorAvailability
  pub network : SensorAvailability
  pub filesystem : SensorAvailability
  pub registry : SensorAvailability
  pub memory : SensorAvailability
  pub interop_fs : Bool
  pub active_backend : SensorBackend
  pub ebpf_available : Bool
  pub ebpf_kernel_min : Bool
  pub ebpf_ring_buffer : Bool
  pub strace_available : Bool

pub record PlatformContext : Type 0 where
  pub detected_platform : ExecutionContext
  pub host_platform : Text
  pub interop_layer : Text
  pub kernel_version : Text
  pub os_version : Text
  pub wine_version : Option Text
  pub wsl_build : Option Text
  pub container_runtime : Option Text
  pub capabilities : SensorCapabilities

pub record TargetProcess : Type 0 where
  pub name : Text
  pub path : Text
  pub sha256 : Text
  pub md5 : Text
  pub args : List Text
  pub env_of_note : List Text
  pub uid : Int64
  pub user : Text
