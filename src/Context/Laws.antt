-- ===== src/Context/Laws.antt =====
-- internal/context/detect.go: about the context that detectLinux returns.
use scrutiny.Base.{◌≡◌, refl, Bool, true, false, ◌||◌, Option, none, some}
use scrutiny.Base.Eq.{◌==◌, nat_eq, list_beq, decided}
use scrutiny.Base.Text.{Text, codes, text_eq}
use scrutiny.Base.Assoc.Laws.{is_some}
use scrutiny.Schema.Platform.{
  ExecutionContext-discrete, SensorAvailability-discrete, wsl1, wsl2, wine, container, context_eq,
  availability_eq, emulated, PlatformContext,
}
use scrutiny.Host.{Host}
use scrutiny.Context.Capabilities.{
  native_linux_capabilities, wsl1_capabilities, wsl2_capabilities, wine_capabilities,
  container_capabilities,
}
use scrutiny.Context.Detect.{first_found, detect_linux}

-- The fields of a context agree: the version that a platform has is there exactly on this platform,
-- the host is Windows and files cross to it exactly on WSL, and the registry is there exactly
-- under Wine.
pub record IsWellFormed (c : PlatformContext) : Type 0 where
  pub wine_only : is_some c.wine_version ≡ (c.detected_platform == wine)
  pub wsl_only : is_some c.wsl_build ≡ (c.detected_platform == wsl1 || c.detected_platform == wsl2)
  pub container_only : is_some c.container_runtime ≡ (c.detected_platform == container)
  pub windows_host : (c.host_platform == codes "windows") ≡ is_some c.wsl_build
  pub crosses : c.capabilities.interop_fs ≡ is_some c.wsl_build
  pub registry : (c.capabilities.registry == emulated) ≡ is_some c.wine_version

first_found-IsWellFormed :
    (h : Host) (w b : Option Text) (is_wsl1 : Bool) (r : Option Text)
    → IsWellFormed (first_found h w b is_wsl1 r)
unfolding first_found list_beq codes native_linux_capabilities wsl1_capabilities wsl2_capabilities
    wine_capabilities container_capabilities decided ExecutionContext-discrete
    SensorAvailability-discrete
first_found-IsWellFormed h (some v) b is_wsl1 r = record {
  wine_only = refl;
  wsl_only = refl;
  container_only = refl;
  windows_host = refl;
  crosses = refl;
  registry = refl;
}
first_found-IsWellFormed h none (some b) is_wsl1 r = record {
  wine_only = refl;
  wsl_only = refl;
  container_only = refl;
  windows_host = refl;
  crosses = refl;
  registry = refl;
}
first_found-IsWellFormed h none none true r = record {
  wine_only = refl;
  wsl_only = refl;
  container_only = refl;
  windows_host = refl;
  crosses = refl;
  registry = refl;
}
first_found-IsWellFormed h none none false (some r) = record {
  wine_only = refl;
  wsl_only = refl;
  container_only = refl;
  windows_host = refl;
  crosses = refl;
  registry = refl;
}
first_found-IsWellFormed h none none false none = record {
  wine_only = refl;
  wsl_only = refl;
  container_only = refl;
  windows_host = refl;
  crosses = refl;
  registry = refl;
}

-- Detection on Linux returns a context whose fields agree, whatever the system answers.
pub detect_linux-IsWellFormed : (h : Host) → IsWellFormed (detect_linux h)
unfolding detect_linux
detect_linux-IsWellFormed h = first_found-IsWellFormed _ _ _ _ _
