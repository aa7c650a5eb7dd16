-- ===== src/Host.antt =====
-- What the operating system answers to the probes: a parameter of detection and of the capability
-- probe, since none of it is code of the repository.
use scrutiny.Base.{ℕ, Bool, Option, List}
use scrutiny.Base.Int64.{Int64}
use scrutiny.Base.Text.{Text}

pub record Host : Type 0 where
  -- runtime.GOOS
  pub goos : Text
  -- os.ReadFile, none on an error
  pub read_file : Text → Option Text
  -- os.Stat succeeds
  pub exists : Text → Bool
  -- os.Getenv, empty for a variable that is not set
  pub getenv : Text → Text
  -- os.Readlink, none on an error
  pub readlink : Text → Option Text
  -- exec.Command(...).Output, none on an error
  pub run : Text → List Text → Option Text
  -- exec.Command(...).CombinedOutput: whether there was an error, and the output
  pub run_combined : Text → List Text → Bool × Text
  -- os.Getuid
  pub uid : Int64
  -- the inode that os.Lstat gives, none on an error
  pub inode : Text → Option ℕ
  -- the error of ebpf.NewSyscallTracer, which loads the program into the kernel
  pub tracer_error : Option Text
  -- sysmon.Available
  pub sysmon_available : Bool
