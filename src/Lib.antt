-- ===== src/Lib.antt =====
-- Scrutiny v2 records what a process does (syscalls, network, files, registry, child processes,
-- memory) as an observation, merges several runs of it into a baseline, and reports where a later
-- observation deviates from the baseline, with a score and a verdict.
--
-- Parts and files. Paths are from the repository's root.
--   Schema/*            internal/schema/baseline.go: the types that all parts share, the default
--                       weights, techniques and noise lists, and the constructors of empty records.
--   Analysis            internal/analysis/analyze.go. Config: effectiveConfig, newAnomaly, suppress,
--                       severityFromWeight. Keys: portKey, connKey, rawKey, diffStrings,
--                       hasPrefixAny. Diff/*: one file for each of diffSyscalls, diffNetwork,
--                       diffFilesystem, diffRegistry, diffProcess, diffMemory, with a function for
--                       each loop of the source. Score: riskScore, verdictFor. Order: sortAnomalies.
--                       Summary: summarize, wazuhAlert. Engine: Analyze.
--   Baseline            internal/baseline/merge.go. Maps: the loops that write one map each, and
--                       mergeSyscall. Accumulator: New and AddRun, with a function for each argument
--                       of AddRun. Notes: varianceNotes, Confidence. Build: Build, filesSlice,
--                       regSlice.
--   Host                what the operating system answers: files, commands, environment variables and
--                       the live load of the eBPF program, as a parameter of Context and Sensor.
--   Context             internal/context/detect.go, stat_linux.go. Evidence: detectWine, detectWSL2,
--                       detectWSL1, detectContainer. Version: the texts that these extract. Detect:
--                       detectLinux. Capabilities: the capability maps. Paths: WindowsPathFromWSL,
--                       IsInteropPath.
--   Sensor              internal/sensor/capability.go. Capability: the single probes, hasCap,
--                       kernelMeetsMin. Probe: linuxProbe, with a function from each check on, Probe,
--                       ApplyToContext.
--   Ebpf/Classify       internal/sensor/ebpf/fsclassify.go: bucketsFor, buildFilesystem,
--                       isSensitivePath.
--   Ebpf/Table          internal/sensor/ebpf/syscall_table.go, in three lists.
--   Ebpf/Record         internal/sensor/ebpf/tracer.go: recordSyscallEvent, formatArgs,
--                       finalizeSuspiciousFlags. Record/Summary describes a record by the events.
--   Ebpf/Wire           tracer.go: syscallEvent and fileEvent, as binary.Read reads them, goString.
--   Ebpf/Tracer         tracer.go: NewSyscallTracer, SetTargetNS, TrackPID, Stop, as a log of the objects
--                       that are opened and closed. What the kernel answers is a parameter.
--   Ebpf/Reader         tracer.go: readLoop and its channel, as steps that interleave with a consumer.
--   Ebpf/Collect        tracer.go: Collect, with the sequence of its inputs as a parameter.
--   Sysmon              internal/sensor/sysmon/parse.go, sort.go. Parse: the helpers. Map: the state of
--                       MapEvents. Events: its loop and sortResult.
--   Procfs              internal/sensor/procfs/procfs.go, collector_linux.go. Parse: the parsers of /proc
--                       files. Collect: CollectProcess. Memory: CollectMemory. A poll is a snapshot of
--                       /proc, and the sequence of polls is a parameter.
--   Network             internal/sensor/network/parse.go, collector_linux.go. Address: parseHexAddr and
--                       net.IP. Parse: the socket tables. System: socketInodes,
--                       promiscuousInterfacesNow. Collect: Collect and finalize.
--   Strace              internal/sensor/strace/parse.go, collect_linux.go. Parse: parseLine. Record: record
--                       and the fold of Collect over the lines.
--   Command             cmd/scrutiny/main.go. Args: parseArgs, and the arguments
--                       that spell out a configuration (Printed). Capture: captureAll and captureKernel from
--                       the models of the sensors, with what they read as a parameter, targetForPID,
--                       pidAlive. Session: runBaseline and runObserve, with the clock, the captures of
--                       the windows and whether the process is alive as parameters.
--   Base                what the parts share: strings, int64, maps, sorts, and the loop shapes.
--   Tests               samples, tests, and each result applied to concrete input.
-- Detection and the capability probe give the platform context that every record carries; fsclassify
-- asks it whether a path crosses to Windows. The observations that the sensors make go into AddRun;
-- the result of Build becomes the baseline that Analyze compares with. The baseline's keys of ports,
-- connections and raw sockets are those of the analysis: the source has a copy of each function in
-- both packages.
--
-- How Go is modelled.
--   Strings are lists of bytes. `%q` and the changes of case are modelled for ASCII text.
--   `int` and `int64` are two's complement words below 2 ^ 64: additions wrap around, and the order
--   is signed. Counters that are at most the number of elements of slices in memory are numbers.
--   A map is the list of its entries; its order is an order in which `range` may visit it. Slices
--   are lists; nil and empty slices are not told apart, except where the code does (`Option`).
--   Where a loop of the source writes two maps, the model has a loop for each.
--   An enumeration, a string type in Go, has the constants that the schema declares.
--   sort.Slice and sort.SliceStable are a stable insertion sort. sort.Slice is not stable in Go,
--   which makes no difference on keys that are distinct, as those of a map.
--   A pointer argument that may be nil is an `Option`.
--   Regular expressions are searches for the leftmost match (Base/Text/Version). White space, letters
--   and digits are the ASCII ones.
-- All loops are structural recursion on lists. The only fuel is that of printing in decimal and in
-- hexadecimal, one round for each digit, and there are more rounds than digits.
--
-- Not modelled: identifiers and times of results, which come from a random source and the clock; the
-- query of the Sysmon log and the decoding of its JSON; the process of strace and its pipe; Windows
-- detection; what the command line prints and its files; the stubs for other systems; the eBPF program
-- in C.
pub mod Base
pub mod Schema
pub mod Host
pub mod Context
pub mod Sensor
pub mod Ebpf
pub mod Sysmon
pub mod Strace
pub mod Procfs
pub mod Network
pub mod Analysis
pub mod Baseline
pub mod Command
pub mod Tests
