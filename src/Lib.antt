-- ===== src/Lib.antt =====
-- Damon: a supervisor that runs a Windows process with limits on its use of the machine.
--
-- `main` (main.go) reads its settings from the environment (config.go), opens its log (log/log.go) and
-- starts one child process in a container (container/container.go). A container is a job object of the
-- Windows kernel: the child is started suspended, put into the job, given its limits and resumed. Two
-- goroutines then poll the job, one for statistics and one for notifications, and call back into the
-- metrics (metrics/metrics.go), which are served over HTTP. Everything that speaks to the kernel is in
-- win32/.
--
-- Parts and files:
--   Prelude        shared names, Boolean tests, lists, integers, machine words and masks
--   Host           what is taken of Go's library to read settings: Getenv, ParseInt, texts, paths
--   Config         config.go: env_to_int, env_to_bool, load_container_config_from_environment (the
--                  configuration is returned beside the error, as in Go)
--                  Fields the log fields of Nomad
--   Log, Version   log/log.go with LogConfigFromEnvironment of config.go, Log.Writer its Logger as the
--                  calls that it makes of zerolog; version/version.go
--   Sys            win32/base_types_win32.go: how return values become errors; Wrappers each wrapper of a
--                  system call in win32/, as a function of the system's answer
--   Handles        the handles that an operation opens, uses and closes, and the defer of a close;
--                  Sessions sequences of such operations
--   Layout         the structures of win32/ that are passed by address: the sizes and offsets that the Go
--                  compiler for amd64 and C give their members, Structures the declarations of the code,
--                  Documented those of its comments, Agreement what the two have to do with each other,
--                  Classes the classes and sizes that are told to the kernel
--   Access         the rights of win32/ to processes, threads, tokens, keys and the policy, and the
--                  operations that ask for them
--   Sids           win32/sid.go
--   Logger         win32/logger.go: the global logger, SetLogger and the functions that log
--   Job            win32/job_object_info.go and win32/job_object_info_win32.go: Flags and InfoClass the constants,
--                  Limits, Notify and CpuRate the structures that the setters hand to the kernel, Kernel
--                  the call that takes them, Violations the reports of the completion port
--                  (win32/job_object_win32.go, win32/job_object.go) with the older report and their texts, Accounting what a job has used, IoRate
--                  the I/O rates and their query, Object the handles of CreateJobObject and Close
--   Process        win32/process.go: the process object; Wait its method of that name, as interleaved
--                  steps of the caller and two goroutines; Threads the search of win32/thread_win32.go, Handles
--                  what its operations do with handles
--   Container      container/container.go: Start the method of that name, as the calls that it makes for
--                  all answers of the kernel, Notifications and Stats the two polling loops;
--                  Start.InForce and Promise state what a configuration promises the child, Start.Cleanup what a
--                  failed start leaves
--   Metrics        metrics/metrics.go: Registration (Init), Collector (Sample), Gauges (OnStats),
--                  Counters (OnViolation; Refinement from the kernel's reports to the counters, Served for
--                  the reports that Start asks for)
--   Text           win32/string_utils.go and readEnvironmentBlock of win32/userenv_win32.go
--   Registry       win32/registry.go, win32/registry_win32.go: Query is the loop of readRegValue with its
--                  buffer
--   Network        win32/ip_helper.go, win32/ip_helper_win32.go; Owners the modules that own connections
--   Token          win32/tokens.go, win32/tokens_win32.go: restrictions and information, Handles the life
--                  of a token, RunAs the impersonation, Kind the kind of a token
--   Lsa            win32/lsa_win32.go; Accounts win32/lsa.go
--   Resources      win32/resources.go: Processor the MHz that it reads from the registry
--   Main           main.go, and Wait of container/container.go; Signals the goroutine that waits for a
--                  signal, as steps; Journal the lines that main itself logs, and the server of the metrics
--                  as far as it is told where to listen; Promise and Exit put the parts together, from the environment to
--                  the kernel and from the child's end to the exit code
--   TestCommand    testcmd/main.go; Rights testcmd/user.go; Loads the loads of its other files
--   Tests          runs at concrete inputs
--
-- How the code is modelled. What the kernel answers is an argument, either one answer, or a function, or
-- a list of the answers to a loop's calls; no answer is excluded unless a theorem says so. Go's pair of a
-- value and an error is a Result, or a pair where the code uses the value beside an error. A run-time
-- panic is the value `panic` of Outcome. Machine words are native numbers with their wrap-around written
-- out; a signed 64-bit duration is its bit pattern. Floating-point numbers are abstract: a record of the
-- operations that the code uses, of which no law is assumed save for an order that one lemma takes as
-- given. Memory behind a pointer is the list of the units that can be read from it, and a read beyond it
-- gives `none`.
--
-- Loops. The loops over lists, memory or answers are structural recursion, and `none` stands for a loop
-- that no answer has ended. The loop of getTokenInformation has fuel, the number of its rounds, and what is
-- said of it is said of every number of rounds. Process.Wait has no bound on its steps.
--
-- Handles are numbers, and an operation yields the list of what happens to them beside its result; a
-- deferred close stands at the end of its function's events, also after a panic. Maps are what they give
-- for a key, and an order in which Go ranges over one is an argument.
--
-- A structure has the layout of the Go compiler for amd64, which make.ps1 builds for; what Windows
-- documents of a C structure, of an access right or of a class of information is written out as a
-- definition of its own, which no definition of the code uses.
--
-- Not modelled: the callbacks of main.go, and its HTTP server past the address and the endpoint;
-- formatting and rotation of the log, which are libraries'; the goroutine that reads in the network load
-- of testcmd/, past its turns; and vendored code. The help texts of the metrics are left out, and of
-- their labels all but whether the library takes the names.
pub mod Prelude
pub mod Host
pub mod Sys
pub mod Handles
pub mod Logger
pub mod Log
pub mod Version
pub mod Text
pub mod Registry
pub mod Network
pub mod Token
pub mod Lsa
pub mod Config
pub mod Job
pub mod Access
pub mod Layout
pub mod Sids
pub mod Process
pub mod Sessions
pub mod TestCommand
pub mod Resources
pub mod Container
pub mod Metrics
pub mod Main
pub mod Tests
