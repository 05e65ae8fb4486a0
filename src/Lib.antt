-- ===== src/Lib.antt =====
-- A benchmark of etcd, as a key-value store and as a lock service. The control program (control/)
-- validates a configuration and sends it to the benchmark client (client/), which generates keys
-- and values (data-generator/), loads them into etcd, and runs load steps with a growing number of
-- clients, each with its metrics in a CSV file.
--
-- The files and the code that they are about:
--   Prelude         numbers, texts, results of Go code (a value, an error, a panic, no end), sorting;
--                   Prelude/Alloc: make of a slice
--   Generator       data-generator/generator.go: the Generator and its set of used combinations,
--                   GenerateKey, GenerateValue, GenerateData; Keys, Fresh, Unique and Data lead to
--                   the shape of the data, Exhaust and Total to when there are any
--   Client/Errors   client/runner/utils.go: GetErrInfo
--   Client/Metric   client/runner/metrics.go: the two kinds of metrics, their headers and rows
--   Client/Lock     client/runner/runner_lock.go: runLockOnlyWorkload, runLockMixedWorkload;
--                   Lock/Select: the lock names and the choice of a lock in runLoadStep
--   Client/Kv       client/runner/runner_kv.go: one round of a client in runLoadStep
--   Client/LoadDb   client/main.go: load_db as a main goroutine, a channel and workers, in steps
--   Client/Step     client/runner/config.go, runner_kv.go: StepResult, calculateP99Latency
--   Client/LoadStep client/runner/runner_kv.go and runner_lock.go: runLoadStep as goroutines, in
--                   steps: the clients, the collector of latencies, the counters, the context;
--                   LoadStep/Rounds, Mixed and LockOnly: with the operations of Client/Kv and
--                   Client/Lock
--   Client/Schedule client/runner/runner_kv.go and runner_lock.go: Run
--   Client/Exporter client/runner/metrics.go: the MetricsExporter
--   Client/Pool     client/runner/runner_kv.go and runner_lock.go: creation and Close of the clients
--                   and sessions of a runner; Pool/Adding: addClients; Pool/Closing: Close by calls,
--                   with its errors
--   Client/Program  client/main.go: load_db, runBenchmarkKV and runBenchmarkLockService in the
--                   goroutine of main that runs the benchmark, by what they send and how they end;
--                   Program/Filled: with the workers of Client/LoadDb
--   Client/Server   client/grpc/server.go: CTRLStream and the rest of BenchmarkServiceServer;
--                   Server/Process: streams at the same time, waitUntilReady and the select of main
--                   in client/main.go, in steps; Process/Sequential: CTRLStream as a run of it;
--                   Process/Graceful: GracefulStop
--   Client/Logger   client/logger/logger.go and `exit` of client/main.go: the log file behind its
--                   buffer
--   Control/Config  control/config/config.go: BenchctlConfig and its validators;
--                   client/runner/config.go: GetRWPercentages
--   Control/Durations
--                   control/config/duration.go; control/config/config.go: ReadConfig, WriteConfig
--   Control/Names   control/cmd/config.go: toSnakeCase, toCamelCase; Names/Words: of names made of words
--   Control/Settings
--                   control/cmd/config.go: the lookup of fields and `config set`
--   Control/Listing control/cmd/config.go: `config list` and `config get`
--   Control/Benchctl
--                   control/cmd/root.go and config.go: GlobalConfig, loadConfig and the subcommands
--                   of config, one process after the other
--   Control/Session control/cmd/run.go: the loop of runBenchmark and terminate;
--                   Session/Signals: with signals and the goroutine that sends the file, which goes
--                   on until the process ends, in steps
--   Control/Launch  control/cmd/run.go and control/grpc/client.go: `benchctl run` around that loop,
--                   from the loaded configuration to the exit code
--   System          client/main.go, client/grpc/server.go and control/cmd/run.go together;
--                   System/Whole: from the configuration file of the control program on;
--                   System/Network: both processes with the messages between them, in steps
-- A component's theorems are in its child modules, their instances in modules named Tests.
--
-- State is passed explicitly; a call that may fail returns a Run: a value, an error, a panic, or no
-- end where the fuel is used up. int, int64 and time.Duration are whole numbers that wrap at 64
-- bits. Where the generator makes a slice, a negative length panics, and so does one above the 2^48
-- bytes that Go can address on such a machine. Fuel bounds the loops that the source does not: the
-- tries of a padding and the calls of GenerateKey by itself in the generator, and the rounds of
-- Run, for which the total duration over the step duration, rounded up, is enough. Goroutines are
-- step relations, with a step for what one of them does at a time; sequential components take a
-- goroutine's part as one step: Client/Program the workers of load_db, Client/Schedule a load step.
--
-- Parameters stand for what is not in the repository: math/rand (a state, Intn in its range, Read
-- that fills), the answers of etcd and the times they take, those of grpc when a connection is
-- opened, the files below the exporter, of the log and of the configuration, the validator package
-- and net, encoding/json, time.ParseDuration and Duration.String, the floating-point product under
-- the 99th percentile and the floating-point draw of reads. Texts are lists of bytes, for ASCII.
--
-- Not modelled: a lack of memory, contexts but for the end of a load step, the status messages of
-- Run, the flags and the listener of the client program, deferred calls on a panic, the file of
-- keys, keep-alive, the padding of printed tables, what log adds to a line, generated protocol
-- code, and the scripts of infra/ and benchmark/.
pub mod Client
pub mod Control
pub mod Generator
pub mod Prelude
pub mod System
