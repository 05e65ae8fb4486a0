-- ===== src/Control/Launch.antt =====
-- control/cmd/run.go and control/grpc/client.go: the command `benchctl run` around the loop of
-- runBenchmark, from the configuration that the process loaded to its exit code. What grpc and the
-- file system answer is an argument. Deferred calls on a panic are left out.
pub mod Connection
pub mod Laws
pub mod Tests
use etcd_cloud_benchmarking.Prelude.{
  ℕ, Bool, true, false, Option, none, some, List, [], ◌∷◌, ◌++◌, String, if◌then◌else◌,
}
use etcd_cloud_benchmarking.Prelude.Run.{Run, ret}
use etcd_cloud_benchmarking.Prelude.Text.{Text}
use etcd_cloud_benchmarking.Client.Server.{Received, config_file}
use etcd_cloud_benchmarking.Control.Benchctl.{Global}
use etcd_cloud_benchmarking.Control.Session.{Session, Next, continues, returns}
use etcd_cloud_benchmarking.Control.Session.Signals.{
  Phase, selecting, receiving, terminating, closing, panicked, returned, ended,
}

-- the error of grpc.NewClient and that of opening the stream; whether the connection is ready, at
-- each look at its state
pub record Dial : Type 0 where
  pub client_err : Option String
  pub stream_err : Option String
  pub ready_at : List Bool

-- what runBenchmark does with its connection
pub data Act : Type 0 where
  connects opens_stream looks sees_ready closes : Act

-- how the process ended: not yet, with an exit code, or by a panic
pub data Status : Type 0 where
  running crashed : Status
  exits : ℕ → Status

pub record Launched : Type 0 where
  pub acts : List Act
  pub status : Status

-- the wait for a ready connection: whether it is over after these looks
unfoldable pub wait_ready : List Bool → List Act × Bool
wait_ready [] = ([], false)
wait_ready (true ∷ rs) = (sees_ready ∷ [], true)
wait_ready (false ∷ rs) = let (acts, over) = wait_ready rs in (looks ∷ acts, over)

-- runBenchmark with its connection: `inner` is what its loop comes to, with none for a panic. A
-- return runs the deferred Close.
unfoldable pub with_stream : List Bool → Option Next → List Act × Option Next
with_stream rs inner =
    let (acts, over) = wait_ready rs in
    if over
    then elim inner [
      | some (returns e) ↦ (acts ++ closes ∷ [], some (returns e))
      | some continues ↦ (acts, some continues)
      | none ↦ (acts, none)
    ]
    else (acts, some continues)

-- `NewBenchmarkServiceClient`, which opens the stream, and what follows
unfoldable pub with_client : Dial → Option Next → List Act × Option Next
with_client d inner = elim d.stream_err [
  | some e ↦ (closes ∷ [], some (returns (some e)))
  | none ↦ let (acts, n) = with_stream d.ready_at inner in (opens_stream ∷ acts, n)
]

-- `runBenchmark`
unfoldable pub run_benchmark_at : Dial → Option Next → List Act × Option Next
run_benchmark_at d inner = elim d.client_err [
  | some e ↦ ([], some (returns (some e)))
  | none ↦ let (acts, n) = with_client d inner in (connects ∷ acts, n)
]

-- log.Fatalf exits with 1
unfoldable pub exit_of : Option Next → Status
exit_of (some continues) = running
exit_of (some (returns none)) = exits 0
exit_of (some (returns (some e))) = exits 1
exit_of none = crashed

-- `RunCmd`
unfoldable pub run_command : Global → Dial → Option Next → Launched
run_command g d inner = elim g.ctl_config [
  | none ↦ record { acts = []; status = exits 1 }
  | some c ↦ let (acts, n) = run_benchmark_at d inner in record { acts = acts; status = exit_of n }
]

-- what runBenchmark came to, where its goroutines are in this phase; between its return and the end
-- of the process the command still runs
unfoldable pub loop_of : Phase → Option Next
loop_of selecting = some continues
loop_of receiving = some continues
loop_of terminating = some continues
loop_of closing = some continues
loop_of panicked = none
loop_of (returned e) = some continues
loop_of (ended e) = some (returns e)

-- `SendConfigFile` of a file with this content, or one that cannot be read: its error, and what is
-- given to the stream
unfoldable pub send_config_file : Option Text → Option String → Option String × List Received
send_config_file none sent = (some "no such file", [])
send_config_file (some content) sent = (sent, config_file content ∷ [])

-- what a run of the loop alone came to; it has no errors of its own
abbrev pub came_to : Run (Next × Session) → Option Next
came_to (ret (n, s)) = some n
came_to m = none
