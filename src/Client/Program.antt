-- ===== src/Client/Program.antt =====
-- client/main.go: the goroutine of `main` that loads the database, runs the
-- benchmark of the scenario and tells the control program. A computation is a `Program`: what it
-- sends and closes in order, and how it ends.
pub mod Laws
pub mod Completes
pub mod Filled
pub mod Tests
use text.Mathlib.Text.{◌==◌ as str_eq}
use etcd_cloud_benchmarking.Prelude.{
  ℕ, zero, suc, ◌≡◌, Bool, true, false, Option, none, some, List, [], ◌∷◌, ◌++◌, map, String,
  count_if, if◌then◌else◌,
}
use etcd_cloud_benchmarking.Prelude.Int.{ℤ, pos, negsuc, pos_part}
use etcd_cloud_benchmarking.Prelude.Text.{Text}
use etcd_cloud_benchmarking.Prelude.Run.{Run, ret, fails, panics, timeout, ◌>>=◌ as or_error}
use etcd_cloud_benchmarking.Control.Config.{BenchctlConfig}
use etcd_cloud_benchmarking.Control.Config.Validate.{get_rw_percentages}
use etcd_cloud_benchmarking.Generator.Random.{Source}
use etcd_cloud_benchmarking.Generator.{Generator, generate_data}
use etcd_cloud_benchmarking.Generator.Data.{Entry}
use etcd_cloud_benchmarking.Client.Lock.Select.{lock_names}
use etcd_cloud_benchmarking.Client.Step.{StepResult}
use etcd_cloud_benchmarking.Client.Schedule.{Load, Runner, run}
use etcd_cloud_benchmarking.Client.Pool.{
  Cluster, Store, nothing_open, Created, created, failed, new_clients, new_sessions,
}
use etcd_cloud_benchmarking.Client.Pool.Adding.{
  Pool, Added, grown, stopped, pool_of, add_clients, add_sessions, close_pool,
}

-- a status message, the one with a step's result, the Close of a runner with what is open after it,
-- and BenchmarkFinished
pub data Event : Type 0 where
  status : String → Event
  shows : StepResult → Event
  closes : Store → Event
  finished : Event

-- `value` if the function returned; the program was ended by `exit(1)` or a panic, or does not end
pub data Ending {ℓ} (A : Type ℓ) : Type ℓ where
  value : A → Ending A
  exited crashed endless : Ending A

pub record Program {ℓ} (A : Type ℓ) : Type ℓ where
  pub events : List Event
  pub ending : Ending A

-- a function that returns nothing
abbrev pub Action : Type 0
Action = Program {0} Unit

-- what a function sends, and what it ends the program with
abbrev pub sends : List Event → Action
sends es = record { events = es; ending = value tt }

abbrev pub ends {ℓ} : {A : Type ℓ} → List Event → Ending A → Program A
ends es e = record { events = es; ending = e }

module _ {ℓ κ} {A : Type ℓ} {B : Type κ} where
  abbrev pub after : List Event → Ending A → (A → Program B) → Program B
  after es (value a) next = record { events = es ++ (next a).events; ending = (next a).ending }
  after es exited next = ends es exited
  after es crashed next = ends es crashed
  after es endless next = ends es endless

  infixl 5 ◌>>=◌
  -- what follows runs only after a return
  abbrev pub ◌>>=◌ : Program A → (A → Program B) → Program B
  p >>= next = after p.events p.ending next

-- `if err != nil { ...; exit(1) }`, with the messages before the exit
abbrev pub or_exit {ℓ} : {A : Type ℓ} → List Event → Run A → Program A
or_exit es (ret a) = ends [] (value a)
or_exit es (fails e) = ends es exited
or_exit es panics = ends [] crashed
or_exit es timeout = ends [] endless

abbrev pub or_fail {ℓ} : {A : Type ℓ} → Option A → Run A
or_fail none = fails "no value"
or_fail (some a) = ret a

-- what decides how the calls of other code end: the seeded random source; whether the clients of
-- load_db can be created; the order of the range over the data, which meets every entry once;
-- whether etcd takes clients and sessions, and the disk the metrics file; the load steps of the two
-- runners, given their keys or lock names
pub record World (R : Source) : Type 0 where
  pub seeded : ℤ → R.State
  pub dials : Bool
  pub range : List Entry → List Entry
  pub range_counts :
      (es : List Entry) (test : Entry → Bool) → count_if test (range es) ≡ count_if test es
  pub cluster : Cluster
  pub exporter_ok : Bool
  pub kv_step : ℕ × ℕ → List Text → Runner → Load → Run StepResult
  pub lock_step : List Text → Runner → Load → Run StepResult

-- the calls of addClients that a benchmark made, one after the other
unfoldable pub add_all : (ℕ → Pool → Added) → List ℤ → Pool → Added
add_all add [] p = grown p
add_all add (n ∷ ns) p = elim (add (pos_part n) p) [
  | grown q ↦ add_all add ns q
  | stopped q ↦ stopped q
]

-- the next one
unfoldable pub add_more : (ℕ → Pool → Added) → Pool → Runner → ℤ → Option String
add_more add p r n = elim (add_all add (r.added ++ n ∷ []) p) [
  | grown q ↦ none
  | stopped q ↦ some "failed to create new client"
]

-- the clients and sessions of a new runner, whose metrics file is created last
unfoldable pub new_pool : Bool → Created → Run Pool
new_pool exporter_ok (failed s) = fails "failed to create etcd client"
new_pool exporter_ok (created cs ss s) =
    if exporter_ok
    then ret (record { clients = cs; sessions = ss; open_ones = s })
    else fails "failed to create metrics exporter"

-- the runner if its locks can be named: one for each of `num_keys` keys
unfoldable pub with_locks : ℕ → List Text → Run Pool → Run Pool
with_locks num_keys keys made =
    or_error made λ p. or_error (lock_names num_keys keys) λ names. ret p

module _ (R : Source) (c : BenchctlConfig) (w : World R) (fuel : ℕ) where
  -- what `runBenchmarkKV` and `runBenchmarkLockService` have in common, from the new runner on; the
  -- deferred Close runs when the function returns, and not on an exit
  unfoldable pub run_runner :
      (ℕ → Pool → Added) → (Runner → Load → Run StepResult) → Run Pool → Action
  run_runner add run_load_step made = do
    p ← or_exit (status "Failed to create benchmark runner" ∷ []) made
    r ← or_exit (status "Benchmark failed" ∷ []) (run c run_load_step (add_more add p) fuel)
    _ ← sends (status "Benchmark completed. Overall results:" ∷ map shows r.results)
    sends (closes (close_pool (pool_of (add_all add r.added p))) ∷ [])

  -- `NewBenchmarkRunnerKV`; a negative number of clients panics where their slice is made
  unfoldable pub new_runner_kv : Run Pool
  unfolding new_pool
  new_runner_kv = elim (c.initial_clients) [
    | pos n ↦ new_pool w.exporter_ok (new_clients w.cluster n 0 [] nothing_open)
    | negsuc n ↦ panics
  ]

  -- `NewBenchmarkRunnerLock`, which names its locks last; the names are those of `lock_names`
  unfoldable pub new_runner_lock : List Text → Run Pool
  unfolding new_pool
  new_runner_lock keys = with_locks (pos_part c.num_keys) keys (elim (c.initial_clients) [
    | pos n ↦ new_pool w.exporter_ok (new_sessions w.cluster n 0 [] nothing_open)
    | negsuc n ↦ panics
  ])

  unfoldable pub run_benchmark_kv : List Text → Action
  run_benchmark_kv keys = do
    shares ← or_exit [] (or_fail (get_rw_percentages c.workload_type))
    run_runner (add_clients w.cluster) (w.kv_step shares keys) new_runner_kv

  unfoldable pub run_benchmark_lock_service : List Text → Action
  run_benchmark_lock_service keys =
      run_runner (add_sessions w.cluster) (w.lock_step keys) (new_runner_lock keys)

  -- `load_db` from the generated data on, with its workers as one step: the keys that it collects
  unfoldable pub load_entries : List Entry → Program (List Text)
  load_entries entries = do
    _ ← sends (
        status "Number of key-value pairs generated" ∷ status "Loading data into the database" ∷ [])
    _ ← if w.dials then sends [] else ends [] exited
    _ ← sends (status "Synthetic data generated and loaded successfully" ∷ [])
    ends [] (value (map (λ e. e.0) (w.range entries)))

  -- `GenerateData` as `load_db` calls it
  unfoldable pub generated : Run (List Entry × Generator R)
  generated =
      generate_data R fuel c.num_keys c.key_size c.value_size
        (record { rg = w.seeded c.seed; used = [] })

  unfoldable pub load_db : Program (List Text)
  load_db = do
    _ ← sends (status "Generating synthetic data ..." ∷ [])
    (entries, g) ← or_exit (status "Number of key-value pairs generated" ∷ []) generated
    load_entries entries

  -- the benchmark of the scenario
  unfoldable pub run_scenario : List Text → Action
  run_scenario keys =
      if str_eq c.scenario "kv-store"
      then (do
        _ ← sends (status "Start running KV store benchmark ..." ∷ [])
        run_benchmark_kv keys)
      else (do
        _ ← sends (status "Start running Lock service benchmark" ∷ [])
        run_benchmark_lock_service keys)

  -- the goroutine of `main`, once the server is ready
  unfoldable pub client : Action
  client = do
    _ ← sends (status "Start generating and loading data into the database" ∷ [])
    keys ← load_db
    _ ← run_scenario keys
    sends (finished ∷ [])
