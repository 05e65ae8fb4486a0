-- ===== src/Client/Schedule.antt =====
-- `Run` of client/runner/runner_kv.go and runner_lock.go, which are the same but for the messages.
-- What the load steps see and whether clients can be added is decided by arguments.
pub mod Arith
pub mod Plan
pub mod Laws
pub mod Tests
pub mod Endless
use etcd_cloud_benchmarking.Prelude.{
  ℕ, zero, suc, ◌+◌, ◌≡◌, Bool, true, false, Option, none, some, List, [], ◌∷◌, ◌++◌, String,
  if◌then◌else◌,
}
use etcd_cloud_benchmarking.Prelude.Int.{ℤ, pos, negsuc, ltb_ℤ, leb_ℤ, ◌+ℤ◌, ◌-ℤ◌, wrap64}
use etcd_cloud_benchmarking.Prelude.Run.{Run, ret, fails, panics, timeout, ◌>>=◌}
use etcd_cloud_benchmarking.Control.Config.{BenchctlConfig}
use etcd_cloud_benchmarking.Client.Step.{StepResult}

-- a call of `runLoadStep`, with the timeout of its context
pub record Load : Type 0 where
  pub duration : ℤ
  pub clients : ℤ
  pub is_warmup : Bool

-- the runner, as far as the loop reads and writes it: the load steps made, their results, the calls
-- of `addClients`
pub record Runner : Type 0 where
  pub loads : List Load
  pub results : List StepResult
  pub added : List ℤ

abbrev pub new_runner : Runner
new_runner = record { loads = []; results = []; added = [] }

-- `acutalIncClients`
unfoldable pub increase : BenchctlConfig → ℤ → ℤ
increase c cur =
    if ltb_ℤ c.max_clients (wrap64 (cur +ℤ c.client_step_size))
    then wrap64 (c.max_clients -ℤ cur)
    else c.client_step_size

-- `actualDuration`
unfoldable pub actual_duration : BenchctlConfig → ℤ → ℤ
actual_duration c remaining = if ltb_ℤ remaining c.step_duration then remaining else c.step_duration

module _ (c : BenchctlConfig) (run_load_step : Runner → Load → Run StepResult)
    (add_clients : Runner → ℤ → Option String) where
  -- a load step is noted, and its result is kept unless it is the warm-up's
  unfoldable pub load : Runner → Load → Run Runner
  load r l = do
    result ← run_load_step r l
    ret (record r {
      loads = r.loads ++ l ∷ [];
      results = if l.is_warmup then r.results else r.results ++ result ∷ [];
    })

  unfoldable pub add : Runner → ℤ → Run Runner
  add r n = elim (add_clients r n) [
    | none ↦ ret (record r { added = r.added ++ n ∷ [] })
    | some e ↦ fails e
  ]

  -- the end of a round: more clients, if there is room
  unfoldable pub grow : Runner → ℤ → Run (Runner × ℤ)
  grow r cur =
      if leb_ℤ c.max_clients cur
      then ret (r, cur)
      else do let n = increase c cur; r' ← add r n; ret (r', wrap64 (cur +ℤ n))

  -- `for remainingTime > 0`
  unfoldable pub rounds : ℕ → ℤ → ℤ → Runner → Run Runner
  rounds zero remaining cur r = timeout
  rounds (suc fuel) remaining cur r = elim (ltb_ℤ (pos 0) remaining) [
    | false ↦ ret r
    | true ↦ do
      r₁ ←
          load r
            (record { duration = actual_duration c remaining; clients = cur; is_warmup = false })
      (r₂, cur') ← grow r₁ cur
      rounds fuel (wrap64 (remaining -ℤ c.step_duration)) cur' r₂
  ]

  -- `Run`: the warm-up, then the rounds
  unfoldable pub run : ℕ → Run Runner
  run fuel = do
    r ←
        load new_runner
          (record { duration = c.warmup_duration; clients = c.initial_clients; is_warmup = true })
    rounds fuel c.total_duration c.initial_clients r
