-- ===== src/Client/Step.antt =====
-- The result of a load step (client/runner/config.go, runner_kv.go, runner_lock.go): the counters
-- that the clients of a step add to, and the 99th percentile of the latencies. An operation's
-- counters and latencies are added in one go when it ends; the goroutines that add them in the
-- source are not awaited.
pub mod Laws
pub mod Tests
use etcd_cloud_benchmarking.Prelude.{
  ℕ, zero, suc, ◌+◌, ◌-◌, ◌≡◌, Bool, Option, none, some, List, [], ◌∷◌, ◌++◌, length, get_elem?,
  if◌then◌else◌,
}
use etcd_cloud_benchmarking.Prelude.Int.{ℤ, pos, negsuc, ltb_ℤ, ◌+ℤ◌, ◌-ℤ◌, wrap64}
use etcd_cloud_benchmarking.Prelude.Run.{Run, ret, panics, or_panic, ◌>>=◌}
use etcd_cloud_benchmarking.Prelude.Sort.{sort_slice}
use etcd_cloud_benchmarking.Client.Errors.{GoError}
use etcd_cloud_benchmarking.Client.Lock.{is_nil}

-- `StepResult`, without its two times
pub record StepResult : Type 0 where
  pub num_clients : ℤ
  pub latencies : List ℤ
  pub operations : ℤ
  pub errors : ℤ
  pub p99_latency : ℤ

unfoldable pub new_result : ℤ → StepResult
new_result n = record {
  num_clients = n;
  latencies = [];
  operations = pos 0;
  errors = pos 0;
  p99_latency = pos 0;
}

-- the end of an operation: its latencies are collected and its counters are added
unfoldable pub count_operation : StepResult → Option GoError × List ℤ → StepResult
unfolding is_nil
count_operation r (err, sent) = record r {
  latencies = r.latencies ++ sent;
  operations = wrap64 (r.operations +ℤ pos 1);
  errors = if is_nil err then r.errors else wrap64 (r.errors +ℤ pos 1);
}

-- the operations of all clients of a step, in the order in which they end
unfoldable pub count_operations : StepResult → List (Option GoError × List ℤ) → StepResult
count_operations r [] = r
count_operations r (o ∷ os) = count_operations (count_operation r o) os

-- `sorted[index]`
unfoldable pub index_ℤ : List ℤ → ℤ → Run ℤ
index_ℤ xs (pos i) = or_panic (get_elem? xs i)
index_ℤ xs (negsuc i) = panics

-- `int(math.Ceil(float64(n)*0.99))` is floating-point arithmetic, and so a parameter
module _ (ceil_99 : ℕ → ℕ) where
  -- `calculateP99Latency`
  unfoldable pub calculate_p99_latency : StepResult → Run StepResult
  unfolding index_ℤ
  calculate_p99_latency r = elim r.latencies [
    | [] ↦ ret r
    | x ∷ xs ↦ do
      let sorted = sort_slice ltb_ℤ (x ∷ xs)
      p ← index_ℤ sorted (wrap64 (pos (ceil_99 (length sorted)) -ℤ pos 1))
      ret (record r { p99_latency = p })
  ]
