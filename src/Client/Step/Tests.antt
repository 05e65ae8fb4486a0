-- ===== src/Client/Step/Tests.antt =====
-- The theorems about the results of steps at concrete steps.
use mathlib.Core.List.{Mem}
use etcd_cloud_benchmarking.Prelude.{
  ℕ, ◌+◌, ◌*◌, ◌/◌, ◌≤◌, ◌≡◌, refl, true, false, Option, none, some, List, [], ◌∷◌, length, arith,
}
use etcd_cloud_benchmarking.Prelude.Int.{ℤ, pos}
use etcd_cloud_benchmarking.Prelude.Run.{ret}
use etcd_cloud_benchmarking.Client.Errors.{GoError}
use etcd_cloud_benchmarking.Client.Step.{
  StepResult, new_result, count_operation, count_operations, calculate_p99_latency,
}
use etcd_cloud_benchmarking.Client.Step.Laws.{at_most, p99_covers}

abbrev late : GoError
late = record {
  is_canceled = false;
  is_deadline_exceeded = true;
  etcd_error = none;
  grpc_status = none;
  is_conn_canceled = false;
  message = "deadline exceeded";
}

abbrev ended : List (Option GoError × List ℤ)
ended = (none, pos 8 ∷ pos 3 ∷ []) ∷ (some late, []) ∷ (none, pos 5 ∷ []) ∷ []

-- the rounded-up product in whole numbers
abbrev ceil_99 : ℕ → ℕ
ceil_99 n = (n * 99 + 99) / 100

abbrev measured : StepResult
measured = count_operations (new_result (pos 4)) ended

three_latencies : measured.latencies ≡ pos 8 ∷ pos 3 ∷ pos 5 ∷ []
unfolding count_operations count_operation new_result
three_latencies = refl

p99_covers_example :
    (v : ℤ) × (calculate_p99_latency ceil_99 measured ≡ ret (record measured { p99_latency = v }))
    × Mem v measured.latencies
    × (99 * length measured.latencies ≤ 100 * at_most v measured.latencies)
p99_covers_example =
    p99_covers ceil_99 measured (rw (three_latencies) (omega arith))
      (rw (three_latencies) (omega arith)) (rw (three_latencies) (omega arith))
      (rw (three_latencies) (omega arith))
