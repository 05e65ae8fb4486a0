-- ===== src/Client/Schedule/Tests.antt =====
-- The theorems about a whole benchmark at concrete configurations.
use etcd_cloud_benchmarking.Prelude.{◌*◌, ◌≡◌, refl, true, Option, none, ◌∷◌, length, String, arith}
use etcd_cloud_benchmarking.Prelude.Int.{ℤ, pos, negsuc}
use etcd_cloud_benchmarking.Prelude.Run.{Run, ret, timeout}
use etcd_cloud_benchmarking.Control.Config.{BenchctlConfig}
use etcd_cloud_benchmarking.Control.Config.Validate.{get_default_config, minute}
use etcd_cloud_benchmarking.Client.Step.{StepResult, new_result}
use etcd_cloud_benchmarking.Client.Schedule.{Load, Runner, new_runner, rounds, run}
use etcd_cloud_benchmarking.Client.Schedule.Plan.{IsPlan, planned, time_of}
use etcd_cloud_benchmarking.Client.Schedule.Laws.{run-planned}
use etcd_cloud_benchmarking.Client.Schedule.Endless.{rounds_never_end}

abbrev idle : Runner → Load → Run StepResult
idle r l = ret (new_result l.clients)

abbrev always : Runner → ℤ → Option String
always r n = none

default-IsPlan : IsPlan get_default_config (30 * minute) minute 5 5 100
default-IsPlan = record {
  total_eq = refl;
  step_eq = refl;
  initial_eq = refl;
  more_eq = refl;
  most_eq = refl;
  step_pos = omega arith;
  total-lt = omega arith;
  step-lt = omega arith;
  initial-lt = omega arith;
  more-lt = omega arith;
  most-lt = omega arith;
}

run-planned_example :
    (r : Runner) × (run get_default_config idle always 40 ≡ ret r)
    × (r.loads
        ≡ record { duration = pos (5 * minute); clients = pos 5; is_warmup = true }
          ∷ planned (30 * minute) minute 5 5 100 30 0)
    × (time_of (planned (30 * minute) minute 5 5 100 30 0) ≡ 30 * minute)
    × (length r.results ≡ 30)
run-planned_example =
    run-planned get_default_config (30 * minute) minute 5 5 100 30 40 idle always default-IsPlan
      (λ r l. (new_result l.clients, refl)) (λ r n. refl) (omega arith) (omega arith) (omega arith)

-- a step of minus a microsecond
abbrev backwards : BenchctlConfig
backwards = record get_default_config { step_duration = negsuc 999 }

rounds_never_end_example :
    rounds backwards idle always 1_000_000 (pos (30 * minute)) (pos 5) new_runner ≡ timeout
rounds_never_end_example =
    rounds_never_end backwards (30 * minute) 999 1_000_000 (pos 5) new_runner idle always refl
      (omega arith) (omega arith) (λ r l. (new_result l.clients, refl)) (λ r n. refl)
