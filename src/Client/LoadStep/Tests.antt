-- ===== src/Client/LoadStep/Tests.antt =====
-- A load step of one lock client, with one operation.
use etcd_cloud_benchmarking.Prelude.{
  ℕ, ◌+◌, ◌*◌, map, length, ◌≤◌, ◌⊎◌, true, ◌≡◌, refl, Bool, true, false, none, some, [], ◌∷◌,
  count_if, arith,
}
use etcd_cloud_benchmarking.Prelude.Int.{ℤ, pos}
use etcd_cloud_benchmarking.Prelude.Run.{ret}
use etcd_cloud_benchmarking.Client.Step.{
  StepResult, new_result, count_operations, calculate_p99_latency,
}
use etcd_cloud_benchmarking.Client.LoadStep.{
  stopped, Operation, LoadStep, collect_latency, add_counters, expire, operate, stop, send,
  hand_over, collect, count_here, close_channel, Move, Continues, Reach, begun, later,
}
use etcd_cloud_benchmarking.Client.LoadStep.Refines.{load_step-refines}
use etcd_cloud_benchmarking.Client.LoadStep.Ends.{work, load_step-ends}
use etcd_cloud_benchmarking.Client.Errors.{GoError}
use etcd_cloud_benchmarking.Client.Lock.{run_lock_only_workload, run_lock_mixed_workload}
use etcd_cloud_benchmarking.Client.LoadStep.Accounts.{operation_of}
use etcd_cloud_benchmarking.Client.LoadStep.LockOnly
use etcd_cloud_benchmarking.Client.LoadStep.LockOnly.{lock_only_step-Counts}
use etcd_cloud_benchmarking.Client.LoadStep.Mixed.{
  Attempt, outcome_of, is_failed_row, lock_failed, only_kv_failed, acquired, mixed_step-Counts,
}
use etcd_cloud_benchmarking.Client.LoadStep.Race.{load_step_reports_early}

abbrev locked : Operation
locked = (none, pos 40 ∷ pos 30 ∷ [])

abbrev over : LoadStep
over = record {
  clients = stopped ∷ [];
  queue = [];
  pending = [];
  result =
      collect_latency (pos 30) (add_counters none (collect_latency (pos 40) (new_result (pos 1))));
  expired = true;
  closed = true;
  reported = none;
  made = locked ∷ [];
}

over-Reach : Reach false 1 1 over
over-Reach =
    later
      (later
        (later
          (later
            (later
              (later
                (later (later begun (operate [] [] locked refl refl))
                  (hand_over [] [] (pos 40) (pos 30 ∷ []) none refl refl))
                (send [] [] (pos 30) [] none refl (omega arith)))
              (count_here [] [] none refl refl))
            (expire refl))
          (stop [] [] refl refl))
        (collect (pos 30) [] refl))
      (close_channel (refl, tt) refl)

load_step-refines_example :
    (let spec = count_operations (new_result (pos 1)) (locked ∷ []) in
      (over.result.operations ≡ spec.operations)
      × (over.result.errors ≡ spec.errors)
      × ((p : ℤ → Bool) → count_if p over.result.latencies ≡ count_if p spec.latencies))
load_step-refines_example = load_step-refines over-Reach (omega arith) refl refl refl

load_step_reports_early_example :
    (s : LoadStep) × (r : StepResult) × Reach true 60 1 s
    × (s.made ≡ (none, pos 7 ∷ []) ∷ [])
    × (s.reported ≡ some r)
    × (r.latencies ≡ [])
    × (r.operations ≡ pos 0)
    × (r.errors ≡ pos 0)
    × (calculate_p99_latency (λ n. n) r ≡ ret r)
    × (r.p99_latency ≡ pos 0)
load_step_reports_early_example = load_step_reports_early 60 (pos 7) none (λ n. n) (omega arith)

load_step-ends_example :
    (((r : StepResult) × (over.reported ≡ some r)) ⊎ ((t : LoadStep) × Move false 1 over t))
    × ((m : ℕ) (t : LoadStep) → Continues false 1 over m t → over.expired ≡ true → m ≤ work over)
load_step-ends_example = load_step-ends over

no_answer : GoError
no_answer = record {
  is_canceled = false;
  is_deadline_exceeded = true;
  etcd_error = none;
  grpc_status = none;
  is_conn_canceled = false;
  message = "deadline exceeded";
}

-- a Put that fails between a TryLock and an Unlock that do not
abbrev hidden : Attempt
hidden = record {
  is_read = false;
  new_val = 7 ∷ [];
  request = record {
    key = [];
    lock_name = [];
    num_clients = pos 1;
    client_id = pos 0;
    run_phase = "main";
    contention_level = pos 0;
  };
  answers = record {
    try_lock = none;
    try_lock_time = pos 40;
    kv = some no_answer;
    kv_time = pos 25;
    unlock = none;
    unlock_time = pos 30;
    now = pos 1000;
  };
}

abbrev after_hidden : LoadStep
after_hidden = record {
  clients = stopped ∷ [];
  queue = [];
  pending = [];
  result = add_counters none (
      collect_latency (pos 30)
        (collect_latency (pos 25) (collect_latency (pos 40) (new_result (pos 1)))));
  expired = true;
  closed = true;
  reported = none;
  made = operation_of (outcome_of hidden) ∷ [];
}

after_hidden-Reach : Reach false 1 1 after_hidden
unfolding run_lock_mixed_workload
after_hidden-Reach =
    later
      (later
        (later
          (later
            (later
              (later
                (later (later begun (operate [] [] (operation_of (outcome_of hidden)) refl refl))
                  (hand_over [] [] (pos 40) (pos 25 ∷ pos 30 ∷ []) none refl refl))
                (hand_over [] [] (pos 25) (pos 30 ∷ []) none refl refl))
              (hand_over [] [] (pos 30) [] none refl refl))
            (count_here [] [] none refl refl))
          (expire refl))
        (stop [] [] refl refl))
      (close_channel (refl, tt) refl)

mixed_step-Counts_example :
    (after_hidden.result.operations ≡ pos 1)
    × (after_hidden.result.errors ≡ pos (count_if lock_failed (hidden ∷ [])))
    × (length after_hidden.result.latencies ≡ 3 * count_if acquired (hidden ∷ []))
    × (count_if is_failed_row (hidden ∷ [])
        ≡ count_if lock_failed (hidden ∷ []) + count_if only_kv_failed (hidden ∷ []))
mixed_step-Counts_example =
    mixed_step-Counts after_hidden-Reach (hidden ∷ []) refl (omega arith) refl refl refl

-- a lock that is acquired and not released
abbrev unreleased : LockOnly.Attempt
unreleased = record {
  request = hidden.request;
  answers = record hidden.answers { unlock = some no_answer };
}

abbrev unreleased_operation : Operation
unreleased_operation = (some no_answer, pos 40 ∷ pos 30 ∷ [])

abbrev after_unreleased : LoadStep
after_unreleased = record after_hidden {
  result =
      add_counters (some no_answer)
        (collect_latency (pos 30) (collect_latency (pos 40) (new_result (pos 1))));
  made = unreleased_operation ∷ [];
}

after_unreleased-Reach : Reach false 1 1 after_unreleased
after_unreleased-Reach =
    later
      (later
        (later
          (later
            (later
              (later (later begun (operate [] [] unreleased_operation refl refl))
                (hand_over [] [] (pos 40) (pos 30 ∷ []) (some no_answer) refl refl))
              (hand_over [] [] (pos 30) [] (some no_answer) refl refl))
            (count_here [] [] (some no_answer) refl refl))
          (expire refl))
        (stop [] [] refl refl))
      (close_channel (refl, tt) refl)

unreleased_made :
    after_unreleased.made ≡ map (λ t. operation_of (LockOnly.outcome_of t)) (unreleased ∷ [])
unfolding run_lock_only_workload
unreleased_made = refl

lock_only_step-Counts_example :
    (after_unreleased.result.operations ≡ pos 1)
    × (after_unreleased.result.errors ≡ pos (count_if LockOnly.lock_failed (unreleased ∷ [])))
    × (length after_unreleased.result.latencies ≡ 2 * count_if LockOnly.acquired (unreleased ∷ []))
    × (count_if LockOnly.lock_failed (unreleased ∷ [])
        ≡ count_if LockOnly.is_failed_row (unreleased ∷ [])
          + count_if LockOnly.only_unlock_failed (unreleased ∷ []))
lock_only_step-Counts_example =
    lock_only_step-Counts after_unreleased-Reach (unreleased ∷ []) unreleased_made (omega arith)
      refl refl refl
