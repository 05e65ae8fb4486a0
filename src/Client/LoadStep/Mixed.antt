-- ===== src/Client/LoadStep/Mixed.antt =====
-- A load step whose clients run runLockMixedWorkload: its counters against the rows of its metrics.
use etcd_cloud_benchmarking.Prelude.{
  ℕ, ◌+◌, ◌*◌, ◌^◌, ◌<◌, ◌≡◌, refl, ◌∙◌, Bool, true, false, not, ◌&&◌, List, [], ◌∷◌, map, length,
  count_if, if◌then◌else◌, arith,
}
use etcd_cloud_benchmarking.Prelude.Int.{pos}
use etcd_cloud_benchmarking.Prelude.Text.{Text}
use etcd_cloud_benchmarking.Client.Lock.{
  Answers, Request, Outcome, is_nil, run_lock_mixed_workload, lock_mixed_metric,
}
use etcd_cloud_benchmarking.Client.LoadStep.{LoadStep, Reach}
use etcd_cloud_benchmarking.Client.LoadStep.Accounts.{operation_of, total-if, load_step-attempts}

-- a call of runLockMixedWorkload, and what etcd answers
pub record Attempt : Type 0 where
  pub is_read : Bool
  pub new_val : Text
  pub request : Request
  pub answers : Answers

abbrev pub outcome_of : Attempt → Outcome
outcome_of t = run_lock_mixed_workload t.is_read t.new_val t.request t.answers

-- the row of the attempt says that it failed
abbrev pub is_failed_row : Attempt → Bool
is_failed_row t = not (outcome_of t).metric.request.success

-- TryLock or Unlock failed
abbrev pub lock_failed : Attempt → Bool
lock_failed t = not (is_nil t.answers.try_lock && is_nil t.answers.unlock)

-- only the Get or Put failed
abbrev pub only_kv_failed : Attempt → Bool
only_kv_failed t = not (is_nil t.answers.kv) && not (lock_failed t)

abbrev pub acquired : Attempt → Bool
acquired t = is_nil t.answers.try_lock

-- one attempt: its error, its row and its latencies
module _ (t : Attempt) where
  err-is_nil : is_nil (outcome_of t).err ≡ not (lock_failed t)
  unfolding run_lock_mixed_workload is_nil
  err-is_nil = ground arith

  row_lem :
      (if is_failed_row t then 1 else 0)
      ≡ (if lock_failed t then 1 else 0) + (if only_kv_failed t then 1 else 0)
  unfolding run_lock_mixed_workload lock_mixed_metric is_nil
  row_lem = ground arith

  latencies_lem : length (outcome_of t).latencies ≡ (if acquired t then 3 else 0)
  unfolding run_lock_mixed_workload is_nil
  latencies_lem = ground arith

rows_lem :
    (ts : List Attempt)
    → count_if is_failed_row ts ≡ count_if lock_failed ts + count_if only_kv_failed ts
rows_lem [] = refl
rows_lem (t ∷ ts) = omega (arith, row_lem t, rows_lem ts)

-- When the clients of a load step run runLockMixedWorkload, with fewer than 2^63 attempts, all of
-- them have returned, the channel is drained and no counter is outstanding, in whatever order the
-- goroutines took their steps: the operations are as many as the attempts, the errors as many as
-- the attempts whose TryLock or Unlock failed, and there are three latencies for each lock that was
-- acquired. The rows of the metrics that say failure are as many as these attempts together with
-- those whose Get or Put only failed, which the errors leave out.
pub mixed_step-Counts :
    {room n : ℕ} {s : LoadStep}
    → Reach false room n s
    → (ts : List Attempt) → s.made ≡ map (λ t. operation_of (outcome_of t)) ts
    → length ts < 2 ^ 63
    → s.closed ≡ true
    → s.queue ≡ []
    → s.pending ≡ []
    → (s.result.operations ≡ pos (length ts))
      × (s.result.errors ≡ pos (count_if lock_failed ts))
      × (length s.result.latencies ≡ 3 * count_if acquired ts)
      × (count_if is_failed_row ts ≡ count_if lock_failed ts + count_if only_kv_failed ts)
mixed_step-Counts r ts m b c q e =
    let (ops, errs, lats) =
      load_step-attempts (λ t. operation_of (outcome_of t)) lock_failed
        (λ t. if acquired t then 3 else 0) err-is_nil latencies_lem r ts m b c q e in
    (ops, errs, lats ∙ total-if 3 acquired ts, rows_lem ts)
