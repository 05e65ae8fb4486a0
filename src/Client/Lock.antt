-- ===== src/Client/Lock.antt =====
-- client/runner/runner_lock.go: one operation of a lock client. What etcd answers, and how long it
-- takes, is an argument; the calls made of it, the latencies sent and the metric are the result.
pub mod Accounting
pub mod Select
use etcd_cloud_benchmarking.Prelude.{
  Bool, true, false, Option, none, some, List, [], ◌∷◌, ◌++◌, String, if◌then◌else◌,
}
use etcd_cloud_benchmarking.Prelude.Int.{ℤ, pos, negsuc, int_eq, ◌+ℤ◌, wrap64}
use etcd_cloud_benchmarking.Prelude.Text.{Text}
use etcd_cloud_benchmarking.Client.Errors.{GoError, get_err_info}
use etcd_cloud_benchmarking.Client.Metric.{RequestMetric, LockMetric}

-- what etcd answers to TryLock, to Get or Put, and to Unlock, with the time of each, and the clock
-- when the metric is made
pub record Answers : Type 0 where
  pub try_lock : Option GoError
  pub try_lock_time : ℤ
  pub kv : Option GoError
  pub kv_time : ℤ
  pub unlock : Option GoError
  pub unlock_time : ℤ
  pub now : ℤ

-- the calls that an operation makes
pub data Call : Type 0 where
  try_lock unlock : Call
  get : Text → Call
  put : Text → Text → Call

-- the arguments that end up in the metric
pub record Request : Type 0 where
  pub key : Text
  pub lock_name : Text
  pub num_clients : ℤ
  pub client_id : ℤ
  pub run_phase : String
  pub contention_level : ℤ

pub record Outcome : Type 0 where
  pub err : Option GoError
  pub calls : List Call
  pub latencies : List ℤ
  pub metric : LockMetric

-- the status of an error, and that of none
unfoldable pub status_of : Option GoError → ℤ × String
status_of none = (pos 0, "")
status_of (some e) = get_err_info e

-- `if err != nil && lockOpStatusCode == 0`
unfoldable pub late_status : Option GoError → ℤ × String → ℤ × String
unfolding int_eq
late_status none s = s
late_status (some e) s = if int_eq s.0 (pos 0) then get_err_info e else s

unfoldable pub lock_only_metric : Request → ℤ → ℤ → ℤ → Bool → ℤ × String → LockMetric
lock_only_metric q now acquired released success op = record {
  request = record {
    timestamp = now;
    key = [];
    operation = "lock";
    latency = wrap64 (acquired +ℤ released);
    success = success;
    status_code = pos 0;
    status_text = "";
    num_clients = q.num_clients;
    client_id = q.client_id;
    run_phase = q.run_phase;
  };
  lock_name = q.lock_name;
  aquire_latency = acquired;
  release_latency = released;
  lock_op_status_code = op.0;
  lock_op_status_text = op.1;
  contention_level = q.contention_level;
}

-- `runLockOnlyWorkload`
unfoldable pub run_lock_only_workload : Request → Answers → Outcome
unfolding status_of late_status
run_lock_only_workload q a = elim a.try_lock [
  | none ↦ record {
    err = a.unlock;
    calls = try_lock ∷ unlock ∷ [];
    latencies = a.try_lock_time ∷ a.unlock_time ∷ [];
    metric =
        lock_only_metric q a.now a.try_lock_time a.unlock_time true
          (late_status a.unlock (status_of a.unlock));
  }
  | some e ↦ record {
    err = some e;
    calls = try_lock ∷ [];
    latencies = [];
    metric = lock_only_metric q a.now (pos 0) (pos 0) false (late_status (some e) (pos 0, ""));
  }
]

unfoldable pub is_nil : Option GoError → Bool
is_nil none = true
is_nil (some e) = false

unfoldable pub lock_mixed_metric :
    Request → Bool → ℤ → ℤ → ℤ → ℤ → Bool → ℤ × String → ℤ × String → LockMetric
lock_mixed_metric q is_read now acquired kv released success status op = record {
  request = record {
    timestamp = now;
    key = q.key;
    operation = if is_read then "lock-r" else "lock-w";
    latency = wrap64 (wrap64 (acquired +ℤ kv) +ℤ released);
    success = success;
    status_code = status.0;
    status_text = status.1;
    num_clients = q.num_clients;
    client_id = q.client_id;
    run_phase = q.run_phase;
  };
  lock_name = q.lock_name;
  aquire_latency = acquired;
  release_latency = released;
  lock_op_status_code = op.0;
  lock_op_status_text = op.1;
  contention_level = q.contention_level;
}

-- `runLockMixedWorkload`: the error of Get or Put is overwritten by that of Unlock
unfoldable pub run_lock_mixed_workload : Bool → Text → Request → Answers → Outcome
unfolding status_of late_status is_nil
run_lock_mixed_workload is_read new_val q a = elim a.try_lock [
  | none ↦ record {
    err = a.unlock;
    calls = try_lock ∷ (if is_read then get q.key else put q.key new_val) ∷ unlock ∷ [];
    latencies = a.try_lock_time ∷ a.kv_time ∷ a.unlock_time ∷ [];
    metric =
        lock_mixed_metric q is_read a.now a.try_lock_time a.kv_time a.unlock_time
          (if is_nil a.kv then is_nil a.unlock else false) (status_of a.kv)
          (late_status a.unlock (status_of a.unlock));
  }
  | some e ↦ record {
    err = some e;
    calls = try_lock ∷ [];
    latencies = [];
    metric =
        lock_mixed_metric q is_read a.now (pos 0) (pos 0) (pos 0) false (pos 0, "")
          (late_status (some e) (pos 0, ""));
  }
]
