-- ===== src/Client/Kv.antt =====
-- client/runner/runner_kv.go: one operation of a key-value client. The random source and what etcd
-- answers are arguments; the call made of etcd, the latency sent and the metric are the result.
pub mod Laws
use etcd_cloud_benchmarking.Prelude.{
  ℕ, ◌≡◌, Bool, true, false, Option, none, some, List, [], length, get_elem?, String, if◌then◌else◌,
}
use etcd_cloud_benchmarking.Prelude.Int.{ℤ, pos}
use etcd_cloud_benchmarking.Prelude.Run.{Run, ret, or_panic, ◌>>=◌}
use etcd_cloud_benchmarking.Prelude.Text.{Text}
use etcd_cloud_benchmarking.Generator.Random.{Source}
use etcd_cloud_benchmarking.Client.Errors.{GoError}
use etcd_cloud_benchmarking.Client.Metric.{RequestMetric}
use etcd_cloud_benchmarking.Client.Lock.{Call, get, put, status_of, is_nil}
use etcd_cloud_benchmarking.Client.Lock.Select.{intn_checked}

-- `rg.Float64()*100 < float64(percent)`: a draw from [0, 1), so that it always passes at 100 per
-- cent and never at 0
pub record Chance (R : Source) : Type 0 where
  pub below : ℤ → R.State → Bool × R.State
  pub below_all : (s : R.State) → (below (pos 100) s).0 ≡ true
  pub below_none : (s : R.State) → (below (pos 0) s).0 ≡ false

pub record Setup : Type 0 where
  pub read_percent : ℤ
  pub value_size : ℕ
  pub keys : List Text
  pub num_clients : ℤ
  pub client_id : ℤ
  pub run_phase : String

pub record Answer : Type 0 where
  pub failure : Option GoError
  pub time : ℤ
  pub now : ℤ

pub record Outcome : Type 0 where
  pub err : Option GoError
  pub call : Call
  pub latency : ℤ
  pub metric : RequestMetric

-- the request, timed, and its metric
unfoldable pub request : Setup → Answer → Bool → Text → Text → Outcome
request c a is_read key new_val = record {
  err = a.failure;
  call = if is_read then get key else put key new_val;
  latency = a.time;
  metric = record {
    timestamp = a.now;
    key = key;
    operation = if is_read then "read" else "write";
    latency = a.time;
    success = is_nil a.failure;
    status_code = (status_of a.failure).0;
    status_text = (status_of a.failure).1;
    num_clients = c.num_clients;
    client_id = c.client_id;
    run_phase = c.run_phase;
  };
}

-- `newVal, _ := GenerateValue(...)`: an error leaves no bytes
abbrev pub value_or_none : Option Text → Text
value_or_none none = []
value_or_none (some v) = v

module _ (R : Source) (C : Chance R) where
  -- one round of a client: operation, key and value are drawn, then the request is made
  unfoldable pub kv_operation : Setup → Answer → R.State → Run (Outcome × R.State)
  kv_operation c a s = do
    let (is_read, s₁) = C.below c.read_percent s
    (i, s₂) ← intn_checked R (pos (length c.keys)) s₁
    key ← or_panic (get_elem? c.keys i)
    let (v, s₃) = R.read c.value_size s₂
    ret (request c a is_read key (value_or_none v), s₃)
