-- ===== src/Control/Config.antt =====
-- control/config/config.go: `BenchctlConfig`. Durations are `time.Duration`, whole nanoseconds; a nil
-- slice of endpoints is `none`.
pub mod Validate
pub mod Laws
use etcd_cloud_benchmarking.Prelude.{List, Option, String}
use etcd_cloud_benchmarking.Prelude.Int.{ℤ}
use etcd_cloud_benchmarking.Prelude.Text.{Text}

pub record BenchctlConfig : Type 0 where
  pub seed : ℤ
  pub num_keys : ℤ
  pub key_size : ℤ
  pub value_size : ℤ
  pub endpoints : Option (List Text)
  pub warmup_duration : ℤ
  pub step_duration : ℤ
  pub total_duration : ℤ
  pub initial_clients : ℤ
  pub client_step_size : ℤ
  pub max_clients : ℤ
  pub max_wait_time : ℤ
  pub workload_type : String
  pub scenario : String
  pub metrics_file : String
