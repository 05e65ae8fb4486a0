-- ===== src/Client/Metric.antt =====
-- client/runner/metrics.go: the records of one operation, and their rows in the CSV file.
pub mod Columns
pub mod Tests
use etcd_cloud_benchmarking.Prelude.{
  ℕ, suc, ◌/◌, Bool, true, false, List, [], ◌∷◌, ◌++◌, String, if◌then◌else◌,
}
use etcd_cloud_benchmarking.Prelude.Int.{ℤ, pos, negsuc, ◌-ℤ◌}
use etcd_cloud_benchmarking.Prelude.Text.{Text, codes, itoa}

pub record RequestMetric : Type 0 where
  pub timestamp : ℤ
  pub key : Text
  pub operation : String
  pub latency : ℤ
  pub success : Bool
  pub status_code : ℤ
  pub status_text : String
  pub num_clients : ℤ
  pub client_id : ℤ
  pub run_phase : String

pub record LockMetric : Type 0 where
  pub request : RequestMetric
  pub lock_name : Text
  pub aquire_latency : ℤ
  pub release_latency : ℤ
  pub lock_op_status_code : ℤ
  pub lock_op_status_text : String
  pub contention_level : ℤ

-- `Milliseconds` of a duration, rounded towards zero
unfoldable pub milliseconds : ℤ → ℤ
milliseconds (pos n) = pos (n / 1_000_000)
milliseconds (negsuc n) = pos 0 -ℤ pos (suc n / 1_000_000)

unfoldable pub format_bool : Bool → Text
format_bool b = if b then codes "true" else codes "false"

unfoldable pub request_header : List Text
request_header =
    codes "unix_timestamp_nano"
    ∷ codes "key"
    ∷ codes "operation"
    ∷ codes "latency_ms"
    ∷ codes "success"
    ∷ codes "status_code"
    ∷ codes "status_text"
    ∷ codes "num_clients"
    ∷ codes "client_id"
    ∷ codes "run_phase"
    ∷ []

unfoldable pub request_row : RequestMetric → List Text
request_row m =
    itoa m.timestamp
    ∷ m.key
    ∷ codes m.operation
    ∷ itoa (milliseconds m.latency)
    ∷ format_bool m.success
    ∷ itoa m.status_code
    ∷ codes m.status_text
    ∷ itoa m.num_clients
    ∷ itoa m.client_id
    ∷ codes m.run_phase
    ∷ []

unfoldable pub lock_header : List Text
lock_header =
    request_header
    ++ codes "lock_name"
      ∷ codes "aquire_latency_ms"
      ∷ codes "release_latency_ms"
      ∷ codes "lock_op_status_code"
      ∷ codes "lock_op_status_text"
      ∷ codes "contention_level"
      ∷ []

unfoldable pub lock_row : LockMetric → List Text
lock_row m =
    request_row m.request
    ++ m.lock_name
      ∷ itoa (milliseconds m.aquire_latency)
      ∷ itoa (milliseconds m.release_latency)
      ∷ itoa m.lock_op_status_code
      ∷ codes m.lock_op_status_text
      ∷ itoa m.contention_level
      ∷ []
