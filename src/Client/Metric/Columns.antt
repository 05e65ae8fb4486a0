-- ===== src/Client/Metric/Columns.antt =====
-- Rows and headers of metrics line up.
use etcd_cloud_benchmarking.Prelude.{
  ◌≡◌, refl, Option, none, some, List, [], ◌∷◌, length, if◌then◌else◌,
}
use etcd_cloud_benchmarking.Prelude.Text.{Text, codes, itoa, text_eq}
use etcd_cloud_benchmarking.Client.Metric.{
  RequestMetric, LockMetric, milliseconds, format_bool, request_header, request_row, lock_header,
  lock_row,
}

-- what a row has under the first column of this name
abbrev pub column : Text → List Text → List Text → Option Text
column name [] row = none
column name (h ∷ hs) [] = none
column name (h ∷ hs) (v ∷ row) = if text_eq h name then some v else column name hs row

-- what a file with these rows says of an operation
pub record Shows (m : RequestMetric) (header row : List Text) : Type 0 where
  pub timestamp : column (codes "unix_timestamp_nano") header row ≡ some (itoa m.timestamp)
  pub key : column (codes "key") header row ≡ some m.key
  pub operation : column (codes "operation") header row ≡ some (codes m.operation)
  pub latency : column (codes "latency_ms") header row ≡ some (itoa (milliseconds m.latency))
  pub success : column (codes "success") header row ≡ some (format_bool m.success)
  pub status_code : column (codes "status_code") header row ≡ some (itoa m.status_code)
  pub status_text : column (codes "status_text") header row ≡ some (codes m.status_text)
  pub num_clients : column (codes "num_clients") header row ≡ some (itoa m.num_clients)
  pub client_id : column (codes "client_id") header row ≡ some (itoa m.client_id)
  pub run_phase : column (codes "run_phase") header row ≡ some (codes m.run_phase)
  pub aligned : length row ≡ length header

pub record ShowsLock (m : LockMetric) (header row : List Text) : Type 0 where
  pub request : Shows m.request header row
  pub lock_name : column (codes "lock_name") header row ≡ some m.lock_name
  pub aquire_latency :
      column (codes "aquire_latency_ms") header row ≡ some (itoa (milliseconds m.aquire_latency))
  pub release_latency :
      column (codes "release_latency_ms") header row ≡ some (itoa (milliseconds m.release_latency))
  pub status_code :
      column (codes "lock_op_status_code") header row ≡ some (itoa m.lock_op_status_code)
  pub status_text :
      column (codes "lock_op_status_text") header row ≡ some (codes m.lock_op_status_text)
  pub contention_level :
      column (codes "contention_level") header row ≡ some (itoa m.contention_level)

-- Under the header of its file, every row of a metric has each value in the column that is named for
-- it, and as many values as the header has columns, for metrics of requests and of locks.
pub rows-Shows :
    (m : RequestMetric) (k : LockMetric)
    → Shows m request_header (request_row m) × ShowsLock k lock_header (lock_row k)
unfolding request_header request_row lock_header lock_row text_eq
rows-Shows m k = (
  record {
    timestamp = refl;
    key = refl;
    operation = refl;
    latency = refl;
    success = refl;
    status_code = refl;
    status_text = refl;
    num_clients = refl;
    client_id = refl;
    run_phase = refl;
    aligned = refl;
  },
  record {
    request = record {
      timestamp = refl;
      key = refl;
      operation = refl;
      latency = refl;
      success = refl;
      status_code = refl;
      status_text = refl;
      num_clients = refl;
      client_id = refl;
      run_phase = refl;
      aligned = refl;
    };
    lock_name = refl;
    aquire_latency = refl;
    release_latency = refl;
    status_code = refl;
    status_text = refl;
    contention_level = refl;
  },
)
