-- ===== src/Client/Metric/Tests.antt =====
-- The columns of a concrete row.
use etcd_cloud_benchmarking.Prelude.{false}
use etcd_cloud_benchmarking.Prelude.Int.{pos, negsuc}
use etcd_cloud_benchmarking.Prelude.Text.{codes}
use etcd_cloud_benchmarking.Client.Metric.{
  RequestMetric, LockMetric, request_header, request_row, lock_header, lock_row,
}
use etcd_cloud_benchmarking.Client.Metric.Columns.{Shows, ShowsLock, rows-Shows}

abbrev read_metric : RequestMetric
read_metric = record {
  timestamp = pos 1_700_000_000;
  key = codes "/usr/na1/007ab";
  operation = "read";
  latency = pos 2_500_000;
  success = false;
  status_code = negsuc 1;
  status_text = "Request deadline exceeded";
  num_clients = pos 5;
  client_id = pos 2;
  run_phase = "main";
}

abbrev lock_metric : LockMetric
lock_metric = record {
  request = read_metric;
  lock_name = codes "/lock/usr/na1/007ab";
  aquire_latency = pos 3_000_000;
  release_latency = pos 1_000_000;
  lock_op_status_code = pos 0;
  lock_op_status_text = "";
  contention_level = pos 2;
}

rows-Shows_example :
    Shows read_metric request_header (request_row read_metric)
    × ShowsLock lock_metric lock_header (lock_row lock_metric)
rows-Shows_example = rows-Shows read_metric lock_metric
