-- ===== src/Client/Errors.antt =====
-- client/runner/utils.go: the status code and text of an error.
use etcd_cloud_benchmarking.Prelude.{Bool, Option, none, some, String, if◌then◌else◌}
use etcd_cloud_benchmarking.Prelude.Int.{ℤ, negsuc}

-- An error as the tests of the program see it. What gRPC and the etcd client make of it is their
-- answer: the code and text of an `rpctypes.EtcdError`, of a gRPC status, `IsConnCanceled`.
pub record GoError : Type 0 where
  pub is_canceled : Bool
  pub is_deadline_exceeded : Bool
  pub etcd_error : Option (ℤ × String)
  pub grpc_status : Option (ℤ × String)
  pub is_conn_canceled : Bool
  pub message : String

no_status : GoError → ℤ × String
no_status e =
    if e.is_conn_canceled
    then (negsuc 2, "gRPC Client connection closed")
    else (negsuc 3, e.message)

status_or : Option (ℤ × String) → ℤ × String → ℤ × String
status_or (some s) other = s
status_or none other = other

-- `GetErrInfo`
unfoldable pub get_err_info : GoError → ℤ × String
unfolding no_status status_or
get_err_info e =
    if e.is_canceled
    then (negsuc 0, "Context canceled by another goroutine")
    else if e.is_deadline_exceeded
    then (negsuc 1, "Request deadline exceeded")
    else status_or e.etcd_error (status_or e.grpc_status (no_status e))
