-- ===== src/Client/Lock/Accounting.antt =====
-- What an operation of a lock client reports, against what happened.
use etcd_cloud_benchmarking.Prelude.{
  ◌≡◌, ap, refl, ◌↔◌, inl, inr, Bool, true, false, Option, none, some, arith, Option-cases,
}
use etcd_cloud_benchmarking.Prelude.Int.{pos}
use etcd_cloud_benchmarking.Prelude.Text.{Text}
use etcd_cloud_benchmarking.Client.Errors.{GoError, get_err_info}
use etcd_cloud_benchmarking.Client.Lock.{
  Answers, Request, status_of, late_status, run_lock_only_workload, run_lock_mixed_workload,
  lock_only_metric, lock_mixed_metric,
}

-- The metric of a mixed operation says success exactly when the lock was acquired, the Get or Put
-- succeeded and the lock was released.
pub mixed_success_iff :
    (is_read : Bool) (v : Text) (q : Request) (a : Answers)
    → ((run_lock_mixed_workload is_read v q a).metric.request.success ≡ true)
      ↔ ((a.try_lock ≡ none) × (a.kv ≡ none) × (a.unlock ≡ none))
unfolding run_lock_mixed_workload lock_mixed_metric
mixed_success_iff is_read v q a = (λ h. ground arith, λ h. ground arith)

-- asking a second time for the status of an error changes nothing
late_status_lem : (o : Option GoError) → late_status o (status_of o) ≡ status_of o
unfolding late_status status_of
late_status_lem none = refl
late_status_lem (some e) = ground arith

late_status_first : (e : GoError) → late_status (some e) (pos 0, "") ≡ status_of (some e)
unfolding late_status status_of
late_status_first e = refl

-- Whichever call fails, the lock status of the metric is the status of the error that is returned.
pub lock_op_status :
    (is_read : Bool) (v : Text) (q : Request) (a : Answers)
    → (let m = (run_lock_mixed_workload is_read v q a).metric in
        let s = status_of (run_lock_mixed_workload is_read v q a).err in
        (m.lock_op_status_code ≡ s.0) × (m.lock_op_status_text ≡ s.1))
      × (let m = (run_lock_only_workload q a).metric in
          let s = status_of (run_lock_only_workload q a).err in
          (m.lock_op_status_code ≡ s.0) × (m.lock_op_status_text ≡ s.1))
unfolding run_lock_mixed_workload run_lock_only_workload lock_mixed_metric lock_only_metric
lock_op_status is_read v q a = elim (Option-cases a.try_lock) [
  | inl h ↦
      let s = late_status_lem a.unlock in
      rw (h, run_lock_mixed_workload, run_lock_only_workload)
        ((ap (λ t. t.0) s, ap (λ t. t.1) s), (ap (λ t. t.0) s, ap (λ t. t.1) s))
  | inr (e, h) ↦
      let s = late_status_first e in
      rw (h, run_lock_mixed_workload, run_lock_only_workload)
        ((ap (λ t. t.0) s, ap (λ t. t.1) s), (ap (λ t. t.0) s, ap (λ t. t.1) s))
]

-- The metric of a lock-only operation says success exactly when the lock was acquired, also when its
-- release failed and the operation returns that error.
pub lock_only_success_iff :
    (q : Request) (a : Answers)
    → (((run_lock_only_workload q a).metric.request.success ≡ true) ↔ (a.try_lock ≡ none))
      × (((run_lock_only_workload q a).err ≡ none) ↔ ((a.try_lock ≡ none) × (a.unlock ≡ none)))
unfolding run_lock_only_workload lock_only_metric
lock_only_success_iff q a =
    ((λ h. ground arith, λ h. ground arith), (λ h. ground arith, λ h. ground arith))

-- A mixed operation whose Get or Put fails between a lock that is acquired and a lock that is
-- released returns no error, while its metric says that it failed, with the status of that failure.
pub mixed_hides_failure :
    (is_read : Bool) (v : Text) (q : Request) (a : Answers) (e : GoError)
    → a.try_lock ≡ none
    → a.kv ≡ some e
    → a.unlock ≡ none
    → ((run_lock_mixed_workload is_read v q a).err ≡ none)
      × ((run_lock_mixed_workload is_read v q a).metric.request.success ≡ false)
      × ((run_lock_mixed_workload is_read v q a).metric.request.status_code ≡ (get_err_info e).0)
unfolding run_lock_mixed_workload lock_mixed_metric
mixed_hides_failure is_read v q a e h₁ h₂ h₃ = ground arith
