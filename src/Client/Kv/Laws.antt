-- ===== src/Client/Kv/Laws.antt =====
-- What a key-value client requests and reports.
use etcd_cloud_benchmarking.Prelude.{
  ap, ◌∙◌, ◌≡◌, ◌⊎◌, ◌↔◌, Bool, true, none, length, get_elem?, arith,
}
use etcd_cloud_benchmarking.Prelude.Int.{pos}
use etcd_cloud_benchmarking.Prelude.Run.{ret, or_panic, >>=-eq-ret}
use etcd_cloud_benchmarking.Prelude.Text.{Text}
use etcd_cloud_benchmarking.Generator.Random.{Source}
use etcd_cloud_benchmarking.Client.Lock.{get, put, status_of}
use etcd_cloud_benchmarking.Client.Lock.Select.{intn_checked}
use etcd_cloud_benchmarking.Client.Kv.{
  Chance, Setup, Answer, Outcome, value_or_none, request, kv_operation,
}

-- the operation, status, success and times of a metric agree with the request made, its error and
-- the clock
pub record Reports (c : Setup) (a : Answer) (k v : Text) (o : Outcome) : Type 0 where
  pub key : o.metric.key ≡ k
  pub returned : o.err ≡ a.failure
  pub reading : (o.metric.operation ≡ "read") ↔ (o.call ≡ get k)
  pub writing : (o.metric.operation ≡ "write") ↔ (o.call ≡ put k v)
  pub known : (o.call ≡ get k) ⊎ (o.call ≡ put k v)
  pub success : (o.metric.success ≡ true) ↔ (a.failure ≡ none)
  pub code : o.metric.status_code ≡ (status_of a.failure).0
  pub timed : o.metric.latency ≡ o.latency
  pub took : o.latency ≡ a.time
  pub stamped : o.metric.timestamp ≡ a.now

module _ (R : Source) (C : Chance R) where
  read_calls :
      (c : Setup) (a : Answer) (r : Bool) (k v : Text) (o : Outcome)
      → r ≡ true
      → request c a r k v ≡ o
      → o.call ≡ get o.metric.key
  unfolding request
  read_calls c a r k v o h e = ground arith

  -- With 100 per cent of reads, the read-only workload, no round writes.
  pub read_only_never_writes :
      (c : Setup) (a : Answer) (s s' : R.State) (o : Outcome)
      → c.read_percent ≡ pos 100
      → kv_operation R C c a s ≡ ret (o, s')
      → o.call ≡ get o.metric.key
  unfolding kv_operation
  read_only_never_writes c a s s' o h e =
      let ((i, s₂), e₁, h₁) =
        >>=-eq-ret (intn_checked R (pos (length c.keys)) (C.below c.read_percent s).1) _ e in
      let (k, e₂, h₂) = >>=-eq-ret (or_panic (get_elem? c.keys i)) _ h₁ in
      let reads : (C.below c.read_percent s).0 ≡ true =
        ap (λ p. (C.below p s).0) h ∙ C.below_all s in
      read_calls c a (C.below c.read_percent s).0 k (value_or_none (R.read c.value_size s₂).0) o
        reads (ground arith)
