-- ===== src/Client/LoadStep/Invariant.antt =====
-- Every latency is in one place: with its client, in the channel, or in the result; and every
-- operation is counted or still to be counted.
use etcd_cloud_benchmarking.Prelude.{
  ℕ, ◌+◌, ◌≡◌, Bool, true, Option, none, some, length, count_if, total,
}
use etcd_cloud_benchmarking.Prelude.Int.{ℤ, pos}
use etcd_cloud_benchmarking.Client.Errors.{GoError}
use etcd_cloud_benchmarking.Client.Step.Laws.{failed, sent}
use etcd_cloud_benchmarking.Client.LoadStep.{Client, stopped, sending, LoadStep}

abbrev pub unsent : (ℤ → Bool) → Client → ℕ
unsent p (sending ls err) = count_if p ls
unsent p c = 0

abbrev pub is_error : Option GoError → ℕ
is_error none = 0
is_error (some e) = 1

-- an operation that is not counted yet, and one that failed
abbrev pub busy : Client → ℕ
busy (sending ls err) = 1
busy c = 0

abbrev pub failing : Client → ℕ
failing (sending ls err) = is_error err
failing c = 0

abbrev pub active : Client → ℕ
active stopped = 0
active c = 1

pub record Inv (s : LoadStep) : Type 0 where
  pub kept :
      (p : ℤ → Bool)
      → count_if p s.result.latencies + count_if p s.queue + total (unsent p) s.clients
        ≡ count_if p (sent s.made)
  pub counted : ℕ
  pub counted_eq : s.result.operations ≡ pos counted
  pub counted_sum : counted + length s.pending + total busy s.clients ≡ length s.made
  pub wrong : ℕ
  pub wrong_eq : s.result.errors ≡ pos wrong
  pub wrong_sum : wrong + total is_error s.pending + total failing s.clients ≡ failed s.made
  pub quiet : s.closed ≡ true → total active s.clients ≡ 0
