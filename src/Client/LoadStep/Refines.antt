-- ===== src/Client/LoadStep/Refines.antt =====
-- The goroutines of a load step implement the accounting of its operations one after the other.
use etcd_cloud_benchmarking.Prelude.{
  ℕ, ◌^◌, ◌<◌, ◌≡◌, refl, sym, ap, ◌∙◌, Bool, true, List, [], ◌∷◌, length, count_if, total, arith,
}
use etcd_cloud_benchmarking.Prelude.Int.{ℤ, pos}
use etcd_cloud_benchmarking.Client.Step.{new_result, count_operations}
use etcd_cloud_benchmarking.Client.Step.Laws.{step_counts}
use etcd_cloud_benchmarking.Client.LoadStep.{Client, ready, stopped, sending, LoadStep, Reach}
use etcd_cloud_benchmarking.Client.LoadStep.Invariant.{unsent, is_error, busy, failing, active}
use etcd_cloud_benchmarking.Client.LoadStep.Moves.{Reach-Inv}

-- clients that returned keep nothing back
record Silent (cs : List Client) : Type 0 where
  none_unsent : (p : ℤ → Bool) → total (unsent p) cs ≡ 0
  none_busy : total busy cs ≡ 0
  none_failing : total failing cs ≡ 0

all-Silent : (cs : List Client) → total active cs ≡ 0 → Silent cs
all-Silent [] h = record { none_unsent = λ p. refl; none_busy = refl; none_failing = refl }
all-Silent (stopped ∷ cs) h =
    let q = all-Silent cs (omega (arith, h)) in
    record {
      none_unsent = λ p. omega (arith, q.none_unsent p);
      none_busy = omega (arith, q.none_busy);
      none_failing = omega (arith, q.none_failing);
    }
all-Silent (ready ∷ cs) h = absurd (omega (arith, h))
all-Silent (sending ls err ∷ cs) h = absurd (omega (arith, h))

-- Once all clients of a load step returned, the channel is drained and no counter is outstanding, in
-- whatever order the goroutines took their steps, the result has the same numbers of operations and
-- errors as counting the operations made, fewer than 2^63, one after the other, and the same
-- latencies, each as often: every test holds of as many.
pub load_step-refines :
    {spawns : Bool} {room n : ℕ} {s : LoadStep}
    → Reach spawns room n s
    → length s.made < 2 ^ 63
    → s.closed ≡ true
    → s.queue ≡ []
    → s.pending ≡ []
    → (let spec = count_operations (new_result (pos n)) s.made in
        (s.result.operations ≡ spec.operations)
        × (s.result.errors ≡ spec.errors)
        × ((p : ℤ → Bool) → count_if p s.result.latencies ≡ count_if p spec.latencies))
load_step-refines {n = n} {s} r b c q e =
    let i = Reach-Inv r b in
    let z = all-Silent s.clients (i.quiet c) in
    let spec = step_counts (pos n) s.made b in
    (
      i.counted_eq ∙ ap pos (omega (arith, i.counted_sum, ap length e, z.none_busy)) ∙ sym spec.0,
      i.wrong_eq
          ∙ ap pos (omega (arith, i.wrong_sum, ap (total is_error) e, z.none_failing))
          ∙ sym spec.1,
      λ p. omega (arith, i.kept p, ap (count_if p) q, z.none_unsent p, ap (count_if p) spec.2),
    )
