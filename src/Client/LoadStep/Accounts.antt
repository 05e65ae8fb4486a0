-- ===== src/Client/LoadStep/Accounts.antt =====
-- The counters of a load step whose operations are those of given attempts.
use etcd_cloud_benchmarking.Prelude.{
  count_if-length, ℕ, ◌+◌, ◌*◌, ◌^◌, ◌<◌, ◌≡◌, refl, sym, ap, ◌∙◌, Bool, true, not, none, some,
  List, [], ◌∷◌, map, length, length-append, length-map, count_if, total, if◌then◌else◌, arith,
}
use etcd_cloud_benchmarking.Prelude.Int.{pos}
use etcd_cloud_benchmarking.Client.Lock.{Outcome, is_nil}
use etcd_cloud_benchmarking.Client.Step.Laws.{failed, sent, step_counts}
use etcd_cloud_benchmarking.Client.LoadStep.{Operation, LoadStep, Reach}
use etcd_cloud_benchmarking.Client.LoadStep.Refines.{load_step-refines}

-- the error that an operation of a lock client returns, and the latencies that it sends
abbrev pub operation_of : Outcome → Operation
operation_of o = (o.err, o.latencies)

pub failed-cons :
    (o : Operation) (os : List Operation)
    → failed (o ∷ os) ≡ (if is_nil o.0 then 0 else 1) + failed os
unfolding is_nil
failed-cons (none, ls) os = omega arith
failed-cons (some e, ls) os = omega arith

module _ {A : Type 0} where
  -- a number for those that pass a test
  pub total-if :
      (k : ℕ) (p : A → Bool) (ts : List A)
      → total (λ t. if p t then k else 0) ts ≡ k * count_if p ts
  total-if k p [] = omega arith
  total-if k p (t ∷ ts) = ground (arith, total-if k p ts)

  module _ (op : A → Operation) (bad : A → Bool) (many : A → ℕ)
      (errs : (t : A) → is_nil (op t).0 ≡ not (bad t))
      (lats : (t : A) → length (op t).1 ≡ many t) where
    failed-attempts : (ts : List A) → failed (map op ts) ≡ count_if bad ts
    failed-attempts [] = refl
    failed-attempts (t ∷ ts) =
        ground (arith, failed-cons (op t) (map op ts), errs t, failed-attempts ts)

    sent-attempts : (ts : List A) → length (sent (map op ts)) ≡ total many ts
    sent-attempts [] = refl
    sent-attempts (t ∷ ts) =
        omega (arith, length-append (op t).1 (sent (map op ts)), lats t, sent-attempts ts)

    -- When all clients of a load step returned, the channel is drained and no counter is outstanding,
    -- the result counts the attempts, those that failed, and their latencies.
    pub load_step-attempts :
        {spawns : Bool} {room n : ℕ} {s : LoadStep}
        → Reach spawns room n s
        → (ts : List A) → s.made ≡ map op ts
        → length ts < 2 ^ 63
        → s.closed ≡ true
        → s.queue ≡ []
        → s.pending ≡ []
        → (s.result.operations ≡ pos (length ts))
          × (s.result.errors ≡ pos (count_if bad ts))
          × (length s.result.latencies ≡ total many ts)
    load_step-attempts {n = n} {s} r ts m b c q e =
        let made_length = ap length m ∙ length-map op ts in
        let b' : length s.made < 2 ^ 63 = omega (arith, made_length, b) in
        let (ops, wrong, there) = load_step-refines r b' c q e in
        let spec = step_counts (pos n) s.made b' in
        (
          ops ∙ spec.0 ∙ ap pos made_length,
          wrong ∙ spec.1 ∙ ap pos (ap failed m ∙ failed-attempts ts),
          sym (count_if-length s.result.latencies)
              ∙ there (λ l. true)
              ∙ count_if-length _
              ∙ ap length (spec.2 ∙ ap sent m)
              ∙ sent-attempts ts,
        )
