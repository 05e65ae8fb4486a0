-- ===== src/Client/LoadStep/Rounds.antt =====
-- A load step whose clients make the rounds of a key-value client: its counters against the rows of
-- its metrics.
use etcd_cloud_benchmarking.Prelude.{
  ℕ, ◌^◌, ◌<◌, ◌≡◌, refl, ap, ◌∙◌, Bool, true, not, subst, All-map, List, [], ◌∷◌, map, length,
  length-map, get_elem?, count_if, All, if◌then◌else◌, arith,
}
use etcd_cloud_benchmarking.Prelude.Int.{ℤ, pos}
use etcd_cloud_benchmarking.Prelude.Run.{ret, or_panic, >>=-eq-ret}
use etcd_cloud_benchmarking.Prelude.Text.{Text}
use etcd_cloud_benchmarking.Generator.Random.{Source}
use etcd_cloud_benchmarking.Client.Lock.{is_nil}
use etcd_cloud_benchmarking.Client.Lock.Select.{intn_checked}
use etcd_cloud_benchmarking.Client.Kv.{
  Chance, Setup, Answer, Outcome, request, value_or_none, kv_operation,
}
use etcd_cloud_benchmarking.Client.Step.Laws.{failed, sent, step_counts}
use etcd_cloud_benchmarking.Client.LoadStep.{Operation, LoadStep, Reach}
use etcd_cloud_benchmarking.Client.LoadStep.Refines.{load_step-refines}
use etcd_cloud_benchmarking.Client.LoadStep.Accounts.{failed-cons}

-- the error of a round and the latency that it sends
abbrev pub operation_of : Outcome → Operation
operation_of o = (o.err, o.latency ∷ [])

-- the row of the round says that it failed
abbrev pub is_failed_row : Outcome → Bool
is_failed_row o = not o.metric.success

-- the row says what was returned and measured
record Agrees (o : Outcome) : Type 0 where
  returned : is_nil o.err ≡ not (is_failed_row o)
  timed : o.latency ≡ o.metric.latency

request-Agrees : (c : Setup) (a : Answer) (r : Bool) (k v : Text) → Agrees (request c a r k v)
unfolding request is_nil
request-Agrees c a r k v = record { returned = ground arith; timed = refl }

module _ (R : Source) (C : Chance R) where
  -- the outcome of a round of some client, from some state of its random source
  pub record IsRound (o : Outcome) : Type 0 where
    pub setup : Setup
    pub answer : Answer
    pub before : R.State
    pub after : R.State
    pub returns : kv_operation R C setup answer before ≡ ret (o, after)

  IsRound-Agrees : (o : Outcome) → IsRound o → Agrees o
  unfolding kv_operation
  IsRound-Agrees o q =
      let c = q.setup in
      let ((i, s₂), e₁, h₁) =
        >>=-eq-ret (intn_checked R (pos (length c.keys)) (C.below c.read_percent q.before).1) _
          q.returns in
      let (k, e₂, h₂) = >>=-eq-ret (or_panic (get_elem? c.keys i)) _ h₁ in
      let v = (R.read c.value_size s₂).0 in
      let same : request c q.answer (C.below c.read_percent q.before).0 k (value_or_none v) ≡ o =
        ground arith in
      subst Agrees same (request-Agrees c q.answer _ k (value_or_none v))

failed-rounds :
    (os : List Outcome) → All Agrees os → failed (map operation_of os) ≡ count_if is_failed_row os
failed-rounds [] h = refl
failed-rounds (o ∷ os) h =
    ground (
      arith,
      failed-cons (operation_of o) (map operation_of os),
      h.0.returned,
      failed-rounds os h.1,
    )

sent-rounds :
    (p : ℤ → Bool) (os : List Outcome)
    → All Agrees os
    → count_if p (sent (map operation_of os)) ≡ count_if (λ o. p o.metric.latency) os
sent-rounds p [] h = refl
sent-rounds p (o ∷ os) h =
    omega (arith, ap (λ l. let n : ℕ = if p l then 1 else 0 in n) h.0.timed, sent-rounds p os h.1)

-- When the clients of a load step make rounds of the key-value benchmark, fewer than 2^63, all of
-- them have returned, the channel is drained and no counter is outstanding, in whatever order the
-- goroutines took their steps: the operations are as many as the rounds, the errors as many as the
-- rows of the metrics that say failure, and the latencies are those of the rows, each as often.
pub kv_step-Counts :
    (R : Source) (C : Chance R) {room n : ℕ} {s : LoadStep}
    → Reach true room n s
    → (os : List Outcome) → All (IsRound R C) os
    → s.made ≡ map operation_of os
    → length os < 2 ^ 63
    → s.closed ≡ true
    → s.queue ≡ []
    → s.pending ≡ []
    → (s.result.operations ≡ pos (length os))
      × (s.result.errors ≡ pos (count_if is_failed_row os))
      × ((p : ℤ → Bool) → count_if p s.result.latencies ≡ count_if (λ o. p o.metric.latency) os)
kv_step-Counts R C {n = n} {s} r os rounds m b c q e =
    let agree = All-map os (IsRound-Agrees R C) rounds in
    let made_length = ap length m ∙ length-map operation_of os in
    let b' : length s.made < 2 ^ 63 = omega (arith, made_length, b) in
    let (ops, errs, lats) = load_step-refines r b' c q e in
    let spec = step_counts (pos n) s.made b' in
    (
      ops ∙ spec.0 ∙ ap pos made_length,
      errs ∙ spec.1 ∙ ap pos (ap failed m ∙ failed-rounds os agree),
      λ p. lats p ∙ ap (count_if p) (spec.2 ∙ ap sent m) ∙ sent-rounds p os agree,
    )
