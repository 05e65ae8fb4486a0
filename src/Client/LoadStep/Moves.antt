-- ===== src/Client/LoadStep/Moves.antt =====
-- A move of any goroutine keeps the invariant.
use etcd_cloud_benchmarking.Prelude.{
  ℕ, zero, suc, ◌+◌, ◌^◌, ◌≤◌, ◌<◌, ◌≡◌, refl, ap, ◌∙◌, Bool, true, Option, none, some, List, [],
  ◌∷◌, ◌++◌, length, length-append, All, count_if, count_if-append, total, total-append,
  total-moved, total-removed, arith,
}
use etcd_cloud_benchmarking.Prelude.Int.{ℤ, pos, ◌+ℤ◌, wrap64}
use etcd_cloud_benchmarking.Client.Errors.{GoError}
use etcd_cloud_benchmarking.Client.Lock.{is_nil}
use etcd_cloud_benchmarking.Client.Step.{StepResult, new_result}
use etcd_cloud_benchmarking.Client.Step.Laws.{failed, sent, plus_one}
use etcd_cloud_benchmarking.Client.LoadStep.{
  Client, ready, stopped, sending, Operation, LoadStep, all_ready, begin, collect_latency,
  add_counters, IsStopped, Move, expire, operate, stop, send, hand_over, collect, spawn,
  count_spawned, count_here, close_channel, report, Reach, begun, later,
}
use etcd_cloud_benchmarking.Client.LoadStep.Invariant.{unsent, is_error, busy, failing, active, Inv}

count-sent :
    (p : ℤ → Bool) (os : List Operation) (o : Operation)
    → count_if p (sent (os ++ o ∷ [])) ≡ count_if p (sent os) + count_if p o.1
count-sent p [] o = omega (arith, count_if-append p o.1 [])
count-sent p (x ∷ os) o = omega (
  arith,
  count_if-append p x.1 (sent os),
  count_if-append p x.1 (sent (os ++ o ∷ [])),
  count-sent p os o,
)

failed-append :
    (os : List Operation) (o : Operation) → failed (os ++ o ∷ []) ≡ failed os + is_error o.0
failed-append [] (none, ls) = refl
failed-append [] (some e, ls) = refl
failed-append ((none, ls) ∷ os) o = failed-append os o
failed-append ((some e, ls) ∷ os) o = omega (arith, failed-append os o)

failed-le : (os : List Operation) → failed os ≤ length os
failed-le [] = omega arith
failed-le ((none, ls) ∷ os) = omega (arith, failed-le os)
failed-le ((some e, ls) ∷ os) = omega (arith, failed-le os)

-- the counters after one more operation
errors_after :
    (err : Option GoError) (r : StepResult) (m : ℕ)
    → r.errors ≡ pos m
    → m + is_error err < 2 ^ 63
    → (add_counters err r).errors ≡ pos (m + is_error err)
unfolding add_counters is_nil
errors_after none r m h b = h ∙ ap pos (omega arith)
errors_after (some e) r m h b = ap (λ z. wrap64 (z +ℤ pos 1)) h ∙ plus_one m (omega (arith, b))

operations_after :
    (err : Option GoError) (r : StepResult) (n : ℕ)
    → r.operations ≡ pos n
    → n + 1 < 2 ^ 63
    → (add_counters err r).operations ≡ pos (n + 1)
unfolding add_counters
operations_after err r n h b = ap (λ z. wrap64 (z +ℤ pos 1)) h ∙ plus_one n (omega (arith, b))

same_latencies :
    (err : Option GoError) (r : StepResult) → (add_counters err r).latencies ≡ r.latencies
unfolding add_counters
same_latencies err r = refl

one_more :
    (p : ℤ → Bool) (l : ℤ) (r : StepResult)
    → count_if p (collect_latency l r).latencies ≡ count_if p r.latencies + count_if p (l ∷ [])
unfolding collect_latency
one_more p l r = count_if-append p r.latencies (l ∷ [])

same_counters :
    (l : ℤ) (r : StepResult)
    → ((collect_latency l r).operations ≡ r.operations) × ((collect_latency l r).errors ≡ r.errors)
unfolding collect_latency
same_counters l r = (refl, refl)

active-all : (cs : List Client) → All IsStopped cs → total active cs ≡ 0
active-all [] h = refl
active-all (c ∷ cs) h = omega (arith, ap active h.0, active-all cs h.1)

Move-made :
    {spawns : Bool} {room : ℕ} {s t : LoadStep}
    → Move spawns room s t
    → length s.made ≤ length t.made
Move-made {s = s} (operate xs ys o e x) = omega (arith, length-append s.made (o ∷ []))
Move-made mv = omega arith

module _ {s : LoadStep} (inv : Inv s) where
  open inv use {kept, counted, counted_eq, counted_sum, wrong, wrong_eq, wrong_sum, quiet}

  -- how the sums change when a client goes from `v` to `w`
  record Change (v w : Client) (cs : List Client) : Type 0 where
    of_unsent :
        (p : ℤ → Bool) → total (unsent p) cs + unsent p v ≡ total (unsent p) s.clients + unsent p w
    of_busy : total busy cs + busy v ≡ total busy s.clients + busy w
    of_failing : total failing cs + failing v ≡ total failing s.clients + failing w
    of_active : active v ≤ total active s.clients

  change :
      (xs ys : List Client) (v w : Client) → s.clients ≡ xs ++ v ∷ ys → Change v w (xs ++ w ∷ ys)
  change xs ys v w e = record {
    of_unsent = λ p. total-moved (unsent p) xs ys s.clients v w e;
    of_busy = total-moved busy xs ys s.clients v w e;
    of_failing = total-moved failing xs ys s.clients v w e;
    of_active = omega (arith, ap (total active) e, total-append active xs (v ∷ ys));
  }

  -- no active client once the channel is closed
  open_yet :
      {v w : Client} {cs : List Client}
      → Change v w cs
      → 0 < active v
      → s.closed ≡ true
      → total active cs ≡ 0
  open_yet d h c = absurd (omega (arith, h, d.of_active, quiet c))

  counted_here :
      (err : Option GoError)
      → length s.made < 2 ^ 63
      → counted + 1 ≤ length s.made
      → wrong + is_error err ≤ failed s.made
      → ((add_counters err s.result).operations ≡ pos (counted + 1))
        × ((add_counters err s.result).errors ≡ pos (wrong + is_error err))
  counted_here err b h k = (
    operations_after err s.result counted counted_eq (omega (arith, b, h)),
    errors_after err s.result wrong wrong_eq (omega (arith, b, k, failed-le s.made)),
  )

  pub Move-Inv :
      {spawns : Bool} {room : ℕ} {t : LoadStep}
      → Move spawns room s t
      → length s.made < 2 ^ 63
      → Inv t
  Move-Inv (expire x) b = record {
    kept = kept;
    counted = counted;
    counted_eq = counted_eq;
    counted_sum = counted_sum;
    wrong = wrong;
    wrong_eq = wrong_eq;
    wrong_sum = wrong_sum;
    quiet = quiet;
  }
  Move-Inv (operate xs ys o e x) b =
      let d = change xs ys ready (sending o.1 o.0) e in
      record {
        kept = λ p. omega (arith, kept p, d.of_unsent p, count-sent p s.made o);
        counted = counted;
        counted_eq = counted_eq;
        counted_sum = omega (arith, counted_sum, d.of_busy, length-append s.made (o ∷ []));
        wrong = wrong;
        wrong_eq = wrong_eq;
        wrong_sum = omega (arith, wrong_sum, d.of_failing, failed-append s.made o);
        quiet = open_yet d (omega arith);
      }
  Move-Inv (stop xs ys e x) b =
      let d = change xs ys ready stopped e in
      record {
        kept = λ p. omega (arith, kept p, d.of_unsent p);
        counted = counted;
        counted_eq = counted_eq;
        counted_sum = omega (arith, counted_sum, d.of_busy);
        wrong = wrong;
        wrong_eq = wrong_eq;
        wrong_sum = omega (arith, wrong_sum, d.of_failing);
        quiet = open_yet d (omega arith);
      }
  Move-Inv (send xs ys l ls err e r) b =
      let d = change xs ys (sending (l ∷ ls) err) (sending ls err) e in
      record {
        kept = λ p. omega (arith, kept p, d.of_unsent p, count_if-append p s.queue (l ∷ []));
        counted = counted;
        counted_eq = counted_eq;
        counted_sum = omega (arith, counted_sum, d.of_busy);
        wrong = wrong;
        wrong_eq = wrong_eq;
        wrong_sum = omega (arith, wrong_sum, d.of_failing);
        quiet = open_yet d (omega arith);
      }
  Move-Inv (hand_over xs ys l ls err e q) b =
      let d = change xs ys (sending (l ∷ ls) err) (sending ls err) e in
      record {
        kept = λ p. omega (arith, kept p, d.of_unsent p, one_more p l s.result);
        counted = counted;
        counted_eq = (same_counters l s.result).0 ∙ counted_eq;
        counted_sum = omega (arith, counted_sum, d.of_busy);
        wrong = wrong;
        wrong_eq = (same_counters l s.result).1 ∙ wrong_eq;
        wrong_sum = omega (arith, wrong_sum, d.of_failing);
        quiet = open_yet d (omega arith);
      }
  Move-Inv (collect l ls q) b = record {
    kept = λ p. omega (arith, kept p, ap (count_if p) q, one_more p l s.result);
    counted = counted;
    counted_eq = (same_counters l s.result).0 ∙ counted_eq;
    counted_sum = counted_sum;
    wrong = wrong;
    wrong_eq = (same_counters l s.result).1 ∙ wrong_eq;
    wrong_sum = wrong_sum;
    quiet = quiet;
  }
  Move-Inv (spawn xs ys err m e) b =
      let d = change xs ys (sending [] err) ready e in
      record {
        kept = λ p. omega (arith, kept p, d.of_unsent p);
        counted = counted;
        counted_eq = counted_eq;
        counted_sum = omega (arith, counted_sum, d.of_busy, length-append s.pending (err ∷ []));
        wrong = wrong;
        wrong_eq = wrong_eq;
        wrong_sum =
            omega (arith, wrong_sum, d.of_failing, total-append is_error s.pending (err ∷ []));
        quiet = open_yet d (omega arith);
      }
  Move-Inv (count_spawned es fs err e) b =
      let n = ap length e ∙ length-append es (err ∷ fs) in
      let k = total-removed is_error es fs s.pending err e in
      let c = counted_here err b (omega (arith, counted_sum, n)) (omega (arith, wrong_sum, k)) in
      record {
        kept = λ p. omega (arith, kept p, ap (count_if p) (same_latencies err s.result));
        counted = counted + 1;
        counted_eq = c.0;
        counted_sum = omega (arith, counted_sum, n, length-append es fs);
        wrong = wrong + is_error err;
        wrong_eq = c.1;
        wrong_sum = omega (arith, wrong_sum, k);
        quiet = quiet;
      }
  Move-Inv (count_here xs ys err m e) b =
      let d = change xs ys (sending [] err) ready e in
      let c =
        counted_here err b (omega (arith, counted_sum, d.of_busy))
          (omega (arith, wrong_sum, d.of_failing)) in
      record {
        kept = λ p.
            omega (arith, kept p, d.of_unsent p, ap (count_if p) (same_latencies err s.result));
        counted = counted + 1;
        counted_eq = c.0;
        counted_sum = omega (arith, counted_sum, d.of_busy);
        wrong = wrong + is_error err;
        wrong_eq = c.1;
        wrong_sum = omega (arith, wrong_sum, d.of_failing);
        quiet = open_yet d (omega arith);
      }
  Move-Inv (close_channel a c) b = record {
    kept = kept;
    counted = counted;
    counted_eq = counted_eq;
    counted_sum = counted_sum;
    wrong = wrong;
    wrong_eq = wrong_eq;
    wrong_sum = wrong_sum;
    quiet = λ _. active-all s.clients a;
  }
  Move-Inv (report c r) b = record {
    kept = kept;
    counted = counted;
    counted_eq = counted_eq;
    counted_sum = counted_sum;
    wrong = wrong;
    wrong_eq = wrong_eq;
    wrong_sum = wrong_sum;
    quiet = quiet;
  }

total-all_ready : (f : Client → ℕ) (n : ℕ) → f ready ≡ 0 → total f (all_ready n) ≡ 0
total-all_ready f zero h = refl
total-all_ready f (suc n) h = omega (arith, h, total-all_ready f n h)

Inv-begin : (n : ℕ) → Inv (begin n)
unfolding new_result
Inv-begin n = record {
  kept = λ p. omega (arith, total-all_ready (unsent p) n refl);
  counted = 0;
  counted_eq = refl;
  counted_sum = omega (arith, total-all_ready busy n refl);
  wrong = 0;
  wrong_eq = refl;
  wrong_sum = omega (arith, total-all_ready failing n refl);
  quiet = λ c. cc;
}

-- Every reachable state in which fewer than 2^63 operations were made has the invariant.
pub Reach-Inv :
    {spawns : Bool} {room n : ℕ} {s : LoadStep}
    → Reach spawns room n s
    → length s.made < 2 ^ 63
    → Inv s
Reach-Inv {n = n} begun b = Inv-begin n
Reach-Inv (later r mv) b =
    Move-Inv (Reach-Inv r (omega (arith, b, Move-made mv))) mv (omega (arith, b, Move-made mv))
