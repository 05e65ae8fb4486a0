-- ===== src/Client/Schedule/Endless.antt =====
-- A step duration that is not positive: the rounds have no end.
use etcd_cloud_benchmarking.Prelude.{
  ℕ, zero, suc, ◌+◌, ◌*◌, ◌^◌, ◌<◌, ◌≡◌, refl, true, false, Option, none, [], ◌∷◌, ◌++◌, String,
  arith, Bool-cases, inl, inr,
}
use etcd_cloud_benchmarking.Prelude.Int.{ℤ, pos, negsuc, ltb_ℤ, leb_ℤ, ◌+ℤ◌, ◌-ℤ◌, wrap64}
use etcd_cloud_benchmarking.Prelude.Run.{Run, ret, timeout}
use etcd_cloud_benchmarking.Control.Config.{BenchctlConfig}
use etcd_cloud_benchmarking.Client.Step.{StepResult}
use etcd_cloud_benchmarking.Client.Schedule.{
  Load, Runner, increase, actual_duration, load, add, grow, rounds,
}

grown_any :
    (c : BenchctlConfig) (rl : Runner → Load → Run StepResult) (ac : Runner → ℤ → Option String)
    → ((r : Runner) (m : ℤ) → ac r m ≡ none)
    → (r : Runner) (cur : ℤ) → (a : Runner × ℤ) × (grow c rl ac r cur ≡ ret a)
unfolding grow add
grown_any c rl ac adds r cur = elim (Bool-cases (leb_ℤ c.max_clients cur)) [
  | inl full ↦ ((r, cur), rw (full, grow) refl)
  | inr room ↦
      let n = increase c cur in
      (
        (record r { added = r.added ++ n ∷ [] }, wrap64 (cur +ℤ n)),
        rw (room, grow, add, adds r n) refl,
      )
]

grows : (t b : ℕ) → t + (b + 1) < 2 ^ 63 → wrap64 (pos t -ℤ negsuc b) ≡ pos (t + (b + 1))
unfolding wrap64 ◌-ℤ◌
grows t b h = ground arith

-- With a step duration below zero, a total duration above zero, load steps that return and clients
-- that can be added, the rounds never end by themselves: however many are allowed, short of an
-- overflow of the remaining time, none is the last.
pub rounds_never_end :
    (c : BenchctlConfig) (total back fuel : ℕ) (cur : ℤ) (r : Runner)
    (run_load_step : Runner → Load → Run StepResult) (add_clients : Runner → ℤ → Option String)
    → c.step_duration ≡ negsuc back
    → 0 < total
    → total + fuel * (back + 1) < 2 ^ 63
    → ((r : Runner) (l : Load) → (x : StepResult) × (run_load_step r l ≡ ret x))
    → ((r : Runner) (m : ℤ) → add_clients r m ≡ none)
    → rounds c run_load_step add_clients fuel (pos total) cur r ≡ timeout
unfolding rounds load
rounds_never_end c total back zero cur r rl ac e h b steps_return adds = refl
rounds_never_end c total back (suc fuel) cur r rl ac e h b steps_return adds =
    let p : ltb_ℤ (pos 0) (pos total) ≡ true = ground arith in
    let (x, ex) =
      steps_return r
        (record { duration = actual_duration c (pos total); clients = cur; is_warmup = false }) in
    let back_up : wrap64 (pos total -ℤ c.step_duration) ≡ pos (total + (back + 1)) =
      rw e (grows total back (omega (arith, b))) in
    let l : Load = record {
      duration = actual_duration c (pos total);
      clients = cur;
      is_warmup = false;
    } in
    let r₁ : Runner = record r { loads = r.loads ++ l ∷ []; results = r.results ++ x ∷ [] } in
    let (a, ea) = grown_any c rl ac adds r₁ cur in
    rw (p, rounds, ex, ea, back_up)
      (rounds_never_end c (total + (back + 1)) back fuel a.1 a.0 rl ac e (omega arith)
        (omega (arith, b)) steps_return adds)
