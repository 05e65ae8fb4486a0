-- ===== src/Client/Schedule/Laws.antt =====
-- The rounds of a benchmark, when every load step returns and clients can be added.
use mathlib.Core.List.{append_assoc, append-nil}
use mathlib.Core.Path.{ap₂}
use etcd_cloud_benchmarking.Prelude.{
  ℕ, zero, suc, ◌+◌, ◌-◌, ◌*◌, ◌^◌, ◌≤◌, ◌<◌, ◌≡◌, refl, sym, ap, ◌∙◌, Bool, true, false, Option,
  none, List, [], ◌∷◌, ◌++◌, String, ltb, leb, length, length-append, if◌then◌else◌, arith,
  Bool-cases, inl, inr,
}
use etcd_cloud_benchmarking.Prelude.Int.{
  ℤ, pos, ltb_ℤ, leb_ℤ, ◌+ℤ◌, ◌-ℤ◌, wrap64, eq_of_parts, -ℤ_parts,
}
use etcd_cloud_benchmarking.Prelude.Run.{Run, ret}
use etcd_cloud_benchmarking.Control.Config.{BenchctlConfig}
use etcd_cloud_benchmarking.Client.Step.{StepResult}
use etcd_cloud_benchmarking.Client.Schedule.{
  Load, Runner, new_runner, increase, actual_duration, load, add, grow, rounds, run,
}
use etcd_cloud_benchmarking.Client.Schedule.Arith.{increase_lem, sub_fits}
use etcd_cloud_benchmarking.Client.Schedule.Plan.{
  IsPlan, clients_at, duration_at, planned, time_of, whole_time,
}

module _ (c : BenchctlConfig) (total step initial more most : ℕ)
    (plan : IsPlan c total step initial more most) (run_load_step : Runner → Load → Run StepResult)
    (add_clients : Runner → ℤ → Option String)
    (steps_return : (r : Runner) (l : Load) → (x : StepResult) × (run_load_step r l ≡ ret x))
    (adds : (r : Runner) (n : ℤ) → add_clients r n ≡ none) where
  abbrev at : ℕ → ℕ
  at i = clients_at initial more most i

  at-lt : (i : ℕ) → at i < 2 ^ 62
  at-lt i = ground (arith, plan.initial-lt, plan.most-lt)

  next_clients :
      (i : ℕ)
      → leb most (at i) ≡ false
      → (if ltb most (at i + more) then most else at i + more) ≡ at (suc i)
  next_clients i h = ground arith

  more_clients :
      (i : ℕ)
      → leb most (at i) ≡ false
      → wrap64 (pos (at i) +ℤ increase c (pos (at i))) ≡ pos (at (suc i))
  more_clients i h =
      increase_lem c more most (at i) plan.more_eq plan.most_eq plan.more-lt plan.most-lt
        (ground (arith, h))
      ∙ ap pos (next_clients i h)

  same_clients : (i : ℕ) → leb most (at i) ≡ true → at i ≡ at (suc i)
  same_clients i h = ground arith

  abbrev left : ℕ → ℤ
  left i = pos total -ℤ pos (i * step)

  left-pos : (i : ℕ) → i * step < total → left i ≡ pos (total - i * step)
  unfolding ◌-ℤ◌
  left-pos i h = ground arith

  left_done : (i : ℕ) → total ≤ i * step → ltb_ℤ (pos 0) (left i) ≡ false
  unfolding ◌-ℤ◌
  left_done i h = ground arith

  left_next : (i : ℕ) → i * step < total → wrap64 (left i -ℤ c.step_duration) ≡ left (suc i)
  left_next i h =
      rw (plan.step_eq, left-pos i h)
        (sub_fits (total - i * step) step (omega (arith, plan.total-lt)) plan.step-lt
          ∙ eq_of_parts _ _ (
              omega (
                arith,
                h,
                -ℤ_parts (pos (total - i * step)) (pos step),
                -ℤ_parts (pos total) (pos (suc i * step)),
              )))

  duration_lem :
      (i : ℕ) → i * step < total → actual_duration c (left i) ≡ pos (duration_at total step i)
  unfolding actual_duration
  duration_lem i h = rw (left-pos i h, plan.step_eq, actual_duration) (ground arith)

  abbrev load_at : ℕ → Load
  load_at i = record {
    duration = pos (duration_at total step i);
    clients = pos (at i);
    is_warmup = false;
  }

  grown :
      (i : ℕ) (r : Runner)
      → (r' : Runner) × (grow c run_load_step add_clients r (pos (at i))
          ≡ ret (r', pos (at (suc i))))
        × (r'.loads ≡ r.loads)
        × (r'.results ≡ r.results)
  unfolding grow add
  grown i r = elim (Bool-cases (leb most (at i))) [
    | inl full ↦
        let p : leb_ℤ c.max_clients (pos (at i)) ≡ true = rw plan.most_eq (ground arith) in
        (r, rw (p, grow) (ap (λ n. ret (r, pos n)) (same_clients i full)), refl, refl)
    | inr room ↦
        let p : leb_ℤ c.max_clients (pos (at i)) ≡ false = rw plan.most_eq (ground arith) in
        let n = increase c (pos (at i)) in
        (
          record r { added = r.added ++ n ∷ [] },
          rw (p, grow, add, adds r n)
              (ap (λ z. ret (record r { added = r.added ++ n ∷ [] }, z)) (more_clients i room)),
          refl,
          refl,
        )
  ]

  -- a load step that is made
  loaded :
      (r : Runner) (l : Load)
      → (r' : Runner) × (load c run_load_step add_clients r l ≡ ret r')
        × (r'.loads ≡ r.loads ++ l ∷ [])
        × (length r'.results ≡ (if l.is_warmup then length r.results else length r.results + 1))
  unfolding load
  loaded r l =
      let (x, e) = steps_return r l in
      (
        record {
          loads = r.loads ++ l ∷ [];
          results = if l.is_warmup then r.results else r.results ++ x ∷ [];
          added = r.added;
        },
        rw e refl,
        refl,
        counted r.results x l.is_warmup,
      )
    where
      counted :
          (xs : List StepResult) (x : StepResult) (b : Bool)
          → length (if b then xs else xs ++ x ∷ []) ≡ (if b then length xs else length xs + 1)
      counted xs x true = refl
      counted xs x false = omega (arith, length-append xs (x ∷ []))

  rounds-planned :
      (k i fuel : ℕ) (r : Runner)
      → total ≤ (i + k) * step
      → (i + k) * step < total + step
      → k < fuel
      → (r' : Runner) × (rounds c run_load_step add_clients fuel (left i) (pos (at i)) r ≡ ret r')
        × (r'.loads ≡ r.loads ++ planned total step initial more most k i)
        × (length r'.results ≡ length r.results + k)
  unfolding rounds
  rounds-planned k i zero r h₁ h₂ f = absurd (omega arith)
  rounds-planned zero i (suc fuel) r h₁ h₂ f =
      (r, rw (left_done i (omega (arith, h₁)), rounds) refl, sym (append-nil r.loads), omega arith)
  rounds-planned (suc k) i (suc fuel) r h₁ h₂ f =
      let time_left : i * step < total = omega (arith, h₂, plan.step_pos) in
      let go : ltb_ℤ (pos 0) (left i) ≡ true = rw (left-pos i time_left) (ground arith) in
      let (r₁, e₁, l₁, n₁) = loaded r (load_at i) in
      let (r₂, e₂, l₂, n₂) = grown i r₁ in
      let (r₃, e₃, l₃, n₃) =
        rounds-planned k (suc i) fuel r₂ (omega (arith, h₁)) (omega (arith, h₂)) (omega arith) in
      (
        r₃,
        rw (go, rounds, duration_lem i time_left, e₁, e₂, left_next i time_left) e₃,
        l₃
            ∙ ap (λ x. x ++ planned total step initial more most k (suc i)) (l₂ ∙ l₁)
            ∙ append_assoc r.loads (load_at i ∷ []) _,
        omega (arith, n₃, n₁, ap length n₂),
      )

  starts : at 0 ≡ initial
  starts = ground arith

  starts_with_all : left 0 ≡ pos total
  unfolding ◌-ℤ◌
  starts_with_all = ground arith

-- A benchmark whose load steps return and whose clients can be added returns, with any fuel above
-- `n`, the total duration over the step duration, rounded up. It makes the warm-up with the initial
-- clients and then `n` rounds: round i has initial + i * step size clients, at most the maximum (the
-- initial clients throughout if they reach it), and lasts a step or what is left; the rounds last
-- the total duration together, and each has its result.
pub run-planned :
    (c : BenchctlConfig) (total step initial more most n fuel : ℕ)
    (run_load_step : Runner → Load → Run StepResult) (add_clients : Runner → ℤ → Option String)
    → IsPlan c total step initial more most
    → ((r : Runner) (l : Load) → (x : StepResult) × (run_load_step r l ≡ ret x))
    → ((r : Runner) (m : ℤ) → add_clients r m ≡ none)
    → total ≤ n * step
    → n * step < total + step
    → n < fuel
    → (r : Runner) × (run c run_load_step add_clients fuel ≡ ret r)
      × (r.loads
          ≡ record { duration = c.warmup_duration; clients = c.initial_clients; is_warmup = true }
            ∷ planned total step initial more most n 0)
      × (time_of (planned total step initial more most n 0) ≡ total)
      × (length r.results ≡ n)
unfolding run
run-planned c total step initial more most n fuel rl ac plan steps_return adds h₁ h₂ f =
    let w : Load = record {
      duration = c.warmup_duration;
      clients = c.initial_clients;
      is_warmup = true;
    } in
    let (r₁, e₁, l₁, n₁) =
      loaded c total step initial more most plan rl ac steps_return adds new_runner w in
    let (r₂, e₂, l₂, n₂) =
      rounds-planned c total step initial more most plan rl ac steps_return adds n 0 fuel r₁
        (omega (arith, h₁)) (omega (arith, h₂)) f in
    let sa = starts_with_all c total step initial more most plan rl ac steps_return adds in
    let st = starts c total step initial more most plan rl ac steps_return adds in
    let e₃ : rounds c rl ac fuel c.total_duration c.initial_clients r₁ ≡ ret r₂ =
      ap₂ (λ (t i : ℤ). rounds c rl ac fuel t i r₁) (plan.total_eq ∙ sym sa)
        (plan.initial_eq ∙ ap pos (sym st))
      ∙ e₂ in
    (
      r₂,
      rw (e₁, run) e₃,
      l₂ ∙ ap (λ x. x ++ planned total step initial more most n 0) l₁,
      whole_time total step initial more most n h₁ h₂,
      omega (arith, n₂, n₁),
    )
