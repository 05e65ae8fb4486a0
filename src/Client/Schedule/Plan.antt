-- ===== src/Client/Schedule/Plan.antt =====
-- The load steps that a benchmark should make.
use etcd_cloud_benchmarking.Prelude.{
  ℕ, zero, suc, ◌+◌, ◌-◌, ◌*◌, ◌^◌, ◌≤◌, ◌<◌, ◌≡◌, false, List, [], ◌∷◌, ltb, leb, if◌then◌else◌,
  arith,
}
use etcd_cloud_benchmarking.Prelude.Int.{pos, pos_part}
use etcd_cloud_benchmarking.Control.Config.{BenchctlConfig}
use etcd_cloud_benchmarking.Client.Schedule.{Load}

-- a configuration in natural numbers, below 2^62, with steps that take time
pub record IsPlan (c : BenchctlConfig) (total step initial more most : ℕ) : Type 0 where
  pub total_eq : c.total_duration ≡ pos total
  pub step_eq : c.step_duration ≡ pos step
  pub initial_eq : c.initial_clients ≡ pos initial
  pub more_eq : c.client_step_size ≡ pos more
  pub most_eq : c.max_clients ≡ pos most
  pub step_pos : 0 < step
  pub total-lt : total < 2 ^ 62
  pub step-lt : step < 2 ^ 62
  pub initial-lt : initial < 2 ^ 62
  pub more-lt : more < 2 ^ 62
  pub most-lt : most < 2 ^ 62

-- the number of clients in round i: it grows by a fixed number, up to the maximum
abbrev pub clients_at : (initial more most i : ℕ) → ℕ
clients_at initial more most i =
    if leb most initial
    then initial
    else if ltb most (initial + i * more)
    then most
    else initial + i * more

-- the length of round i: a step, or what is left of the total
abbrev pub duration_at : (total step i : ℕ) → ℕ
duration_at total step i = if ltb (total - i * step) step then total - i * step else step

-- `k` rounds from round `i` on
abbrev pub planned : (total step initial more most k i : ℕ) → List Load
planned total step initial more most zero i = []
planned total step initial more most (suc k) i =
    record {
      duration = pos (duration_at total step i);
      clients = pos (clients_at initial more most i);
      is_warmup = false;
    }
    ∷ planned total step initial more most k (suc i)

-- how long the loads take together
abbrev pub time_of : List Load → ℕ
time_of [] = 0
time_of (l ∷ ls) = pos_part l.duration + time_of ls

time_of-planned :
    (total step initial more most k i : ℕ)
    → total ≤ (i + k) * step
    → (i + k) * step < total + step
    → i * step + time_of (planned total step initial more most k i)
      ≡ (if leb total (i * step) then i * step else total)
time_of-planned total step initial more most zero i h₁ h₂ = ground (arith, rounded)
  where
    rounded : total ≤ i * step
    rounded = omega (arith, h₁)
time_of-planned total step initial more most (suc k) i h₁ h₂ = ground (
  arith,
  time_of-planned total step initial more most k (suc i) (omega (arith, h₁)) (omega (arith, h₂)),
)

pub whole_time :
    (total step initial more most n : ℕ)
    → total ≤ n * step
    → n * step < total + step
    → time_of (planned total step initial more most n 0) ≡ total
whole_time total step initial more most n h₁ h₂ =
    let t =
      time_of-planned total step initial more most n 0 (omega (arith, h₁)) (omega (arith, h₂)) in
    let z : 0 * step ≡ 0 = omega arith in
    if_total (time_of (planned total step initial more most n 0)) (0 * step) z t
  where
    if_total : (x z : ℕ) → z ≡ 0 → z + x ≡ (if leb total z then z else total) → x ≡ total
    if_total x z h e = ground arith
