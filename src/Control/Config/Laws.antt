-- ===== src/Control/Config/Laws.antt =====
-- What a configuration that validates guarantees to the benchmark client.
use text.Mathlib.Text.{◌==◌ as str_eq}
use text.Mathlib.TextEquality.{eq_iff}
use etcd_cloud_benchmarking.Prelude.{
  ℕ, ◌+◌, ◌≡◌, refl, true, some, String, arith, ◌⊎◌, inl, inr, Bool-cases,
}
use etcd_cloud_benchmarking.Prelude.Int.{negsuc}
use etcd_cloud_benchmarking.Control.Config.{BenchctlConfig}
use etcd_cloud_benchmarking.Control.Config.Validate.{
  Validator, Net, one_of, kv_workloads, lock_workloads, validate_scenario_and_workload_type,
  validate_key_size, validate_config, get_rw_percentages,
}
use etcd_cloud_benchmarking.Generator.{Generator}

-- what the numbers of a valid configuration are
record Checked (v : Validator) (n : Net) (c : BenchctlConfig) : Type 0 where
  keys : v.positive c.num_keys ≡ true
  key_size : validate_key_size c.key_size ≡ true
  value : v.positive c.value_size ≡ true
  initial : v.positive c.initial_clients ≡ true
  more : v.positive c.client_step_size ≡ true
  most : v.positive c.max_clients ≡ true
  matched : validate_scenario_and_workload_type c.scenario c.workload_type ≡ true

checked :
    (v : Validator) (n : Net) (c : BenchctlConfig) → validate_config v n c ≡ true → Checked v n c
unfolding validate_config
checked v n c h = record {
  keys = ground arith;
  key_size = ground arith;
  value = ground arith;
  initial = ground arith;
  more = ground arith;
  most = ground arith;
  matched = ground arith;
}

-- the two shares of a workload, if it is one of the key-value workloads
shares :
    (w : String)
    → one_of kv_workloads w ≡ true
    → (r u : ℕ) × (get_rw_percentages w ≡ some (r, u)) × (r + u ≡ 100)
unfolding one_of get_rw_percentages
shares w h = elim (Bool-cases (str_eq w "read-heavy")) [
  | inl a ↦ (95, 5, rw (a, get_rw_percentages) refl, refl)
  | inr a ↦ elim (Bool-cases (str_eq w "update-heavy")) [
    | inl b ↦ (50, 50, rw (a, b, get_rw_percentages) refl, refl)
    | inr b ↦ elim (Bool-cases (str_eq w "read-only")) [
      | inl d ↦ (100, 0, rw (a, b, d, get_rw_percentages) refl, refl)
      | inr d ↦ absurd (ground (arith, h))
    ]
  ]
]

-- The workload of a configuration that validates fits its scenario: either the scenario is kv-store
-- and GetRWPercentages finds shares of reads and writes that make 100 per cent, or the scenario is
-- lock-service and the workload is one of the four that the lock runner handles.
pub validate_config-workload :
    (v : Validator) (n : Net) (c : BenchctlConfig)
    → validate_config v n c ≡ true
    → ((c.scenario ≡ "kv-store")
        × ((r u : ℕ) × (get_rw_percentages c.workload_type ≡ some (r, u)) × (r + u ≡ 100)))
      ⊎ ((c.scenario ≡ "lock-service") × (one_of lock_workloads c.workload_type ≡ true))
unfolding validate_scenario_and_workload_type
validate_config-workload v n c h =
    let m = (checked v n c h).matched in
    elim (Bool-cases (str_eq c.scenario "kv-store")) [
      | inl k ↦
          inl ((eq_iff c.scenario "kv-store").0 k, shares c.workload_type (ground (arith, m, k)))
      | inr k ↦ elim (Bool-cases (str_eq c.scenario "lock-service")) [
        | inl l ↦ inr ((eq_iff c.scenario "lock-service").0 l, ground (arith, m, k, l))
        | inr l ↦ absurd (ground (arith, m, k, l))
      ]
    ]

-- Validation does not look at the sign of a duration: with any negative step duration instead, a
-- configuration that validates still does.
pub validate_config-negative_step :
    (v : Validator) (n : Net) (c : BenchctlConfig) (m : ℕ)
    → validate_config v n c ≡ true
    → validate_config v n (record c { step_duration = negsuc m }) ≡ true
unfolding validate_config
validate_config-negative_step v n c m h =
    let nonzero = (v.required_number_iff (negsuc m)).1 (λ e. cc e) in ground (arith, nonzero)
