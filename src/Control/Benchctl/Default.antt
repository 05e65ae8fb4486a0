-- ===== src/Control/Benchctl/Default.antt =====
-- The default configuration validates.
use text.Mathlib.Text.{◌==◌ as str_eq}
use text.Mathlib.TextEquality.{eq_iff}
use etcd_cloud_benchmarking.Prelude.{ℕ, ◌*◌, ◌<◌, ◌≡◌, refl, true, false, String, arith}
use etcd_cloud_benchmarking.Prelude.Int.{pos}
use etcd_cloud_benchmarking.Control.Config.Validate.{
  Validator, Net, one_of, validate_workload_type, validate_scenario_type,
  validate_scenario_and_workload_type, validate_key_size, validate_endpoints, validate_config,
  get_default_config, minute,
}

module _ (v : Validator) where
  numbers : (n : ℕ) → 0 < n → v.required_number (pos n) ≡ true
  numbers n h = (v.required_number_iff (pos n)).1 (λ e. ground (arith, e, h))

  signs : (n : ℕ) → 0 < n → v.positive (pos n) ≡ true
  signs n h = (v.positive_iff (pos n)).1 (omega (arith, h))

  text_ok : (s : String) → str_eq s "" ≡ false → v.required_text s ≡ true
  text_ok s h = (v.required_text_iff s).1 (λ e. ground (arith, h, (eq_iff s "").1 e))

  -- With a validator that takes the default name of the metrics file, the default configuration
  -- validates, whatever the network package does.
  pub get_default_config-valid :
      (n : Net) → v.is_filepath "metrics.csv" ≡ true → validate_config v n get_default_config ≡ true
  unfolding validate_config validate_endpoints validate_key_size one_of validate_workload_type
      validate_scenario_type validate_scenario_and_workload_type
  get_default_config-valid n h =
      rw
        (
          numbers 0x207B096061CDA310 (omega arith),
          signs 0x207B096061CDA310 (omega arith),
          numbers 1_000_000 (omega arith),
          signs 1_000_000 (omega arith),
          numbers 16 (omega arith),
          signs 16 (omega arith),
          numbers 128 (omega arith),
          signs 128 (omega arith),
          numbers (5 * minute) (omega arith),
          numbers minute (omega arith),
          numbers (30 * minute) (omega arith),
          numbers 5 (omega arith),
          signs 5 (omega arith),
          numbers 100 (omega arith),
          signs 100 (omega arith),
          numbers 500_000_000 (omega arith),
          text_ok "read-heavy" refl,
          text_ok "kv-store" refl,
          text_ok "metrics.csv" refl,
          h,
        )
        refl
