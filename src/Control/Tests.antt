-- ===== src/Control/Tests.antt =====
-- The theorems about configurations and field names at concrete ones.
use text.Mathlib.Text.{◌==◌ as str_eq}
use text.Mathlib.TextEquality.{eq_iff}
use etcd_cloud_benchmarking.Prelude.{
  zero, suc, ◌≡◌, ◌≢◌, ◌↔◌, refl, Bool, true, false, not, none, String, ◌++◌, ◌∷◌, [], Bool-cases,
  inl, inr, arith,
}
use etcd_cloud_benchmarking.Prelude.Int.{ℤ, pos, negsuc, int_eq, ltb_ℤ, ◌<ℤ◌}
use etcd_cloud_benchmarking.Prelude.Text.{codes, text_eq, is_lower, to_lower}
use etcd_cloud_benchmarking.Control.Config.{BenchctlConfig}
use etcd_cloud_benchmarking.Control.Config.Validate.{
  Validator, Net, one_of, validate_workload_type, validate_scenario_type,
  validate_scenario_and_workload_type, validate_key_size, validate_endpoints, validate_config,
  get_default_config,
}
use etcd_cloud_benchmarking.Control.Names.{to_camel_case, to_snake_case, is_acronym}
use etcd_cloud_benchmarking.Control.Names.Words.{
  Word, lower, capitals, underscored, to_camel_case-to_snake_case,
}

pub nonzero : ℤ → Bool
nonzero z = not (int_eq z (pos 0))

pub nonzero_iff : (z : ℤ) → (nonzero z ≡ true) ↔ (z ≢ pos 0)
unfolding nonzero int_eq
nonzero_iff (pos zero) = (λ h e. cc, λ h. absurd (h refl))
nonzero_iff (pos (suc n)) = (λ h e. cc, λ h. ground arith)
nonzero_iff (negsuc n) = (λ h e. cc, λ h. refl)

pub written : String → Bool
written s = not (str_eq s "")

pub written_iff : (s : String) → (written s ≡ true) ↔ (s ≢ "")
unfolding written
written_iff s = (
  λ h e. ground (arith, h, (eq_iff s "").1 e),
  λ h. elim (Bool-cases (str_eq s "")) [
    | inl e ↦ absurd (h ((eq_iff s "").0 e))
    | inr e ↦ rw (e) refl
  ],
)

pub positive_iff : (z : ℤ) → (ltb_ℤ (pos 0) z ≡ true) ↔ (pos 0 <ℤ z)
positive_iff z = (λ h. ground arith, λ h. ground arith)

-- a validator as documented, which takes any path
abbrev pub plain : Validator
plain = record {
  required_number = nonzero;
  required_text = written;
  positive = λ z. ltb_ℤ (pos 0) z;
  is_filepath = λ s. true;
  required_number_iff = nonzero_iff;
  required_text_iff = written_iff;
  positive_iff = positive_iff;
}

-- a network package that finds no address anywhere
abbrev pub no_net : Net
no_net = record { split_host_port = λ e. none; is_ip = λ e. false }

-- the default configuration with two small keys
abbrev pub small : BenchctlConfig
small = record get_default_config { num_keys = pos 2; key_size = pos 16; value_size = pos 1 }

pub small_valid : validate_config plain no_net small ≡ true
unfolding validate_config validate_endpoints validate_key_size nonzero int_eq written one_of
    validate_workload_type validate_scenario_type validate_scenario_and_workload_type
small_valid = refl

-- the words of MaxWaitTime
abbrev max_word : Word
max_word = record { first = b'm'; second = b'a'; others = codes "x" }

abbrev wait_word : Word
wait_word = record { first = b'w'; second = b'a'; others = codes "it" }

abbrev time_word : Word
time_word = record { first = b't'; second = b'i'; others = codes "me" }

to_camel_case-to_snake_case_example :
    (to_snake_case (capitals (max_word ∷ wait_word ∷ time_word ∷ []))
      ≡ lower max_word ++ underscored (wait_word ∷ time_word ∷ []))
    × (to_camel_case (lower max_word ++ underscored (wait_word ∷ time_word ∷ []))
        ≡ lower max_word ++ capitals (wait_word ∷ time_word ∷ []))
    × (to_snake_case (lower max_word ++ capitals (wait_word ∷ time_word ∷ []))
        ≡ lower max_word ++ underscored (wait_word ∷ time_word ∷ []))
unfolding is_acronym is_lower to_lower text_eq
to_camel_case-to_snake_case_example =
    to_camel_case-to_snake_case max_word (wait_word ∷ time_word ∷ [])
      record { lowered = (refl, (refl, (refl, tt))); no_acronym = refl }
      (
        record { lowered = (refl, (refl, (refl, (refl, tt)))); no_acronym = refl },
        (record { lowered = (refl, (refl, (refl, (refl, tt)))); no_acronym = refl }, tt),
      )
