-- ===== src/Control/Config/Validate.antt =====
-- control/config/config.go: the tags and validators of a configuration, its default, and the share
-- of reads (client/runner/config.go) of a workload.
use text.Mathlib.Text.{◌==◌ as str_eq}
use etcd_cloud_benchmarking.Prelude.{
  ℕ, ◌*◌, ◌≡◌, ◌≢◌, ◌↔◌, Bool, true, false, ◌&&◌, ◌||◌, Option, none, some, List, [], ◌∷◌, String,
  drop, if◌then◌else◌,
}
use etcd_cloud_benchmarking.Prelude.Int.{ℤ, pos, leb_ℤ, ◌<ℤ◌}
use etcd_cloud_benchmarking.Prelude.Text.{Text, codes, atoi, has_prefix}
use etcd_cloud_benchmarking.Control.Config.{BenchctlConfig}

-- What the validator package documents of the tags that the configuration uses: `required` refuses
-- the zero value of a number or a text, `gt=0` what is not positive.
pub record Validator : Type 0 where
  pub required_number : ℤ → Bool
  pub required_text : String → Bool
  pub positive : ℤ → Bool
  pub is_filepath : String → Bool
  pub required_number_iff : (z : ℤ) → (required_number z ≡ true) ↔ (z ≢ pos 0)
  pub required_text_iff : (s : String) → (required_text s ≡ true) ↔ (s ≢ "")
  pub positive_iff : (z : ℤ) → (positive z ≡ true) ↔ (pos 0 <ℤ z)

-- net.SplitHostPort, and whether net.ParseIP finds an address
pub record Net : Type 0 where
  pub split_host_port : Text → Option (Text × Text)
  pub is_ip : Text → Bool

-- a map[string]bool with these keys at true
unfoldable pub one_of : List String → String → Bool
one_of [] s = false
one_of (t ∷ ts) s = str_eq s t || one_of ts s

abbrev pub kv_workloads : List String
kv_workloads = "read-heavy" ∷ "update-heavy" ∷ "read-only" ∷ []

abbrev pub lock_workloads : List String
lock_workloads = "lock-only" ∷ "lock-mixed-read" ∷ "lock-mixed-write" ∷ "lock-contention" ∷ []

unfoldable pub validate_workload_type : String → Bool
unfolding one_of
validate_workload_type w =
    one_of
      ("read-heavy" ∷ "update-heavy" ∷ "read-only" ∷ "lock-only" ∷ "lock-mixed-read"
        ∷ "lock-mixed-write" ∷ "lock-contention" ∷ [])
      w

unfoldable pub validate_scenario_type : String → Bool
unfolding one_of
validate_scenario_type s = one_of ("kv-store" ∷ "lock-service" ∷ []) s

-- `validateScenarioAndWorkloadType`: no error is reported
unfoldable pub validate_scenario_and_workload_type : String → String → Bool
unfolding one_of
validate_scenario_and_workload_type scenario workload =
    if str_eq scenario "kv-store"
    then one_of kv_workloads workload
    else if str_eq scenario "lock-service"
    then one_of lock_workloads workload
    else false

unfoldable pub validate_key_size : ℤ → Bool
validate_key_size k = leb_ℤ (pos 12) k

strip_protocol : Text → Text
strip_protocol e =
    if has_prefix (codes "http://") e
    then drop 7 e
    else if has_prefix (codes "https://") e
    then drop 8 e
    else e

valid_port : Option ℤ → Bool
valid_port none = false
valid_port (some p) = leb_ℤ (pos 1) p && leb_ℤ p (pos 65535)

valid_address : Net → Option (Text × Text) → Bool
unfolding valid_port
valid_address n none = false
valid_address n (some (host, port)) = valid_port (atoi port) && n.is_ip host

unfoldable pub validate_endpoint : Net → Text → Bool
unfolding strip_protocol valid_address
validate_endpoint n e = valid_address n (n.split_host_port (strip_protocol e))

unfoldable pub validate_endpoints : Net → List Text → Bool
validate_endpoints n [] = true
validate_endpoints n (e ∷ es) = validate_endpoint n e && validate_endpoints n es

required_endpoints : Net → Option (List Text) → Bool
required_endpoints n none = false
required_endpoints n (some es) = validate_endpoints n es

-- `ValidateConfig` returns nil
unfoldable pub validate_config : Validator → Net → BenchctlConfig → Bool
unfolding required_endpoints
validate_config v n c =
    (v.required_number c.seed && v.positive c.seed)
    && (v.required_number c.num_keys && v.positive c.num_keys)
    && (v.required_number c.key_size && v.positive c.key_size && validate_key_size c.key_size)
    && (v.required_number c.value_size && v.positive c.value_size)
    && required_endpoints n c.endpoints
    && (v.required_number c.warmup_duration
        && v.required_number c.step_duration
        && v.required_number c.total_duration)
    && (v.required_number c.initial_clients && v.positive c.initial_clients)
    && (v.required_number c.client_step_size && v.positive c.client_step_size)
    && (v.required_number c.max_clients && v.positive c.max_clients)
    && v.required_number c.max_wait_time
    && (v.required_text c.workload_type && validate_workload_type c.workload_type)
    && (v.required_text c.scenario && validate_scenario_type c.scenario)
    && (v.required_text c.metrics_file && v.is_filepath c.metrics_file)
    && validate_scenario_and_workload_type c.scenario c.workload_type

abbrev pub minute : ℕ
minute = 60_000_000_000

-- `GetDefaultConfig`
abbrev pub get_default_config : BenchctlConfig
get_default_config = record {
  seed = pos 0x207B096061CDA310;
  num_keys = pos 1_000_000;
  key_size = pos 16;
  value_size = pos 128;
  endpoints = some [];
  warmup_duration = pos (5 * minute);
  step_duration = pos (1 * minute);
  total_duration = pos (30 * minute);
  initial_clients = pos 5;
  client_step_size = pos 5;
  max_clients = pos 100;
  max_wait_time = pos 500_000_000;
  workload_type = "read-heavy";
  scenario = "kv-store";
  metrics_file = "metrics.csv";
}

-- `GetRWPercentages`; `none` is the error of an unknown workload type
unfoldable pub get_rw_percentages : String → Option (ℕ × ℕ)
get_rw_percentages w =
    if str_eq w "read-heavy"
    then some (95, 5)
    else if str_eq w "update-heavy"
    then some (50, 50)
    else if str_eq w "read-only"
    then some (100, 0)
    else none
