-- ===== src/Control/Settings.antt =====
-- control/cmd/config.go: `config set` and `config get`. A field of the configuration is found by its
-- name; time.ParseDuration, the file and the texts made of bytes are parameters.
pub mod Lookup
pub mod Tests
use etcd_cloud_benchmarking.Prelude.{
  ℕ, zero, suc, ◌==◌, Bool, true, false, ◌&&◌, ◌||◌, Option, none, some, List, [], ◌∷◌, map, String,
  if◌then◌else◌, leb,
}
use etcd_cloud_benchmarking.Prelude.Int.{ℤ}
use etcd_cloud_benchmarking.Prelude.Text.{Text, codes, split, equal_fold, sscanf_d, trim_space}
use etcd_cloud_benchmarking.Control.Config.{BenchctlConfig}
use etcd_cloud_benchmarking.Control.Config.Validate.{Validator, Net, validate_config}
use etcd_cloud_benchmarking.Control.Names.{to_camel_case}

-- the fields of `BenchctlConfig`
pub data Field : Type 0 where
  seed num_keys key_size value_size endpoints warmup_duration step_duration total_duration
        initial_clients client_step_size max_clients max_wait_time workload_type scenario
        metrics_file :
      Field

abbrev pub fields : List Field
fields =
    seed ∷ num_keys ∷ key_size ∷ value_size ∷ endpoints ∷ warmup_duration ∷ step_duration
    ∷ total_duration ∷ initial_clients ∷ client_step_size ∷ max_clients ∷ max_wait_time
    ∷ workload_type ∷ scenario ∷ metrics_file ∷ []

unfoldable pub field_name : Field → Text
field_name seed = codes "Seed"
field_name num_keys = codes "NumKeys"
field_name key_size = codes "KeySize"
field_name value_size = codes "ValueSize"
field_name endpoints = codes "Endpoints"
field_name warmup_duration = codes "WarmupDuration"
field_name step_duration = codes "StepDuration"
field_name total_duration = codes "TotalDuration"
field_name initial_clients = codes "InitialClients"
field_name client_step_size = codes "ClientStepSize"
field_name max_clients = codes "MaxClients"
field_name max_wait_time = codes "MaxWaitTime"
field_name workload_type = codes "WorkloadType"
field_name scenario = codes "Scenario"
field_name metrics_file = codes "MetricsFile"

matching : Text → List Field → List Field
unfolding field_name
matching name [] = []
matching name (f ∷ fs) =
    let rest = matching name fs in if equal_fold (field_name f) name then f ∷ rest else rest

-- FieldByNameFunc: a field that alone matches
only : List Field → Option Field
only [] = none
only (f ∷ []) = some f
only (f ∷ g ∷ fs) = none

unfoldable pub find_field : Text → Option Field
unfolding matching only
find_field name = only (matching name fields)

pub record Library : Type 0 where
  pub parse_duration : Text → Option ℤ
  pub of_bytes : Text → String

-- the types of fields
pub data Kind : Type 0 where
  duration int string slice : Kind

unfoldable pub kind : Field → Kind
kind seed = int
kind num_keys = int
kind key_size = int
kind value_size = int
kind endpoints = slice
kind warmup_duration = duration
kind step_duration = duration
kind total_duration = duration
kind initial_clients = int
kind client_step_size = int
kind max_clients = int
kind max_wait_time = duration
kind workload_type = string
kind scenario = string
kind metrics_file = string

unfoldable pub set_number : Field → ℤ → BenchctlConfig → BenchctlConfig
set_number seed z c = record c { seed = z }
set_number num_keys z c = record c { num_keys = z }
set_number key_size z c = record c { key_size = z }
set_number value_size z c = record c { value_size = z }
set_number warmup_duration z c = record c { warmup_duration = z }
set_number step_duration z c = record c { step_duration = z }
set_number total_duration z c = record c { total_duration = z }
set_number initial_clients z c = record c { initial_clients = z }
set_number client_step_size z c = record c { client_step_size = z }
set_number max_clients z c = record c { max_clients = z }
set_number max_wait_time z c = record c { max_wait_time = z }
set_number endpoints z c = c
set_number workload_type z c = c
set_number scenario z c = c
set_number metrics_file z c = c

unfoldable pub set_text : Field → String → BenchctlConfig → BenchctlConfig
set_text workload_type s c = record c { workload_type = s }
set_text scenario s c = record c { scenario = s }
set_text metrics_file s c = record c { metrics_file = s }
set_text f s c = c

unfoldable pub number : Field → Option ℤ → BenchctlConfig → Option BenchctlConfig
unfolding set_number
number f none c = none
number f (some z) c = some (set_number f z c)

module _ (l : Library) where
  -- the value converted and stored, or the error of its conversion
  unfoldable pub set_field : Field → Text → BenchctlConfig → Option BenchctlConfig
  unfolding number set_text kind
  set_field f value c = elim (kind f) [
    | duration ↦ number f (l.parse_duration value) c
    | int ↦ number f (sscanf_d value) c
    | string ↦ some (set_text f (l.of_bytes value) c)
    | slice ↦ some (record c { endpoints = some (map trim_space (split b',' value)) })
  ]

-- what `config set` returns, what it called WriteConfig with, and the configuration in memory after
-- it. A write that fails may leave any part of the file.
pub record Outcome : Type 0 where
  pub ok : Bool
  pub written : Option BenchctlConfig
  pub ctl_config : BenchctlConfig

unfoldable pub refused : BenchctlConfig → Outcome
refused c = record { ok = false; written = none; ctl_config = c }

module _ (l : Library) (v : Validator) (n : Net) where
  -- validation, then `WriteConfig`, which may fail
  unfoldable pub save : Bool → BenchctlConfig → Outcome
  unfolding refused
  save write_ok c =
      if validate_config v n c
      then record { ok = write_ok; written = some c; ctl_config = c }
      else refused c

  unfoldable pub stored : Bool → Option BenchctlConfig → BenchctlConfig → Outcome
  unfolding save refused
  stored write_ok none c = refused c
  stored write_ok (some c') c = save write_ok c'

  unfoldable pub set_named : Bool → Option Field → Text → BenchctlConfig → Outcome
  unfolding stored refused
  set_named write_ok none value c = refused c
  set_named write_ok (some f) value c = stored write_ok (set_field l f value c) c

  -- `config set` of an argument, `field=value`
  unfoldable pub config_set : Bool → Text → BenchctlConfig → Outcome
  unfolding set_named refused
  config_set write_ok arg c = elim (split b'=' arg) [
    | [] ↦ refused c
    | f ∷ [] ↦ refused c
    | f ∷ value ∷ [] ↦ set_named write_ok (find_field (to_camel_case f)) value c
    | f ∷ value ∷ x ∷ xs ↦ refused c
  ]
