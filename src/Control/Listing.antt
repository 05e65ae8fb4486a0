-- ===== src/Control/Listing.antt =====
-- control/cmd/config.go: what `config list` and `config get` print. The strings of durations and the
-- bytes of texts are parameters, and the padding of the columns is left out.
pub mod Laws
pub mod Others
pub mod Tests
use etcd_cloud_benchmarking.Prelude.{
  Bool, true, false, ◌||◌, Option, none, some, List, [], ◌∷◌, ◌++◌, map, String,
}
use etcd_cloud_benchmarking.Prelude.Int.{ℤ}
use etcd_cloud_benchmarking.Prelude.Text.{Text, codes, itoa, has_prefix}
use etcd_cloud_benchmarking.Control.Config.{BenchctlConfig}
use etcd_cloud_benchmarking.Control.Names.{to_snake_case, to_camel_case}
use etcd_cloud_benchmarking.Control.Settings.{
  Field, seed, num_keys, key_size, value_size, endpoints, warmup_duration, step_duration,
  total_duration, initial_clients, client_step_size, max_clients, max_wait_time, workload_type,
  scenario, metrics_file, fields, field_name, find_field,
}

-- the value of a field, by its kind
pub data Value : Type 0 where
  number duration : ℤ → Value
  text : String → Value
  slice : Option (List Text) → Value

-- `configVal.Field(i)`
unfoldable pub value_of : Field → BenchctlConfig → Value
value_of seed c = number c.seed
value_of num_keys c = number c.num_keys
value_of key_size c = number c.key_size
value_of value_size c = number c.value_size
value_of endpoints c = slice c.endpoints
value_of warmup_duration c = duration c.warmup_duration
value_of step_duration c = duration c.step_duration
value_of total_duration c = duration c.total_duration
value_of initial_clients c = number c.initial_clients
value_of client_step_size c = number c.client_step_size
value_of max_clients c = number c.max_clients
value_of max_wait_time c = duration c.max_wait_time
value_of workload_type c = text c.workload_type
value_of scenario c = text c.scenario
value_of metrics_file c = text c.metrics_file

-- the type of a field as reflect prints it
unfoldable pub type_string : Field → Text
type_string seed = codes "int64"
type_string endpoints = codes "[]string"
type_string warmup_duration = codes "config.Duration"
type_string step_duration = codes "config.Duration"
type_string total_duration = codes "config.Duration"
type_string max_wait_time = codes "config.Duration"
type_string workload_type = codes "string"
type_string scenario = codes "string"
type_string metrics_file = codes "string"
type_string f = codes "int"

unfoldable pub validate_tag : Field → Text
validate_tag key_size = codes "required,gt=0,valid_key_size"
validate_tag endpoints = codes "required,dive,valid_endpoint"
validate_tag warmup_duration = codes "required"
validate_tag step_duration = codes "required"
validate_tag total_duration = codes "required"
validate_tag max_wait_time = codes "required"
validate_tag workload_type = codes "required,valid_workload_type"
validate_tag scenario = codes "required,valid_scenario"
validate_tag metrics_file = codes "required,filepath"
validate_tag f = codes "required,gt=0"

-- `strings.Contains`
unfoldable pub contains : Text → Text → Bool
contains [] part = has_prefix [] part
contains (x ∷ xs) part = has_prefix (x ∷ xs) part || contains xs part

-- `strings.Join`
unfoldable pub join : Text → List Text → Text
join sep [] = []
join sep (t ∷ []) = t
join sep (t ∷ u ∷ ts) = t ++ (sep ++ join sep (u ∷ ts))

pub record Printer : Type 0 where
  pub duration_string : ℤ → Text
  pub bytes_of : String → Text

-- a row of `config list`
pub record Row : Type 0 where
  pub field : Text
  pub type_name : Text
  pub required : Bool
  pub current : Text

module _ (p : Printer) where
  elements : Option (List Text) → List Text
  elements none = []
  elements (some ts) = ts

  -- `fmt.Sprint` of a value, and `%v`
  unfoldable pub sprint : Value → Text
  unfolding elements join
  sprint (number z) = itoa z
  sprint (duration d) = p.duration_string d
  sprint (text s) = p.bytes_of s
  sprint (slice ts) = codes "[" ++ (join (codes " ") (elements ts) ++ codes "]")

  listed_elements : List Text → Text
  listed_elements [] = codes "[]"
  listed_elements (t ∷ ts) = join (codes ",") (t ∷ ts)

  -- the current value in a row
  unfoldable pub value_string : Value → Text
  unfolding sprint elements listed_elements
  value_string (slice ts) = listed_elements (elements ts)
  value_string (number z) = sprint (number z)
  value_string (duration d) = sprint (duration d)
  value_string (text s) = sprint (text s)

  unfoldable pub row : BenchctlConfig → Field → Row
  unfolding value_of type_string validate_tag contains value_string
  row c f = record {
    field = to_snake_case (field_name f);
    type_name = type_string f;
    required = contains (validate_tag f) (codes "required");
    current = value_string (value_of f c);
  }

  -- `config list`
  unfoldable pub config_list : BenchctlConfig → List Row
  unfolding row
  config_list c = map (row c) fields

  printed : Option Field → BenchctlConfig → Option Text
  unfolding value_of sprint
  printed none c = none
  printed (some f) c = some (sprint (value_of f c))

  -- `config get`; `none` is the error that there is no such field
  unfoldable pub config_get : Text → BenchctlConfig → Option Text
  unfolding printed
  config_get name c = printed (find_field (to_camel_case name)) c
