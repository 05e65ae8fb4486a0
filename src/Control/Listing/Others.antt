-- ===== src/Control/Listing/Others.antt =====
-- `config set` leaves the other fields as they are.
use etcd_cloud_benchmarking.Prelude.{
  String, ◌≡◌, ◌≢◌, refl, ap, ◌∙◌, Bool, Option, none, some, List, [], ◌∷◌, arith,
}
use etcd_cloud_benchmarking.Prelude.Int.{ℤ}
use etcd_cloud_benchmarking.Prelude.Text.{Text, split, sscanf_d}
use etcd_cloud_benchmarking.Control.Config.{BenchctlConfig}
use etcd_cloud_benchmarking.Control.Config.Validate.{Validator, Net}
use etcd_cloud_benchmarking.Control.Names.{to_camel_case}
use etcd_cloud_benchmarking.Control.Settings.{
  Field, seed, num_keys, key_size, value_size, endpoints, warmup_duration, step_duration,
  total_duration, initial_clients, client_step_size, max_clients, max_wait_time, workload_type,
  scenario, metrics_file, find_field, Library, Outcome, set_number, set_text, number, set_field,
  refused, save, stored, set_named, config_set,
}
use etcd_cloud_benchmarking.Control.Listing.{value_of}

-- the field that an argument `field=value` names
unfoldable pub named : Text → Option Field
named arg = elim (split b'=' arg) [
  | [] ↦ none
  | f ∷ [] ↦ none
  | f ∷ value ∷ [] ↦ find_field (to_camel_case f)
  | f ∷ value ∷ x ∷ xs ↦ none
]

set_number-others :
    (g h : Field) (z : ℤ) (c : BenchctlConfig)
    → g ≢ h
    → value_of h (set_number g z c) ≡ value_of h c
unfolding value_of set_number
set_number-others seed seed z c n = absurd (n refl)
set_number-others num_keys num_keys z c n = absurd (n refl)
set_number-others key_size key_size z c n = absurd (n refl)
set_number-others value_size value_size z c n = absurd (n refl)
set_number-others warmup_duration warmup_duration z c n = absurd (n refl)
set_number-others step_duration step_duration z c n = absurd (n refl)
set_number-others total_duration total_duration z c n = absurd (n refl)
set_number-others initial_clients initial_clients z c n = absurd (n refl)
set_number-others client_step_size client_step_size z c n = absurd (n refl)
set_number-others max_clients max_clients z c n = absurd (n refl)
set_number-others max_wait_time max_wait_time z c n = absurd (n refl)
set_number-others _ _ z c n = refl

set_text-others :
    (g h : Field) (s : String) (c : BenchctlConfig)
    → g ≢ h
    → value_of h (set_text g s c) ≡ value_of h c
unfolding value_of set_text
set_text-others workload_type workload_type s c n = absurd (n refl)
set_text-others scenario scenario s c n = absurd (n refl)
set_text-others metrics_file metrics_file s c n = absurd (n refl)
set_text-others _ _ s c n = refl

set_slice-others :
    (h : Field) (ts : Option (List Text)) (c : BenchctlConfig)
    → endpoints ≢ h
    → value_of h (record c { endpoints = ts }) ≡ value_of h c
unfolding value_of
set_slice-others endpoints ts c n = absurd (n refl)
set_slice-others _ ts c n = refl

-- the configuration is that before but for a field
abbrev SameBut : Field → BenchctlConfig → BenchctlConfig → Type 0
SameBut g c c' = (h : Field) → g ≢ h → value_of h c' ≡ value_of h c

abbrev SameButIn : Field → BenchctlConfig → Option BenchctlConfig → Type 0
SameButIn g c none = Unit
SameButIn g c (some c') = SameBut g c c'

module _ (l : Library) where
  number-others : (g : Field) (z : Option ℤ) (c : BenchctlConfig) → SameButIn g c (number g z c)
  unfolding number
  number-others g none c = tt
  number-others g (some z) c = λ h n. set_number-others g h z c n

  set_field-others :
      (g : Field) (value : Text) (c : BenchctlConfig) → SameButIn g c (set_field l g value c)
  unfolding set_field
  set_field-others endpoints value c = λ h n. set_slice-others h _ c n
  set_field-others workload_type value c = λ h n. set_text-others workload_type h _ c n
  set_field-others scenario value c = λ h n. set_text-others scenario h _ c n
  set_field-others metrics_file value c = λ h n. set_text-others metrics_file h _ c n
  set_field-others warmup_duration value c =
      number-others warmup_duration (l.parse_duration value) c
  set_field-others step_duration value c = number-others step_duration (l.parse_duration value) c
  set_field-others total_duration value c = number-others total_duration (l.parse_duration value) c
  set_field-others max_wait_time value c = number-others max_wait_time (l.parse_duration value) c
  set_field-others seed value c = number-others seed (sscanf_d value) c
  set_field-others num_keys value c = number-others num_keys (sscanf_d value) c
  set_field-others key_size value c = number-others key_size (sscanf_d value) c
  set_field-others value_size value c = number-others value_size (sscanf_d value) c
  set_field-others initial_clients value c = number-others initial_clients (sscanf_d value) c
  set_field-others client_step_size value c = number-others client_step_size (sscanf_d value) c
  set_field-others max_clients value c = number-others max_clients (sscanf_d value) c

module _ (l : Library) (v : Validator) (n : Net) (w : Bool) where
  save-config : (c : BenchctlConfig) → (save l v n w c).ctl_config ≡ c
  unfolding save
  save-config c = ground arith

  stored-others :
      (g : Field) (c : BenchctlConfig) (o : Option BenchctlConfig)
      → SameButIn g c o
      → SameBut g c (stored l v n w o c).ctl_config
  unfolding stored
  stored-others g c none k h d = refl
  stored-others g c (some c') k h d = ap (value_of h) (save-config c') ∙ k h d

  set_named-others :
      (f : Option Field) (value : Text) (c : BenchctlConfig) (h : Field)
      → f ≢ some h
      → value_of h (set_named l v n w f value c).ctl_config ≡ value_of h c
  unfolding set_named
  set_named-others none value c h d = refl
  set_named-others (some g) value c h d =
      stored-others g c (set_field l g value c) (set_field-others l g value c) h
        (λ e. d (ap some e))

  -- Whatever the argument of `config set`, and whether it is accepted, refused or cannot be written:
  -- in the configuration in memory after it every field but the one that the argument names has the
  -- value that it had.
  pub config_set-others :
      (arg : Text) (c : BenchctlConfig) (h : Field)
      → named arg ≢ some h
      → value_of h (config_set l v n w arg c).ctl_config ≡ value_of h c
  unfolding config_set named
  config_set-others arg c h = of_parts (split b'=' arg)
    where
      of_parts :
          (ps : List Text)
          → (elim ps [
            | [] ↦ none
            | f ∷ [] ↦ none
            | f ∷ value ∷ [] ↦ find_field (to_camel_case f)
            | f ∷ value ∷ x ∷ xs ↦ none
          ])
            ≢ some h
          → value_of h
              (let o : Outcome = elim ps [
                | [] ↦ refused c
                | f ∷ [] ↦ refused c
                | f ∷ value ∷ [] ↦ set_named l v n w (find_field (to_camel_case f)) value c
                | f ∷ value ∷ x ∷ xs ↦ refused c
              ] in
                o).ctl_config
            ≡ value_of h c
      of_parts [] d = refl
      of_parts (f ∷ []) d = refl
      of_parts (f ∷ value ∷ []) d = set_named-others (find_field (to_camel_case f)) value c h d
      of_parts (f ∷ value ∷ x ∷ xs) d = refl
