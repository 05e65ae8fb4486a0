-- ===== src/Control/Settings/Lookup.antt =====
-- Which field a name finds, and what `config set` writes.
use etcd_cloud_benchmarking.Prelude.{
  ◌≡◌, ◌⊎◌, inl, inr, refl, Bool, true, false, Option, none, some, List, [], ◌∷◌, Bool-cases,
}
use etcd_cloud_benchmarking.Prelude.Text.{
  Text, text_eq, split, split_parts, split_cons, equal_fold, is_upper, is_lower, to_lower, to_upper,
}
use etcd_cloud_benchmarking.Control.Config.{BenchctlConfig}
use etcd_cloud_benchmarking.Control.Config.Validate.{Validator, Net, validate_config}
use etcd_cloud_benchmarking.Control.Names.{
  to_snake_case, snake_from, to_camel_case, camel_part, camel_rest, camel_parts,
}
use etcd_cloud_benchmarking.Control.Settings.{
  Field, seed, num_keys, key_size, value_size, endpoints, warmup_duration, step_duration,
  total_duration, initial_clients, client_step_size, max_clients, max_wait_time, workload_type,
  scenario, metrics_file, field_name, find_field, Library, set_field, Outcome, refused, save,
  stored, set_named, config_set,
}

-- `config set` and `config get` find each field by the name that `config list` shows, its name in
-- snake case.
pub find_field-listed :
    (f : Field) → find_field (to_camel_case (to_snake_case (field_name f))) ≡ some f
unfolding find_field to_camel_case to_snake_case field_name snake_from camel_parts camel_part
    camel_rest split split_parts equal_fold text_eq to_lower to_upper is_upper is_lower split_cons
find_field-listed seed = refl
find_field-listed num_keys = refl
find_field-listed key_size = refl
find_field-listed value_size = refl
find_field-listed endpoints = refl
find_field-listed warmup_duration = refl
find_field-listed step_duration = refl
find_field-listed total_duration = refl
find_field-listed initial_clients = refl
find_field-listed client_step_size = refl
find_field-listed max_clients = refl
find_field-listed max_wait_time = refl
find_field-listed workload_type = refl
find_field-listed scenario = refl
find_field-listed metrics_file = refl

-- a run that wrote a valid configuration, with the success of that write, or failed without a write
abbrev pub Stored : Validator → Net → Bool → Outcome → Type 0
Stored v n write_ok o =
    ((o.ok ≡ write_ok)
      × (o.written ≡ some o.ctl_config)
      × (validate_config v n o.ctl_config ≡ true))
    ⊎ ((o.ok ≡ false) × (o.written ≡ none))

module _ (l : Library) (v : Validator) (n : Net) where
  refused-Stored : (w : Bool) (c : BenchctlConfig) → Stored v n w (refused c)
  unfolding refused
  refused-Stored w c = inr (refl, refl)

  save-Stored : (w : Bool) (c : BenchctlConfig) → Stored v n w (save l v n w c)
  unfolding save
  save-Stored w c = elim (Bool-cases (validate_config v n c)) [
    | inl h ↦ rw (h) (inl (refl, refl, h))
    | inr h ↦ rw (h) (refused-Stored w c)
  ]

  set_named-Stored :
      (w : Bool) (f : Option Field) (value : Text) (c : BenchctlConfig)
      → Stored v n w (set_named l v n w f value c)
  unfolding set_named stored
  set_named-Stored w none value c = refused-Stored w c
  set_named-Stored w (some f) value c = of_result (set_field l f value c)
    where
      of_result : (r : Option BenchctlConfig) → Stored v n w (stored l v n w r c)
      of_result none = refused-Stored w c
      of_result (some c') = save-Stored w c'

-- `config set`, with any argument and any configuration before it, either writes the file, and then
-- with the configuration that is in memory after it, which validates, and returns the error of that
-- write if there is one; or it returns an error and writes nothing.
pub config_set-Stored :
    (l : Library) (v : Validator) (n : Net) (w : Bool) (arg : Text) (c : BenchctlConfig)
    → Stored v n w (config_set l v n w arg c)
unfolding config_set
config_set-Stored l v n w arg c = of_parts (split b'=' arg)
  where
    of_parts :
        (ps : List Text)
        → Stored v n w (elim ps [
          | [] ↦ refused c
          | f ∷ [] ↦ refused c
          | f ∷ value ∷ [] ↦ set_named l v n w (find_field (to_camel_case f)) value c
          | f ∷ value ∷ x ∷ xs ↦ refused c
        ])
    of_parts [] = refused-Stored l v n w c
    of_parts (f ∷ []) = refused-Stored l v n w c
    of_parts (f ∷ value ∷ []) = set_named-Stored l v n w (find_field (to_camel_case f)) value c
    of_parts (f ∷ value ∷ x ∷ xs) = refused-Stored l v n w c
