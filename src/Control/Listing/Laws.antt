-- ===== src/Control/Listing/Laws.antt =====
-- What `config list` shows is what `config get` prints.
use etcd_cloud_benchmarking.Prelude.{
  ◌≡◌, ◌⊎◌, inl, inr, refl, ap, true, some, List, [], ◌∷◌, map, All,
}
use etcd_cloud_benchmarking.Prelude.Text.{Text, codes, has_prefix}
use etcd_cloud_benchmarking.Control.Config.{BenchctlConfig}
use etcd_cloud_benchmarking.Control.Settings.{Field, seed, endpoints, fields}
use etcd_cloud_benchmarking.Control.Settings.Lookup.{find_field-listed}
use etcd_cloud_benchmarking.Control.Listing.{
  value_of, type_string, validate_tag, contains, Printer, Row, sprint, value_string, row,
  config_list, printed, config_get,
}

module _ {ℓ κ} {A : Type ℓ} {B : Type κ} where
  All-mapped : (P : B → Type 0) (f : A → B) (xs : List A) → ((x : A) → P (f x)) → All P (map f xs)
  All-mapped P f [] h = tt
  All-mapped P f (x ∷ xs) h = (h x, All-mapped P f xs h)

always_required : (f : Field) → contains (validate_tag f) (codes "required") ≡ true
unfolding contains validate_tag has_prefix
always_required seed = refl
always_required f = refl

module _ (p : Printer) (c : BenchctlConfig) where
  same_or_slice :
      (f : Field)
      → (value_string p (value_of f c) ≡ sprint p (value_of f c))
        ⊎ (type_string f ≡ codes "[]string")
  unfolding value_string value_of type_string
  same_or_slice endpoints = inr refl
  same_or_slice f = inl refl

  -- a row as `config get` of its name has it
  pub Shows : Row → Type 0
  Shows r =
      (r.required ≡ true)
      × (t : Text) × (config_get p r.field c ≡ some t)
      × ((r.current ≡ t) ⊎ (r.type_name ≡ codes "[]string"))

  row-Shows : (f : Field) → Shows (row p c f)
  unfolding Shows row config_get printed
  row-Shows f = (
    always_required f,
    sprint p (value_of f c),
    ap (λ o. printed p o c) (find_field-listed f),
    same_or_slice f,
  )

  -- Every row of `config list` says that its field is required, and has the name of a field that
  -- `config get` finds, with the text that it prints as the current value, unless the field is a
  -- slice.
  pub config_list-config_get : All Shows (config_list p c)
  unfolding config_list
  config_list-config_get = All-mapped Shows (row p c) fields row-Shows
