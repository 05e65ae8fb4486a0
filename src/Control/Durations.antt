-- ===== src/Control/Durations.antt =====
-- control/config/duration.go, and ReadConfig and WriteConfig of control/config/config.go. Strings in
-- JSON, durations as text and JSON objects are those of encoding/json and time.
use etcd_cloud_benchmarking.Prelude.{
  ◌≡◌, refl, sym, ap, ◌∙◌, inl, inr, Bool-cases, Bool, true, Option, none, some, if◌then◌else◌,
}
use etcd_cloud_benchmarking.Prelude.Int.{ℤ}
use etcd_cloud_benchmarking.Prelude.Text.{Text}
use etcd_cloud_benchmarking.Control.Config.{BenchctlConfig}
use etcd_cloud_benchmarking.Control.Config.Validate.{Validator, Net, validate_config}

-- The contents of files, and what encoding/json makes of them. A text and a duration come back from their printed form. A struct does, too, when its fields with
-- methods of their own (`MarshalJSON` and `UnmarshalJSON` of a duration, with the error) do.
pub record Json : Type 1 where
  pub Bytes : Type 0
  pub encode_string : Text → Bytes
  pub decode_string : Bytes → Option Text
  pub duration_string : ℤ → Text
  pub parse_duration : Text → Option ℤ
  pub encode_struct : (ℤ → Bytes) → BenchctlConfig → Bytes
  pub decode_struct : (Bytes → Option ℤ) → Bytes → Option BenchctlConfig
  pub decode-encode : (t : Text) → decode_string (encode_string t) ≡ some t
  pub parse-string : (d : ℤ) → parse_duration (duration_string d) ≡ some d
  pub struct_round_trip :
      (encode : ℤ → Bytes) (decode : Bytes → Option ℤ)
      → ((d : ℤ) → decode (encode d) ≡ some d)
      → (c : BenchctlConfig) → decode_struct decode (encode_struct encode c) ≡ some c

some_inj : {c d : BenchctlConfig} → some c ≡ some d → c ≡ d
some_inj e = cc

module _ (j : Json) where
  unfoldable pub marshal_json : ℤ → j.Bytes
  marshal_json d = j.encode_string (j.duration_string d)

  -- `none` is the error, after which the struct is thrown away
  unfoldable pub unmarshal_json : j.Bytes → Option ℤ
  unmarshal_json b = elim (j.decode_string b) [ none ↦ none | some t ↦ j.parse_duration t ]

  pub unmarshal_json-marshal_json : (d : ℤ) → unmarshal_json (marshal_json d) ≡ some d
  unfolding marshal_json unmarshal_json
  unmarshal_json-marshal_json d =
      rw (j.decode-encode (j.duration_string d), unmarshal_json) (j.parse-string d)

  -- `json.MarshalIndent` of a configuration
  unfoldable pub marshal_config : BenchctlConfig → j.Bytes
  marshal_config c = j.encode_struct (marshal_json) c

  unfoldable pub decode_config : j.Bytes → Option BenchctlConfig
  decode_config b = j.decode_struct (unmarshal_json) b

  pub decode_config-marshal_config :
      (c : BenchctlConfig) → decode_config (marshal_config c) ≡ some c
  unfolding marshal_config decode_config
  decode_config-marshal_config c =
      j.struct_round_trip marshal_json unmarshal_json unmarshal_json-marshal_json c

  module _ (v : Validator) (n : Net) where
    accepted : Option BenchctlConfig → Option BenchctlConfig
    accepted none = none
    accepted (some c) = if validate_config v n c then some c else none

    -- `ReadConfig` of a file with this content, or of none
    unfoldable pub read_config : Option j.Bytes → Option BenchctlConfig
    unfolding accepted
    read_config none = none
    read_config (some b) = accepted (decode_config b)

    -- What is read was in the file and validates.
    pub read_config-valid :
        (b : j.Bytes) (c : BenchctlConfig)
        → read_config (some b) ≡ some c
        → (decode_config b ≡ some c) × (validate_config v n c ≡ true)
    unfolding read_config
    read_config-valid b c h = kept (decode_config b) h
      where
        kept :
            (o : Option BenchctlConfig)
            → accepted o ≡ some c
            → (o ≡ some c) × (validate_config v n c ≡ true)
        kept none h = cc
        kept (some c') h = elim (Bool-cases (validate_config v n c')) [
          | inl e ↦
              let same : some c' ≡ some c =
                sym (ap (λ (b : Bool). if b then some c' else none) e) ∙ h in
              (same, ap (validate_config v n) (sym (some_inj same)) ∙ e)
          | inr e ↦ cc (h, e)
        ]

    pub read_config-marshal_config :
        (c : BenchctlConfig)
        → validate_config v n c ≡ true
        → read_config (some (marshal_config c)) ≡ some c
    unfolding read_config
    read_config-marshal_config c h = rw (decode_config-marshal_config c, h) refl
