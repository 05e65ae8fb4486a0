-- ===== src/Control/Benchctl/Tests.antt =====
-- Processes one after the other on a concrete file system.
use etcd_cloud_benchmarking.Prelude.{◌≡◌, inl, refl, true, Option, none, some, List, [], ◌∷◌}
use etcd_cloud_benchmarking.Prelude.Int.{ℤ, pos, negsuc}
use etcd_cloud_benchmarking.Prelude.Text.{Text, codes}
use etcd_cloud_benchmarking.Control.Config.{BenchctlConfig}
use etcd_cloud_benchmarking.Control.Durations.{Json}
use etcd_cloud_benchmarking.Control.Settings.{Library}
use etcd_cloud_benchmarking.Control.Tests.{plain, no_net}
use etcd_cloud_benchmarking.Control.Benchctl.{
  Command, init, set, view, System, succeeded, load_config, init_config_file, execute, benchctl,
  sessions, write_config,
}
use etcd_cloud_benchmarking.Control.Benchctl.Keeps.{Holds, sessions-Holds}
use etcd_cloud_benchmarking.Control.Benchctl.Reload.{benchctl-reloads}

-- documents: strings, and configurations with what their four durations were encoded as
pub data Doc : Type 0 where
  string : Text → Doc
  object : BenchctlConfig → Doc → Doc → Doc → Doc → Doc

pub decode_text : Doc → Option Text
decode_text (string t) = some t
decode_text d = none

with_durations : BenchctlConfig → Option ℤ → Option ℤ → Option ℤ → Option ℤ → Option BenchctlConfig
with_durations c (some a) (some b) (some d) (some e) =
    some
      (record c { warmup_duration = a; step_duration = b; total_duration = d; max_wait_time = e })
with_durations c w x y z = none

pub decode_doc : (Doc → Option ℤ) → Doc → Option BenchctlConfig
unfolding with_durations
decode_doc f (object c w x y z) = with_durations c (f w) (f x) (f y) (f z)
decode_doc f d = none

pub encode_doc : (ℤ → Doc) → BenchctlConfig → Doc
encode_doc f c =
    object c (f c.warmup_duration) (f c.step_duration) (f c.total_duration) (f c.max_wait_time)

pub round_trip :
    (f : ℤ → Doc) (g : Doc → Option ℤ)
    → ((d : ℤ) → g (f d) ≡ some d)
    → (c : BenchctlConfig) → decode_doc g (encode_doc f c) ≡ some c
unfolding decode_doc encode_doc
round_trip f g h c =
    rw (h c.warmup_duration, h c.step_duration, h c.total_duration, h c.max_wait_time) refl

-- a sign and a number
pub printed : ℤ → Text
printed (pos n) = n ∷ []
printed (negsuc n) = 0 ∷ n ∷ []

pub read_back : Text → Option ℤ
read_back (n ∷ []) = some (pos n)
read_back (z ∷ n ∷ []) = some (negsuc n)
read_back t = none

pub read_back-printed : (d : ℤ) → read_back (printed d) ≡ some d
unfolding read_back printed
read_back-printed (pos n) = refl
read_back-printed (negsuc n) = refl

pub decode_text_string : (t : Text) → decode_text (string t) ≡ some t
unfolding decode_text
decode_text_string t = refl

abbrev pub docs : Json
docs = record {
  Bytes = Doc;
  encode_string = string;
  decode_string = decode_text;
  duration_string = printed;
  parse_duration = read_back;
  encode_struct = encode_doc;
  decode_struct = decode_doc;
  decode-encode = decode_text_string;
  parse-string = read_back-printed;
  struct_round_trip = round_trip;
}

-- no duration is read, and every text is read as one workload
abbrev pub narrow : Library
narrow = record { parse_duration = λ t. none; of_bytes = λ t. "read-only" }

-- nothing fails
abbrev pub sound : System Doc
sound = record { readable = true; dir_ok = true; write_fails = none }

abbrev runs : List (System Doc × Command Doc)
runs = (sound, init) ∷ (sound, set (codes "workload_type=read-only")) ∷ (sound, view) ∷ []

sessions-Holds_example :
    Holds docs narrow plain no_net (sessions docs narrow plain no_net runs none)
sessions-Holds_example =
    sessions-Holds docs narrow plain no_net runs none refl (refl, (refl, (refl, tt))) (inl refl)

init_succeeds : (benchctl docs narrow plain no_net sound init none).status ≡ succeeded
unfolding benchctl execute init_config_file write_config
init_succeeds = refl

benchctl-reloads_example :
    (load_config docs narrow plain no_net sound
      (benchctl docs narrow plain no_net sound init none).file).ctl_config
    ≡ (benchctl docs narrow plain no_net sound init none).global.ctl_config
benchctl-reloads_example =
    benchctl-reloads docs narrow plain no_net sound sound init none refl refl init_succeeds refl
