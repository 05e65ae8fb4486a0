-- ===== src/Control/Benchctl/Keeps.antt =====
-- The configuration file stays readable and valid.
use etcd_cloud_benchmarking.Prelude.{
  ◌≡◌, ◌⊎◌, inl, inr, refl, true, Option, none, some, List, [], ◌∷◌, All, Option-cases, Bool-cases,
}
use etcd_cloud_benchmarking.Prelude.Text.{Text}
use etcd_cloud_benchmarking.Control.Config.{BenchctlConfig}
use etcd_cloud_benchmarking.Control.Config.Validate.{Validator, Net, validate_config}
use etcd_cloud_benchmarking.Control.Durations.{
  Json, read_config, read_config-valid, read_config-marshal_config,
}
use etcd_cloud_benchmarking.Control.Names.{to_camel_case}
use etcd_cloud_benchmarking.Control.Settings.{Field, find_field, Library}
use etcd_cloud_benchmarking.Control.Settings.Lookup.{config_set-Stored}
use etcd_cloud_benchmarking.Control.Benchctl.Default.{get_default_config-valid}
use etcd_cloud_benchmarking.Control.Benchctl.{
  Command, init, reset, view, list, set, get, load_file, System, Global, Ended, load_config,
  write_config, init_config_file, execute, benchctl, sessions, after_dir, with_config, set_in,
  get_in, load_read,
}

module _ (j : Json) (l : Library) (v : Validator) (n : Net) where
  -- there is no file, or one that ReadConfig accepts
  abbrev pub Holds : Option j.Bytes → Type 0
  Holds file = (file ≡ none) ⊎ ((c : BenchctlConfig) × (read_config j v n file ≡ some c))

  write_config-Holds :
      (sys : System j.Bytes) (g : Global) (c : BenchctlConfig)
      → sys.write_fails ≡ none
      → validate_config v n c ≡ true
      → Holds (write_config j l v n sys g c).file
  unfolding write_config
  write_config-Holds sys g c w h = rw w (inr (c, read_config-marshal_config j v n c h))

  after_dir-Holds :
      (sys : System j.Bytes) (g : Global) (file : Option j.Bytes) (next : Ended j.Bytes)
      → Holds file
      → Holds next.file
      → Holds (after_dir j l v n sys g file next).file
  unfolding after_dir
  after_dir-Holds sys g file next h k = elim (Bool-cases sys.dir_ok) [
    | inl e ↦ rw e k
    | inr e ↦ rw e h
  ]

  with_config-Holds :
      (g : Global) (file : Option j.Bytes) (next : BenchctlConfig → Ended j.Bytes)
      → Holds file
      → ((c : BenchctlConfig) → Holds (next c).file)
      → Holds (with_config j l v n g file next).file
  unfolding with_config
  with_config-Holds g file next h k = elim (Option-cases g.ctl_config) [
    | inl e ↦ rw (e, with_config) h
    | inr (c, e) ↦ rw (e, with_config) (k c)
  ]

  set_in-Holds :
      (sys : System j.Bytes) (g : Global) (file : Option j.Bytes) (arg : Text) (c : BenchctlConfig)
      → sys.write_fails ≡ none
      → Holds file
      → Holds (set_in j l v n sys g file arg c).file
  unfolding set_in
  set_in-Holds sys g file arg c w h = elim (config_set-Stored l v n true arg c) [
    | inl (_, e, valid) ↦ rw (e, set_in) (write_config-Holds sys _ _ w valid)
    | inr (_, e) ↦ rw (e, set_in) h
  ]

  get_in-Holds :
      (g : Global) (file : Option j.Bytes) (f : Option Field)
      → Holds file
      → Holds (get_in j l v n g file f).file
  unfolding get_in
  get_in-Holds g file none h = h
  get_in-Holds g file (some f) h = h

  load_read-Holds :
      (sys : System j.Bytes) (g : Global) (file content : Option j.Bytes)
      (o : Option BenchctlConfig)
      → sys.write_fails ≡ none
      → read_config j v n content ≡ o
      → Holds file
      → Holds (load_read j l v n sys g file o).file
  unfolding load_read read_config
  load_read-Holds sys g file content none w e h = h
  load_read-Holds sys g file none (some c) w e h = cc
  load_read-Holds sys g file (some b) (some c) w e h =
      after_dir-Holds sys _ file _ h
        (write_config-Holds sys _ c w (read_config-valid j v n b c e).1)

  execute-Holds :
      (sys : System j.Bytes) (cmd : Command j.Bytes) (g : Global) (file : Option j.Bytes)
      → sys.write_fails ≡ none
      → v.is_filepath "metrics.csv" ≡ true
      → Holds file
      → Holds (execute j l v n sys cmd g file).file
  unfolding execute init_config_file
  execute-Holds sys init g file w p h =
      after_dir-Holds sys g file _ h (write_config-Holds sys _ _ w (get_default_config-valid v n p))
  execute-Holds sys reset g file w p h =
      after_dir-Holds sys g file _ h (write_config-Holds sys _ _ w (get_default_config-valid v n p))
  execute-Holds sys view g file w p h = with_config-Holds g file _ h (λ c. h)
  execute-Holds sys list g file w p h = with_config-Holds g file _ h (λ c. h)
  execute-Holds sys (set arg) g file w p h =
      with_config-Holds g file _ h (λ c. set_in-Holds sys g file arg c w h)
  execute-Holds sys (get name) g file w p h =
      with_config-Holds g file _ h (λ c. get_in-Holds g file (find_field (to_camel_case name)) h)
  execute-Holds sys (load_file content) g file w p h =
      load_read-Holds sys g file content (read_config j v n content) w refl h

-- Whatever subcommands are run, one process after the other, with any arguments, and whatever fails
-- but a write, a configuration file that is absent or that ReadConfig accepts stays so, where the
-- validator takes the default name of the metrics file.
pub sessions-Holds :
    (j : Json) (l : Library) (v : Validator) (n : Net)
    (runs : List (System j.Bytes × Command j.Bytes)) (file : Option j.Bytes)
    → v.is_filepath "metrics.csv" ≡ true
    → All (λ r. r.0.write_fails ≡ none) runs
    → Holds j l v n file
    → Holds j l v n (sessions j l v n runs file)
unfolding sessions benchctl
sessions-Holds j l v n [] file p w h = h
sessions-Holds j l v n ((sys, cmd) ∷ rest) file p w h =
    sessions-Holds j l v n rest _ p w.1
      (execute-Holds j l v n sys cmd (load_config j l v n sys file) file w.0 p h)
