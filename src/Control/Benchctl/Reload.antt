-- ===== src/Control/Benchctl/Reload.antt =====
-- What the next process loads is what the last one had.
use etcd_cloud_benchmarking.Prelude.{
  ◌≡◌, inl, inr, refl, sym, ◌∙◌, true, Option, none, some, Option-cases, Bool-cases,
}
use etcd_cloud_benchmarking.Prelude.Text.{Text}
use etcd_cloud_benchmarking.Control.Config.{BenchctlConfig}
use etcd_cloud_benchmarking.Control.Config.Validate.{Validator, Net, validate_config}
use etcd_cloud_benchmarking.Control.Durations.{
  Json, read_config, read_config-valid, read_config-marshal_config,
}
use etcd_cloud_benchmarking.Control.Names.{to_camel_case}
use etcd_cloud_benchmarking.Control.Settings.{Field, find_field, Library}
use etcd_cloud_benchmarking.Control.Settings.Lookup.{config_set-Stored}
use etcd_cloud_benchmarking.Control.Benchctl.Default.{get_default_config-valid}
use etcd_cloud_benchmarking.Control.Benchctl.{
  Command, init, reset, view, list, set, get, load_file, System, Global, succeeded, Ended, loaded,
  load_config, write_config, init_config_file, execute, benchctl, after_dir, with_config, set_in,
  get_in, load_read,
}

module _ (j : Json) (l : Library) (v : Validator) (n : Net) where
  -- a run that succeeded left the file of its configuration
  abbrev Agrees : Ended j.Bytes → Type 0
  Agrees e = e.status ≡ succeeded → read_config j v n e.file ≡ e.global.ctl_config

  write_config-Agrees :
      (sys : System j.Bytes) (g : Global) (c : BenchctlConfig)
      → sys.write_fails ≡ none
      → validate_config v n c ≡ true
      → g.ctl_config ≡ some c
      → Agrees (write_config j l v n sys g c)
  unfolding write_config
  write_config-Agrees sys g c w h e = rw w (λ _. read_config-marshal_config j v n c h ∙ sym e)

  after_dir-Agrees :
      (sys : System j.Bytes) (g : Global) (file : Option j.Bytes) (next : Ended j.Bytes)
      → Agrees next
      → Agrees (after_dir j l v n sys g file next)
  unfolding after_dir
  after_dir-Agrees sys g file next k = elim (Bool-cases sys.dir_ok) [
    | inl e ↦ rw e k
    | inr e ↦ rw e (λ s. cc s)
  ]

  with_config-Agrees :
      (g : Global) (file : Option j.Bytes) (next : BenchctlConfig → Ended j.Bytes)
      → ((c : BenchctlConfig) → g.ctl_config ≡ some c → Agrees (next c))
      → Agrees (with_config j l v n g file next)
  unfolding with_config
  with_config-Agrees g file next k = elim (Option-cases g.ctl_config) [
    | inl e ↦ rw (e, with_config) (λ s. cc s)
    | inr (c, e) ↦ rw (e, with_config) (k c e)
  ]

  set_in-Agrees :
      (sys : System j.Bytes) (g : Global) (file : Option j.Bytes) (arg : Text) (c : BenchctlConfig)
      → sys.write_fails ≡ none
      → Agrees (set_in j l v n sys g file arg c)
  unfolding set_in
  set_in-Agrees sys g file arg c w = elim (config_set-Stored l v n true arg c) [
    | inl (_, e, valid) ↦ rw (e, set_in) (write_config-Agrees sys _ _ w valid refl)
    | inr (_, e) ↦ rw (e, set_in) (λ s. cc s)
  ]

  get_in-Agrees :
      (g : Global) (file : Option j.Bytes) (f : Option Field)
      → read_config j v n file ≡ g.ctl_config
      → Agrees (get_in j l v n g file f)
  unfolding get_in
  get_in-Agrees g file none h s = cc
  get_in-Agrees g file (some f) h s = h

  load_read-Agrees :
      (sys : System j.Bytes) (g : Global) (file content : Option j.Bytes)
      (o : Option BenchctlConfig)
      → sys.write_fails ≡ none
      → read_config j v n content ≡ o
      → Agrees (load_read j l v n sys g file o)
  unfolding load_read read_config
  load_read-Agrees sys g file content none w e = λ s. cc s
  load_read-Agrees sys g file none (some c) w e = cc
  load_read-Agrees sys g file (some b) (some c) w e =
      after_dir-Agrees sys _ file _
        (write_config-Agrees sys _ c w (read_config-valid j v n b c e).1 refl)

  loaded_config : (o : Option BenchctlConfig) → (loaded j l v n o).ctl_config ≡ o
  unfolding loaded
  loaded_config none = refl
  loaded_config (some c) = refl

  -- a configuration in memory came from the file
  pub from_file :
      (sys : System j.Bytes) (file : Option j.Bytes) (c : BenchctlConfig)
      → (load_config j l v n sys file).ctl_config ≡ some c
      → read_config j v n file ≡ (load_config j l v n sys file).ctl_config
  unfolding load_config loaded
  from_file sys file c = elim (Bool-cases sys.readable) [
    | inl e ↦ rw e (λ h. sym (loaded_config (read_config j v n file)))
    | inr e ↦ rw e (λ h. cc h)
  ]

  benchctl-Agrees :
      (sys : System j.Bytes) (cmd : Command j.Bytes) (file : Option j.Bytes)
      → sys.write_fails ≡ none
      → v.is_filepath "metrics.csv" ≡ true
      → Agrees (benchctl j l v n sys cmd file)
  unfolding benchctl execute init_config_file
  benchctl-Agrees sys init file w p =
      after_dir-Agrees sys _ file _
        (write_config-Agrees sys _ _ w (get_default_config-valid v n p) refl)
  benchctl-Agrees sys reset file w p =
      after_dir-Agrees sys _ file _
        (write_config-Agrees sys _ _ w (get_default_config-valid v n p) refl)
  benchctl-Agrees sys view file w p =
      with_config-Agrees (load_config j l v n sys file) file _ (λ c e s. from_file sys file c e)
  benchctl-Agrees sys list file w p =
      with_config-Agrees (load_config j l v n sys file) file _ (λ c e s. from_file sys file c e)
  benchctl-Agrees sys (set arg) file w p =
      with_config-Agrees (load_config j l v n sys file) file _
        (λ c e. set_in-Agrees sys (load_config j l v n sys file) file arg c w)
  benchctl-Agrees sys (get name) file w p =
      with_config-Agrees (load_config j l v n sys file) file _ (λ c e.
        get_in-Agrees (load_config j l v n sys file) file (find_field (to_camel_case name))
          (from_file sys file c e))
  benchctl-Agrees sys (load_file content) file w p =
      load_read-Agrees sys (load_config j l v n sys file) file content (read_config j v n content) w
        refl

-- After a process that succeeds, with any subcommand, where no write failed and the validator takes
-- the default name of the metrics file, the next process that can read the file starts with the
-- configuration that the former had in memory at its end.
pub benchctl-reloads :
    (j : Json) (l : Library) (v : Validator) (n : Net) (sys next : System j.Bytes)
    (cmd : Command j.Bytes) (file : Option j.Bytes)
    → sys.write_fails ≡ none
    → v.is_filepath "metrics.csv" ≡ true
    → (benchctl j l v n sys cmd file).status ≡ succeeded
    → next.readable ≡ true
    → (load_config j l v n next (benchctl j l v n sys cmd file).file).ctl_config
      ≡ (benchctl j l v n sys cmd file).global.ctl_config
unfolding load_config
benchctl-reloads j l v n sys next cmd file w p s r = rw r (
    loaded_config j l v n (read_config j v n (benchctl j l v n sys cmd file).file)
    ∙ benchctl-Agrees j l v n sys cmd file w p s)
