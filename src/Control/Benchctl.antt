-- ===== src/Control/Benchctl.antt =====
-- control/cmd/root.go and config.go: one run of `benchctl`, from the configuration file that it
-- loads at its start to the file that it leaves. What fails in the file system is up to the
-- environment.
pub mod Keeps
pub mod Default
pub mod Reload
pub mod Tests
use etcd_cloud_benchmarking.Prelude.{
  Bool, true, false, Option, none, some, List, [], ◌∷◌, if◌then◌else◌,
}
use etcd_cloud_benchmarking.Prelude.Int.{ℤ}
use etcd_cloud_benchmarking.Prelude.Text.{Text}
use etcd_cloud_benchmarking.Control.Config.{BenchctlConfig}
use etcd_cloud_benchmarking.Control.Config.Validate.{Validator, Net, get_default_config}
use etcd_cloud_benchmarking.Control.Durations.{Json, marshal_config, read_config}
use etcd_cloud_benchmarking.Control.Names.{to_camel_case}
use etcd_cloud_benchmarking.Control.Settings.{Field, find_field, Library, Outcome, config_set}

-- the subcommands; `load_file` with the content of the file, if it can be read
pub data Command (B : Type 0) : Type 0 where
  init reset view list : Command B
  set get : Text → Command B
  load_file : Option B → Command B

-- whether the file can be read and the directory is there or can be made; and what a failing write
-- leaves behind
pub record System (B : Type 0) : Type 0 where
  pub readable : Bool
  pub dir_ok : Bool
  pub write_fails : Option (Option B)

-- `GlobalConfig`, with the seed of its generator
pub record Global : Type 0 where
  pub rg_seed : Option ℤ
  pub ctl_config : Option BenchctlConfig

-- an error, `os.Exit(1)`, or nil
pub data Status : Type 0 where
  succeeded failed exited : Status

pub record Ended (B : Type 0) : Type 0 where
  pub status : Status
  pub global : Global
  pub file : Option B

module _ (j : Json) (l : Library) (v : Validator) (n : Net) where
  loaded : Option BenchctlConfig → Global
  loaded none = record { rg_seed = none; ctl_config = none }
  loaded (some c) = record { rg_seed = some c.seed; ctl_config = some c }

  -- `loadConfig`
  unfoldable pub load_config : System j.Bytes → Option j.Bytes → Global
  unfolding loaded
  load_config sys file = loaded (if sys.readable then read_config j v n file else none)

  -- `WriteConfig` to the file of the configuration
  unfoldable pub write_config : System j.Bytes → Global → BenchctlConfig → Ended j.Bytes
  write_config sys g c = elim sys.write_fails [
    | none ↦ record { status = succeeded; global = g; file = some (marshal_config j c) }
    | some left ↦ record { status = failed; global = g; file = left }
  ]

  -- `initConfigDir`, then what follows
  after_dir : System j.Bytes → Global → Option j.Bytes → Ended j.Bytes → Ended j.Bytes
  after_dir sys g file next =
      if sys.dir_ok then next else record { status = failed; global = g; file = file }

  -- `initConfigFile`
  unfoldable pub init_config_file : System j.Bytes → Ended j.Bytes
  init_config_file sys =
      write_config sys
        (record { rg_seed = some get_default_config.seed; ctl_config = some get_default_config })
        get_default_config

  load_read : System j.Bytes → Global → Option j.Bytes → Option BenchctlConfig → Ended j.Bytes
  unfolding after_dir
  load_read sys g file none = record { status = failed; global = g; file = file }
  load_read sys g file (some c) =
      let g' : Global = record { rg_seed = some c.seed; ctl_config = some c } in
      after_dir sys g' file (write_config sys g' c)

  -- `config set` of a configuration that is there
  set_in : System j.Bytes → Global → Option j.Bytes → Text → BenchctlConfig → Ended j.Bytes
  set_in sys g file arg c =
      let o = config_set l v n true arg c in
      let g' : Global = record g { ctl_config = some o.ctl_config } in
      elim o.written [
        | none ↦ record { status = failed; global = g'; file = file }
        | some c' ↦ write_config sys g' c'
      ]

  get_in : Global → Option j.Bytes → Option Field → Ended j.Bytes
  get_in g file none = record { status = failed; global = g; file = file }
  get_in g file (some f) = record { status = succeeded; global = g; file = file }

  -- a command that needs a configuration
  with_config : Global → Option j.Bytes → (BenchctlConfig → Ended j.Bytes) → Ended j.Bytes
  with_config g file next = elim g.ctl_config [
    | none ↦ record { status = exited; global = g; file = file }
    | some c ↦ next c
  ]

  unfoldable pub execute :
      System j.Bytes → Command j.Bytes → Global → Option j.Bytes → Ended j.Bytes
  unfolding after_dir load_read set_in get_in with_config
  execute sys init g file = after_dir sys g file (init_config_file sys)
  execute sys reset g file = after_dir sys g file (init_config_file sys)
  execute sys view g file =
      with_config g file (λ c. record { status = succeeded; global = g; file = file })
  execute sys list g file =
      with_config g file (λ c. record { status = succeeded; global = g; file = file })
  execute sys (set arg) g file = with_config g file (set_in sys g file arg)
  execute sys (get name) g file =
      with_config g file (λ c. get_in g file (find_field (to_camel_case name)))
  execute sys (load_file content) g file = load_read sys g file (read_config j v n content)

  -- one process: the file is loaded, then the command runs
  unfoldable pub benchctl : System j.Bytes → Command j.Bytes → Option j.Bytes → Ended j.Bytes
  benchctl sys cmd file = execute sys cmd (load_config sys file) file

  -- processes one after the other, each on the file that the one before left
  unfoldable pub sessions :
      List (System j.Bytes × Command j.Bytes) → Option j.Bytes → Option j.Bytes
  sessions [] file = file
  sessions ((sys, cmd) ∷ rest) file = sessions rest (benchctl sys cmd file).file
