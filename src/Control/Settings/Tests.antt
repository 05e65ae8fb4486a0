-- ===== src/Control/Settings/Tests.antt =====
-- `config set` at a concrete configuration.
use etcd_cloud_benchmarking.Prelude.{true, none}
use etcd_cloud_benchmarking.Prelude.Text.{codes}
use etcd_cloud_benchmarking.Control.Config.Validate.{get_default_config}
use etcd_cloud_benchmarking.Control.Settings.{Library, config_set}
use etcd_cloud_benchmarking.Control.Settings.Lookup.{Stored, config_set-Stored}
use etcd_cloud_benchmarking.Control.Tests.{plain, no_net}

-- no duration is read, and every text is read as one workload
abbrev narrow : Library
narrow = record { parse_duration = λ t. none; of_bytes = λ t. "read-only" }

config_set-Stored_example :
    Stored plain no_net true
      (config_set narrow plain no_net true (codes "workload_type=read-only") get_default_config)
config_set-Stored_example =
    config_set-Stored narrow plain no_net true (codes "workload_type=read-only") get_default_config
