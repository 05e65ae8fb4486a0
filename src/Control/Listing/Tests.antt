-- ===== src/Control/Listing/Tests.antt =====
-- The rows of the default configuration, and a field set in it.
use etcd_cloud_benchmarking.Prelude.{◌≡◌, ◌≢◌, refl, true, none, some, All}
use etcd_cloud_benchmarking.Prelude.Text.{
  codes, split, split_parts, split_cons, equal_fold, text_eq, to_lower, to_upper, is_upper,
  is_lower,
}
use etcd_cloud_benchmarking.Control.Config.Validate.{get_default_config}
use etcd_cloud_benchmarking.Control.Names.{to_camel_case, camel_part, camel_rest, camel_parts}
use etcd_cloud_benchmarking.Control.Settings.{
  num_keys, scenario, field_name, find_field, Library, config_set,
}
use etcd_cloud_benchmarking.Control.Tests.{plain, no_net}
use etcd_cloud_benchmarking.Control.Listing.{Printer, value_of, config_list}
use etcd_cloud_benchmarking.Control.Listing.Laws.{Shows, config_list-config_get}
use etcd_cloud_benchmarking.Control.Listing.Others.{named, config_set-others}

-- every duration and every text is printed alike
abbrev blunt : Printer
blunt = record { duration_string = λ d. codes "1m0s"; bytes_of = λ s. codes "x" }

abbrev unread : Library
unread = record { parse_duration = λ t. none; of_bytes = λ t. "x" }

config_list-config_get_example :
    All (Shows blunt get_default_config) (config_list blunt get_default_config)
config_list-config_get_example = config_list-config_get blunt get_default_config

names_num_keys : named (codes "num_keys=7") ≡ some num_keys
unfolding named split split_parts split_cons find_field to_camel_case camel_part camel_rest
    camel_parts equal_fold text_eq to_lower to_upper is_upper is_lower field_name
names_num_keys = refl

not_scenario : named (codes "num_keys=7") ≢ some scenario
not_scenario e = cc (names_num_keys, e)

config_set-others_example :
    value_of scenario
      (config_set unread plain no_net true (codes "num_keys=7") get_default_config).ctl_config
    ≡ value_of scenario get_default_config
config_set-others_example =
    config_set-others unread plain no_net true (codes "num_keys=7") get_default_config scenario
      not_scenario
