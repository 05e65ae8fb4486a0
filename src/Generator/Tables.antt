-- ===== src/Generator/Tables.antt =====
-- The tables of data-generator/generator.go: domain prefixes, region codes, padding characters.
use etcd_cloud_benchmarking.Prelude.{List, [], ◌∷◌, map}
use etcd_cloud_benchmarking.Prelude.Text.{Text, codes}

unfoldable pub domains : List Text
domains = map codes ("usr" ∷ "ord" ∷ "prd" ∷ "inv" ∷ "sys" ∷ "app" ∷ "etc" ∷ "var" ∷ [])

unfoldable pub regions : List Text
regions = map codes (
    "na1" ∷ "na2" ∷ "na3" ∷ "na4" ∷ "na5" ∷ "na6" ∷ "na7" ∷ "na8" ∷ "na9" ∷ "eu1" ∷ "eu2" ∷ "eu3"
    ∷ "eu4" ∷ "eu5" ∷ "eu6" ∷ "eu7" ∷ "eu8" ∷ "eu9" ∷ "ap1" ∷ "ap2" ∷ "ap3" ∷ "ap4" ∷ "ap5" ∷ "ap6"
    ∷ "ap7" ∷ "ap8" ∷ "ap9" ∷ "afr" ∷ "mea" ∷ [])

unfoldable pub char_pool : Text
char_pool = codes "abcdefghijklmnopqrstuvwxyzABCDEFGHIJKLMNOPQRSTUVWXYZ0123456789"
