-- ===== src/Generator/Tests.antt =====
-- The generator run on a source that counts, and its theorems at that source.
use etcd_cloud_benchmarking.Prelude.{
  ℕ, zero, suc, ◌+◌, ◌%◌, ◌≡◌, ◌≢◌, ◌⊎◌, refl, some, List, [], ◌∷◌, length, arith, String, ap,
}
use etcd_cloud_benchmarking.Prelude.Int.{pos, ◌-ℤ◌, ◌<ℤ◌, ◌≤ℤ◌}
use etcd_cloud_benchmarking.Prelude.Run.{Run, ret, fails, Runs}
use etcd_cloud_benchmarking.Prelude.Sort.{sort_slice}
use etcd_cloud_benchmarking.Prelude.Text.{Text, text_eq, codes, sprintf_03d, sscanf_d, split, trim}
use etcd_cloud_benchmarking.Prelude.Alloc.{make_slice}
use etcd_cloud_benchmarking.Generator.Random.{Source}
use etcd_cloud_benchmarking.Generator.Tables.{domains, regions, char_pool}
use etcd_cloud_benchmarking.Generator.Data.{Entry, AreEntries, generate_data-AreEntries}
use etcd_cloud_benchmarking.Generator.Exhaust.{generate_data_exhausted}
use etcd_cloud_benchmarking.Generator.Total.{generate_data_outcome, FreeDraw, now, later}
use etcd_cloud_benchmarking.Generator.{
  Combination, Generator, combination, is_used, populate, draw_padding, generate_unique_padding,
  draw_parts, generate_key, finish_key, is_used_padding, generate_value, generate_entries,
  generate_data, make_padding, key_lt, mark, data_set,
}

abbrev pub sevens : ℕ → Text
sevens zero = []
sevens (suc n) = 7 ∷ sevens n

pub length-sevens : (n : ℕ) → length (sevens n) ≡ n
length-sevens zero = refl
length-sevens (suc n) = ap suc (length-sevens n)

-- the state is a counter; `Intn n` is the counter modulo n
abbrev pub counting : Source
counting = record {
  State = ℕ;
  seeded = λ s. s;
  intn = λ n s. (s % n, s + 1);
  read = λ n s. (some (sevens n), s);
  intn-lt = λ n s h. omega arith;
  read-length = λ n s. (sevens n, refl, length-sevens n);
}

abbrev pub start : Generator counting
start = record { rg = 0; used = [] }

abbrev pub sample : List Entry
sample = (codes "/usr/na2/002defg", 7 ∷ []) ∷ (codes "/var/na9/009klmn", 7 ∷ []) ∷ []

-- the generator that a run leaves
abbrev left {ℓ} : {A : Type ℓ} → Run (A × Generator counting) → Generator counting
left (ret a) = a.1
left r = start

abbrev pub two_keys_left : Generator counting
two_keys_left = left (generate_data counting 40 (pos 2) (pos 16) (pos 1) start)

pub generate_data_runs :
    generate_data counting 40 (pos 2) (pos 16) (pos 1) start ≡ ret (sample, two_keys_left)
unfolding generate_data sort_slice key_lt populate data_set generate_entries generate_key draw_parts
    draw_padding domains regions char_pool finish_key generate_unique_padding make_padding
    is_used_padding mark combination split trim sprintf_03d sscanf_d generate_value make_slice ◌-ℤ◌
    text_eq
generate_data_runs = refl

generate_data-AreEntries_example :
    (n : ℕ) × (pos 2 ≡ pos n) × AreEntries counting n (pos 16) (pos 1) sample
generate_data-AreEntries_example =
    generate_data-AreEntries counting 40 (pos 2) (pos 16) (pos 1) start sample two_keys_left
      generate_data_runs

generate_data_exhausted_example :
    generate_data counting 9 (pos 1_000_000) (pos 12) (pos 128) start ≢ ret (sample, start)
generate_data_exhausted_example =
    generate_data_exhausted counting 9 1_000_000 (pos 128) start sample start (omega arith)

generate_data_outcome_example :
    ((pos 11 <ℤ pos 12)
      × (generate_data counting 3 (pos 2) (pos 11) (pos 1) start
          ≡ fails "target size is less than minimum required size"))
    ⊎ ((pos 12 ≤ℤ pos 11) × Runs (generate_data counting 3 (pos 2) (pos 11) (pos 1) start))
generate_data_outcome_example =
    generate_data_outcome counting 2 1 (pos 11) 1 start (omega arith) (omega arith) (omega arith)

-- the second draw is free, the first is not
abbrev taken_once : Generator counting
taken_once = record {
  rg = 0;
  used =
      record { domain = codes "usr"; region = codes "na1"; shard = pos 7; padding = codes "ab" }
      ∷ [];
}

second_draw_free : FreeDraw counting 2 (codes "/usr/na1/007") 2 taken_once
unfolding draw_padding char_pool combination split trim sscanf_d is_used text_eq
second_draw_free =
    later (codes "ab") 2 (at "ab") refl refl (now (codes "cd") 4 (at "cd") refl refl refl)
  where
    at : String → Combination
    at p = record { domain = codes "usr"; region = codes "na1"; shard = pos 7; padding = codes p }
