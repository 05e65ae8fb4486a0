-- ===== src/Generator.antt =====
-- data-generator/generator.go: the keys and values that are loaded into etcd. A random source is a
-- parameter. `usedCombinations`, nested maps whose leaves are only ever set to true, is the list of
-- the paths to its leaves. The two loops that draw until a combination is free take fuel.
pub mod Random
pub mod Tables
pub mod Keys
pub mod Fresh
pub mod Data
pub mod Exhaust
pub mod Total
pub mod Tests
pub mod Unique
use Random.{Source}
use Tables.{domains, regions, char_pool}
use etcd_cloud_benchmarking.Prelude.{
  ℕ, zero, suc, ◌+◌, ◌-◌, ◌==◌, ◌≡◌, Bool, true, false, ◌&&◌, ◌||◌, Option, none, some, List, [],
  ◌∷◌, ◌++◌, length, get_elem?, ltb, if◌then◌else◌,
}
use etcd_cloud_benchmarking.Prelude.Int.{int_eq, ℤ, pos, negsuc, ltb_ℤ, ◌-ℤ◌, pos_part}
use etcd_cloud_benchmarking.Prelude.Run.{Run, ret, fails, panics, timeout, or_panic, ◌>>=◌}
use etcd_cloud_benchmarking.Prelude.Alloc.{make_slice}
use etcd_cloud_benchmarking.Prelude.Sort.{sort_slice}
use etcd_cloud_benchmarking.Prelude.Text.{Text, text_eq, split, trim, sprintf_03d, sscanf_d}

-- constants.MIN_KEY_SIZE
abbrev pub min_key_size : ℤ
min_key_size = pos 12

-- usedCombinations[domain][region][shardNum][padding]
pub record Combination : Type 0 where
  pub domain : Text
  pub region : Text
  pub shard : ℤ
  pub padding : Text

unfoldable pub same_combination : Combination → Combination → Bool
unfolding int_eq
same_combination a b =
    text_eq a.domain b.domain
    && text_eq a.region b.region
    && int_eq a.shard b.shard
    && text_eq a.padding b.padding

unfoldable pub is_used : Combination → List Combination → Bool
unfolding same_combination
is_used c [] = false
is_used c (u ∷ us) = same_combination c u || is_used c us

-- `fmt.Sscanf(shard, "%d", &shardNum)` with `shardNum` at 0 before: an error leaves it
abbrev pub shard_num : Option ℤ → ℤ
shard_num none = pos 0
shard_num (some n) = n

-- `a < b` on strings, byte by byte
unfoldable pub key_lt : Text → Text → Bool
key_lt [] [] = false
key_lt [] (y ∷ ys) = true
key_lt (x ∷ xs) [] = false
key_lt (x ∷ xs) (y ∷ ys) = ltb x y || (x == y && key_lt xs ys)

-- `data[key] = value` on a map as an association list
unfoldable pub data_set : Text → Text → List (Text × Text) → List (Text × Text)
data_set k v [] = (k, v) ∷ []
data_set k v ((j, w) ∷ m) = if text_eq j k then (j, v) ∷ m else (j, w) ∷ data_set k v m

-- the loop that fills the map from the sorted entries
unfoldable pub populate : List (Text × Text) → List (Text × Text) → List (Text × Text)
populate m [] = m
populate m ((k, v) ∷ es) = populate (data_set k v m) es

-- the path into the map that a prefix and a padding name; a prefix of fewer than three parts panics
unfoldable pub combination : Text → Text → Run Combination
combination prefix padding = do
  let parts = split b'/' (trim b'/' prefix)
  domain ← or_panic (get_elem? parts 0)
  region ← or_panic (get_elem? parts 1)
  shard ← or_panic (get_elem? parts 2)
  ret (record {
    domain = domain;
    region = region;
    shard = shard_num (sscanf_d shard);
    padding = padding;
  })

module _ (R : Source) where
  open R use {State, intn, read}

  -- `Generator`: the random source and the combinations used so far
  pub record Generator : Type 0 where
    pub rg : State
    pub used : List Combination

  -- `isUsedPadding`: a combination that is free becomes used
  unfoldable pub mark : Combination → Generator → Bool × Generator
  unfolding is_used
  mark c g = if is_used c g.used then (true, g) else (false, record g { used = c ∷ g.used })

  unfoldable pub is_used_padding : Text → Text → Generator → Run (Bool × Generator)
  unfolding mark
  is_used_padding prefix padding g = do c ← combination prefix padding; ret (mark c g)

  -- the inner loop of `generateUniquePadding`
  unfoldable pub draw_padding : ℕ → State → Run (Text × State)
  draw_padding zero s = ret ([], s)
  draw_padding (suc n) s = do
    let (i, s') = intn (length char_pool) s
    c ← or_panic (get_elem? char_pool i)
    (rest, s'') ← draw_padding n s'
    ret (c ∷ rest, s'')

  -- `make([]byte, paddingSize)`, filled
  unfoldable pub make_padding : ℤ → State → Run (Text × State)
  unfolding make_slice
  make_padding size s = do n ← make_slice 1 size; draw_padding n s

  -- `generateUniquePadding`: draw until the padding is free for the prefix
  unfoldable pub generate_unique_padding : ℕ → ℤ → Text → Generator → Run (Text × Generator)
  generate_unique_padding zero size prefix g = timeout
  generate_unique_padding (suc fuel) size prefix g = do
    (padding, s) ← make_padding size g.rg
    (taken, g') ← is_used_padding prefix padding (record g { rg = s })
    elim taken [ true ↦ generate_unique_padding fuel size prefix g' | false ↦ ret (padding, g') ]

  -- what `GenerateKey` draws first: a domain, a region and a shard
  unfoldable pub draw_parts : State → Run (Text × Text × Text × State)
  draw_parts s = do
    let (i, s₁) = intn (length domains) s
    domain ← or_panic (get_elem? domains i)
    let (j, s₂) = intn (length regions) s₁
    region ← or_panic (get_elem? regions j)
    let (n, s₃) = intn 1000 s₂
    ret (domain, region, sprintf_03d n, s₃)

  -- the rest of `GenerateKey`; with no room for a padding it starts again until the prefix is free
  unfoldable pub finish_key :
      ℕ → (Generator → Run (Text × Generator)) → ℤ → Text → Generator → Run (Text × Generator)
  finish_key fuel again padding_size prefix g = elim (int_eq padding_size (pos 0)) [
    | true ↦ do
      (taken, g') ← is_used_padding prefix [] g
      elim taken [ true ↦ again g' | false ↦ ret (prefix, g') ]
    | false ↦ do
      (padding, g') ← generate_unique_padding fuel padding_size prefix g
      ret (prefix ++ padding, g')
  ]

  -- `GenerateKey`
  unfoldable pub generate_key : ℕ → ℤ → Generator → Run (Text × Generator)
  generate_key zero target g = timeout
  generate_key (suc fuel) target g =
      if ltb_ℤ target min_key_size
      then fails "target size is less than minimum required size"
      else do
        (domain, region, shard, s) ← draw_parts g.rg
        let prefix_len = 1 + length domain + 1 + length region + 1 + length shard
        finish_key fuel (generate_key fuel target) (target -ℤ pos prefix_len)
            (b'/' ∷ domain ++ (b'/' ∷ region ++ b'/' ∷ shard)) (record g { rg = s })

  -- `GenerateValue`, from the generator's own source if none is given
  unfoldable pub generate_value :
      ℤ → Option State → Generator → Run (Text × Option State × Generator)
  unfolding make_slice
  generate_value target_bytes none g = do
    n ← make_slice 1 target_bytes
    let (b, s) = read n g.rg
    elim b [ none ↦ fails "read" | some v ↦ ret (v, none, record g { rg = s }) ]
  generate_value target_bytes (some rg) g = do
    n ← make_slice 1 target_bytes
    let (b, s) = read n rg
    elim b [ none ↦ fails "read" | some v ↦ ret (v, some s, g) ]

  -- the first loop of `GenerateData`, with the entries in the order drawn
  unfoldable pub generate_entries : ℕ → ℕ → ℤ → ℤ → Generator → Run (List (Text × Text) × Generator)
  generate_entries fuel zero key_size value_size g = ret ([], g)
  generate_entries fuel (suc count) key_size value_size g = do
    (key, g₁) ← generate_key fuel key_size g
    (value, _, g₂) ← generate_value value_size none g₁
    (rest, g₃) ← generate_entries fuel count key_size value_size g₂
    ret ((key, value) ∷ rest, g₃)

  -- `GenerateData`, with room for `count` entries of a string and a slice, 40 bytes each, at once
  unfoldable pub generate_data : ℕ → ℤ → ℤ → ℤ → Generator → Run (List (Text × Text) × Generator)
  unfolding make_slice
  generate_data fuel count key_size value_size g = do
    n ← make_slice 40 count
    (entries, g') ← generate_entries fuel n key_size value_size g
    ret (populate [] (sort_slice (λ a b. key_lt a.0 b.0) entries), g')
