-- ===== src/Client/Program/Filled.antt =====
-- `load_db` with its workers: the keys that it collects, and what etcd holds of them.
use etcd_cloud_benchmarking.Prelude.{
  count_if-length, All_of_count, count_of_All, ℕ, ◌<◌, ◌≡◌, refl, sym, ap, ◌∙◌, Bool, true, some,
  List, [], ◌∷◌, map, length, length-map, count_if, All, All-map, subst, ◌==◌, ==_iff, arith,
}
use etcd_cloud_benchmarking.Prelude.Int.{pos, pos_part}
use etcd_cloud_benchmarking.Prelude.Run.{ret}
use etcd_cloud_benchmarking.Prelude.Text.{Text, text_eq_refl}
use etcd_cloud_benchmarking.Control.Config.{BenchctlConfig}
use etcd_cloud_benchmarking.Generator.Random.{Source}
use etcd_cloud_benchmarking.Generator.{Generator}
use etcd_cloud_benchmarking.Generator.Data.{Entry, DistinctKeys, generate_data-AreEntries}
use etcd_cloud_benchmarking.Client.LoadDb.{Loading, Runs}
use etcd_cloud_benchmarking.Client.LoadDb.Ends.{load_db-puts}
use etcd_cloud_benchmarking.Client.LoadDb.Stored.{stored, is_entry, stored-some, once, stored_same}
use etcd_cloud_benchmarking.Client.Program.{World, value, generated, load_db, load_entries}

-- every entry is among the entries
entries_there : (es : List Entry) → All (λ e. 0 < count_if (is_entry e.0 e.1) es) es
entries_there [] = tt
entries_there (e ∷ es) = (
  ground (arith, text_eq_refl e.0, text_eq_refl e.1),
  All-map es (λ x h. omega (arith, h)) (entries_there es),
)

-- a value of this size is stored at the key
abbrev pub IsHeld : ℕ → List Entry → Text → Type 0
IsHeld size puts k = (v : Text) × (stored puts k ≡ some v) × (length v ≡ size)

-- two facts of all members
All-both : (P Q : Entry → Type 0) (xs : List Entry) → All P xs → All Q xs → All (λ x. P x × Q x) xs
All-both P Q [] h k = tt
All-both P Q (x ∷ xs) h k = ((h.0, k.0), All-both P Q xs h.1 k.1)

-- the entries of a range that meets every entry once
module _ (es xs : List Entry) (d : DistinctKeys es)
    (same : (p : Entry → Bool) → count_if p xs ≡ count_if p es) where
  length-range : length xs ≡ length es
  length-range = sym (count_if-length xs) ∙ same (λ x. true) ∙ count_if-length es

  -- a test of all entries is a test of all that the range meets
  All-range : (p : Entry → Bool) → All (λ x. p x ≡ true) es → All (λ x. p x ≡ true) xs
  All-range p h = All_of_count p xs (same p ∙ count_of_All p es h ∙ sym (same (λ x. true)))

  range_stored : All (λ e. stored es e.0 ≡ some e.1) xs
  range_stored =
      All-map xs
        (λ e h. stored-some e.0 es e.1 (once e.0 es d) (omega (arith, h, same (is_entry e.0 e.1))))
        (entries_there xs)

  range_held :
      (size : ℕ) (puts : List Entry)
      → ((k : Text) → stored puts k ≡ stored es k)
      → All (λ e. length e.1 ≡ size) es
      → All (λ e. IsHeld size puts e.0) xs
  range_held size puts h z =
      All-map xs (λ e b. (e.1, h e.0 ∙ b.0, (==_iff (length e.1) size).0 b.1))
        (All-both _ _ xs range_stored (
          All-range (λ e. length e.1 == size)
            (All-map es (λ e q. (==_iff (length e.1) size).1 q) z)))

All-keys : (P : Text → Type 0) (xs : List Entry) → All (λ e. P e.0) xs → All P (map (λ e. e.0) xs)
All-keys P [] h = tt
All-keys P (x ∷ xs) h = (h.0, All-keys P xs h.1)

-- What etcd holds of the keys that `load_db` returned: as many as configured, each with a value of
-- the configured size, and nothing but the generated data.
pub record Filled (c : BenchctlConfig) (entries : List Entry) (keys : List Text) (puts : List Entry)
    : Type 0 where
  pub as_many : c.num_keys ≡ pos (length keys)
  pub held : All (IsHeld (pos_part c.value_size) puts) keys
  pub no_more : (k : Text) → stored puts k ≡ stored entries k

module _ (R : Source) (c : BenchctlConfig) (w : World R) (fuel : ℕ) where
  loaded_keys :
      (entries : List Entry) (g : Generator R)
      → generated R c w fuel ≡ ret (entries, g)
      → w.dials ≡ true
      → (load_db R c w fuel).ending ≡ value (map (λ e. e.0) (w.range entries))
  unfolding load_db load_entries
  loaded_keys entries g h d = rw (h, d) refl

-- The one step that stands for the workers in `load_db` is what they do: when the data was generated
-- and at least one worker ran until the wait for them was over, in any order of their steps, then
-- `load_db` returns the keys that were collected, as many as configured; etcd, where every Put that
-- returned took effect, holds a value of the configured size for each, and nothing but the generated
-- data.
pub load_db-Filled :
    (R : Source) (c : BenchctlConfig) (w : World R) (fuel : ℕ) {worker_count n : ℕ}
    {entries : List Entry} {g : Generator R} {s : Loading}
    → generated R c w fuel ≡ ret (entries, g)
    → w.dials ≡ true
    → Runs worker_count (w.range entries) n s
    → 0 < worker_count
    → s.loaded ≡ true
    → ((load_db R c w fuel).ending ≡ value s.keys) × Filled c entries s.keys s.puts
unfolding generated
load_db-Filled R c w fuel {entries = entries} {g} {s} h d r some_worker l =
    let (keys, puts) = load_db-puts r some_worker l in
    let (n, num, a) =
      generate_data-AreEntries R fuel c.num_keys c.key_size c.value_size _ entries g h in
    let met = w.range_counts entries in
    let no_more : (k : Text) → stored s.puts k ≡ stored entries k =
      λ k. stored_same k s.puts entries a.distinct (λ p. puts p ∙ met p) in
    let size = pos_part c.value_size in
    let lengths = All-map {Q = λ e. length e.1 ≡ size} entries (λ e z. ap pos_part z.1) a.sized in
    (
      loaded_keys R c w fuel entries g h d ∙ ap value (sym keys),
      record {
        as_many =
            num
            ∙ ap pos (
                sym a.as_many
                ∙ sym (length-range entries (w.range entries) a.distinct met)
                ∙ sym (length-map _ (w.range entries))
                ∙ ap length (sym keys));
        held = subst (All (IsHeld size s.puts)) (sym keys) (
            All-keys (IsHeld size s.puts) (w.range entries)
              (range_held entries (w.range entries) a.distinct met size s.puts no_more lengths));
        no_more = no_more;
      },
    )
