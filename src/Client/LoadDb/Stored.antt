-- ===== src/Client/LoadDb/Stored.antt =====
-- What etcd holds after loading: the generated data, whatever the order of the Puts.
use etcd_cloud_benchmarking.Prelude.{
  one_if, ℕ, ◌≤◌, ◌<◌, ◌≡◌, ◌≢◌, refl, sym, ap, ◌∙◌, Bool, true, ◌&&◌, Option, none, some, List, [],
  ◌∷◌, subst, count_if, All, Bool-cases, inl, inr, if◌then◌else◌, arith,
}
use etcd_cloud_benchmarking.Prelude.{Option-cases}
use etcd_cloud_benchmarking.Prelude.Text.{Text, text_eq, text_eq_refl, eq_of_text_eq}
use etcd_cloud_benchmarking.Generator.Data.{Entry, DistinctKeys}
use etcd_cloud_benchmarking.Client.LoadDb.{Loading, Runs}
use etcd_cloud_benchmarking.Client.LoadDb.Ends.{load_db-puts}

-- the value of a key after these Puts took effect, one after the other
pub stored : List Entry → Text → Option Text
stored [] k = none
stored (e ∷ es) k = elim (stored es k) [
  | some v ↦ some v
  | none ↦ if text_eq e.0 k then some e.1 else none
]

abbrev has_key : Text → Entry → Bool
has_key k e = text_eq e.0 k

abbrev pub is_entry : Text → Text → Entry → Bool
is_entry k v e = text_eq e.0 k && text_eq e.1 v

module _ (k : Text) where
  stored-none : (es : List Entry) → count_if (has_key k) es ≡ 0 → stored es k ≡ none
  unfolding stored
  stored-none [] h = refl
  stored-none (e ∷ es) h = ground (arith, stored-none es)

  stored_counts :
      (es : List Entry) (v : Text) → stored es k ≡ some v → 0 < count_if (is_entry k v) es
  unfolding stored
  stored_counts [] v h = cc
  stored_counts (e ∷ es) v h = ground (arith, stored_counts es v, text_eq_refl v)

  entry_has_key :
      (es : List Entry) (v : Text) → count_if (is_entry k v) es ≤ count_if (has_key k) es
  entry_has_key [] v = omega arith
  entry_has_key (e ∷ es) v = ground (arith, entry_has_key es v)

  pub stored-some :
      (es : List Entry) (v : Text)
      → count_if (has_key k) es ≤ 1
      → 0 < count_if (is_entry k v) es
      → stored es k ≡ some v
  unfolding stored
  stored-some [] v h p = absurd (omega (arith, p))
  stored-some (e ∷ es) v h p =
      ground (arith, eq_of_text_eq e.1 v, stored-none es, stored-some es v, entry_has_key es v)

  absent : (es : List Entry) → All (λ e. k ≢ e.0) es → count_if (has_key k) es ≡ 0
  absent [] h = refl
  absent (e ∷ es) h = elim (Bool-cases (text_eq e.0 k)) [
    | inl b ↦ absurd (h.0 (sym (eq_of_text_eq e.0 k b)))
    | inr b ↦ omega (arith, ap one_if b, absent es h.1)
  ]

  pub once : (es : List Entry) → DistinctKeys es → count_if (has_key k) es ≤ 1
  once [] d = omega arith
  once (e ∷ es) d = elim (Bool-cases (text_eq e.0 k)) [
    | inl b ↦ omega (
      arith,
      ap one_if b,
      absent es (subst (λ z. All (λ x. z ≢ x.0) es) (eq_of_text_eq e.0 k b) d.0),
    )
    | inr b ↦ omega (arith, ap one_if b, once es d.1)
  ]

  -- lists that hold the same entries as often, with distinct keys, store the same value
  pub stored_same :
      (xs ys : List Entry)
      → DistinctKeys ys
      → ((p : Entry → Bool) → count_if p xs ≡ count_if p ys)
      → stored xs k ≡ stored ys k
  stored_same xs ys d h = elim (Option-cases (stored ys k)) [
    | inl n ↦ elim (Option-cases (stored xs k)) [
      | inl m ↦ m ∙ sym n
      | inr (v, m) ↦
          let there = stored_counts xs v m in
          let found = stored-some ys v (once ys d) (omega (arith, there, h (is_entry k v))) in
          absurd (cc (n, found))
    ]
    | inr (v, n) ↦
        let there = stored_counts ys v n in
        stored-some xs v (omega (arith, once ys d, h (has_key k)))
          (omega (arith, there, h (is_entry k v)))
        ∙ sym n
  ]

-- When the keys of the generated entries are distinct and every Put that returns takes effect, etcd
-- holds, once `load_db` passed the wait for its workers, at least one, exactly the generated value of
-- each generated key and no other key, in whatever order the workers took their steps.
pub load_db-stored :
    {worker_count n : ℕ} {entries : List Entry} {s : Loading}
    → Runs worker_count entries n s
    → 0 < worker_count
    → DistinctKeys entries
    → s.loaded ≡ true
    → (k : Text) → stored s.puts k ≡ stored entries k
load_db-stored {entries = entries} {s} r pos d l k =
    stored_same k s.puts entries d (load_db-puts r pos l).1
