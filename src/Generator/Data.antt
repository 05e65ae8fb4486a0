-- ===== src/Generator/Data.antt =====
-- GenerateData: as many keys as asked for, all different, each key and each value of its size.
use mathlib.Core.List.{append-nil, append_assoc}
use etcd_cloud_benchmarking.Prelude.{
  inl, inr, ℕ, zero, suc, ◌≡◌, ◌≢◌, refl, sym, ap, ◌∙◌, Bool, false, Option, none, List, [], ◌∷◌,
  ◌++◌, length, take, All, All-map, All-append, Bool-cases, arith, subst,
}
use etcd_cloud_benchmarking.Prelude.Int.{ℤ, pos}
use etcd_cloud_benchmarking.Prelude.Alloc.{make_slice, make_slice-pos}
use etcd_cloud_benchmarking.Prelude.Sort.{
  insert, sort_slice, insert-All, sort_slice-All, length-sort_slice,
}
use etcd_cloud_benchmarking.Prelude.Run.{Run, ret, >>=-eq-ret, ◌>>=◌}
use etcd_cloud_benchmarking.Prelude.Text.{Text, text_eq, eq_of_text_eq}
use etcd_cloud_benchmarking.Generator.Random.{Source}
use etcd_cloud_benchmarking.Generator.Keys.{IsDrawable}
use etcd_cloud_benchmarking.Generator.Fresh.{Names, same_combination_refl}
use etcd_cloud_benchmarking.Generator.Unique.{IsKey, generate_key-IsKey}
use etcd_cloud_benchmarking.Generator.{
  Combination, is_used, key_lt, data_set, populate, Generator, generate_key, generate_value,
  generate_entries, generate_data,
}

abbrev pub Entry : Type 0
Entry = Text × Text

-- no two entries have the same key
abbrev pub DistinctKeys : List Entry → Type 0
DistinctKeys [] = Unit
DistinctKeys (e ∷ es) = All (λ x. e.0 ≢ x.0) es × DistinctKeys es

-- an entry whose key has a combination that is not among the used ones
record IsFree (used : List Combination) (e : Entry) : Type 0 where
  combo : Combination
  names : Names e.0 combo
  free : is_used combo used ≡ false

IsFree-smaller :
    (c : Combination) (used : List Combination) (e : Entry) → IsFree (c ∷ used) e → IsFree used e
unfolding is_used
IsFree-smaller c used e f = record {
  combo = f.combo;
  names = f.names;
  free = ground (arith, f.free);
}

-- an entry that is free where the combination of a key is used has another key
IsFree-ne :
    (c : Combination) (used : List Combination) (k : Text) (e : Entry)
    → Names k c
    → IsFree (c ∷ used) e
    → k ≢ e.0
unfolding is_used
IsFree-ne c used k e n f eq =
    let same : f.combo ≡ c = cc (f.names, n, eq) in
    let u = rw same at f.free in ground (arith, u, same_combination_refl c)

module _ (lt : Entry → Entry → Bool) where
  insert-DistinctKeys :
      (e : Entry) (es : List Entry)
      → All (λ x. e.0 ≢ x.0) es
      → DistinctKeys es
      → DistinctKeys (insert lt e es)
  unfolding insert
  insert-DistinctKeys e [] h d = (tt, tt)
  insert-DistinctKeys e (x ∷ es) h d = elim (Bool-cases (lt e x)) [
    | inl b ↦ rw b (h, d)
    | inr b ↦ rw b (
      insert-All lt (λ y. x.0 ≢ y.0) e es (λ p. h.0 (sym p)) d.0,
      insert-DistinctKeys e es h.1 d.1,
    )
  ]

  sort_slice-DistinctKeys : (es : List Entry) → DistinctKeys es → DistinctKeys (sort_slice lt es)
  unfolding sort_slice
  sort_slice-DistinctKeys [] d = tt
  sort_slice-DistinctKeys (e ∷ es) d =
      insert-DistinctKeys e (sort_slice lt es) (sort_slice-All lt (λ x. e.0 ≢ x.0) es d.0)
        (sort_slice-DistinctKeys es d.1)

-- a key that the map has not is added at the end
data_set-new :
    (k v : Text) (m : List Entry) → All (λ x. x.0 ≢ k) m → data_set k v m ≡ m ++ (k, v) ∷ []
unfolding data_set
data_set-new k v [] h = refl
data_set-new k v ((j, w) ∷ m) h = elim (Bool-cases (text_eq j k)) [
  | inl e ↦ absurd (h.0 (eq_of_text_eq j k e))
  | inr e ↦ rw e (ap (λ r. (j, w) ∷ r) (data_set-new k v m h.1))
]

-- filling a map with entries of distinct keys keeps every one of them
populate-append :
    (m es : List Entry)
    → All (λ e. All (λ x. x.0 ≢ e.0) m) es
    → DistinctKeys es
    → populate m es ≡ m ++ es
unfolding populate
populate-append m [] h d = sym (append-nil m)
populate-append m ((k, v) ∷ es) h d = rw (data_set-new k v m h.0) (
    populate-append (m ++ (k, v) ∷ []) es (All-both es h.1 d.0) d.1
    ∙ append_assoc m ((k, v) ∷ []) es)
  where
    All-both :
        (es : List Entry)
        → All (λ e. All (λ x. x.0 ≢ e.0) m) es
        → All (λ x. k ≢ x.0) es
        → All (λ e. All (λ x. x.0 ≢ e.0) (m ++ (k, v) ∷ [])) es
    All-both [] a b = tt
    All-both (e ∷ es) a b =
        (All-append (λ x. x.0 ≢ e.0) m ((k, v) ∷ []) a.0 (b.0, tt), All-both es a.1 b.1)

populate_all : (es : List Entry) → DistinctKeys es → populate [] es ≡ es
populate_all es d = populate-append [] es (none_before es) d
  where
    none_before : (es : List Entry) → All (λ e. All (λ (x : Entry). x.0 ≢ e.0) []) es
    none_before [] = tt
    none_before (e ∷ es) = (tt, none_before es)

abbrev by_key : Entry → Entry → Bool
by_key a b = key_lt a.0 b.0

module _ (R : Source) where
  open R use {read-length}

  -- GenerateValue from the generator's own source returns, if the bytes can be had, that many
  pub generate_value_own :
      (vs : ℤ) (n : ℕ) (g : Generator R)
      → make_slice 1 vs ≡ ret n
      → (v : Text) × (g' : Generator R) × (generate_value R vs none g ≡ ret (v, none, g'))
        × (pos (length v) ≡ vs)
        × (g'.used ≡ g.used)
  unfolding generate_value
  generate_value_own vs n g m =
      let (v, e, l) = read-length n g.rg in
      (
        v,
        record g { rg = (R.read n g.rg).1 },
        rw (m, e, generate_value) refl,
        ap pos l ∙ sym (make_slice-pos 1 vs n m),
        refl,
      )

  -- what comes after GenerateValue is reached only with its bytes
  generate_value_made {ℓ} :
      {B : Type ℓ} (vs : ℤ) (g : Generator R) (next : Text × Option R.State × Generator R → Run B)
      {b : B}
      → (generate_value R vs none g >>= next) ≡ ret b
      → (n : ℕ) × (make_slice 1 vs ≡ ret n)
  unfolding generate_value
  generate_value_made vs g next h =
      let (x, e, _) = >>=-eq-ret (generate_value R vs none g) next h in
      let (n, m, _) = >>=-eq-ret (make_slice 1 vs) _ e in (n, m)

  pub record AreEntries (count : ℕ) (key_size : ℤ) (value_size : ℤ) (es : List Entry) : Type 0 where
    pub as_many : length es ≡ count
    pub distinct : DistinctKeys es
    pub sized : All (λ e. (pos (length e.0) ≡ key_size) × (pos (length e.1) ≡ value_size)) es
    pub drawable : All (λ e. IsDrawable (take 12 e.0)) es

  add_entry :
      (n : ℕ) (ks vs : ℤ) (used after : List Combination) (k v : Text) (es : List Entry)
      → IsKey R ks used k after
      → pos (length v) ≡ vs
      → AreEntries n ks vs es
      → All (IsFree after) es
      → AreEntries (suc n) ks vs ((k, v) ∷ es) × All (IsFree used) ((k, v) ∷ es)
  add_entry n ks vs used after k v es key lv a free =
      let c = key.fresh.combo in
      let free' = subst (λ u. All (IsFree u) es) key.fresh.marks free in
      (
        record {
          as_many = ap suc a.as_many;
          distinct = (All-map es (λ e f. IsFree-ne c used k e key.fresh.names f) free', a.distinct);
          sized = ((key.size, lv), a.sized);
          drawable = (key.prefix, a.drawable);
        },
        (
          record { combo = c; names = key.fresh.names; free = key.fresh.free },
          All-map es (λ e f. IsFree-smaller c used e f) free',
        ),
      )

  generate_entries-AreEntries :
      (fuel count : ℕ) (ks vs : ℤ) (g : Generator R) (es : List Entry) (g' : Generator R)
      → generate_entries R fuel count ks vs g ≡ ret (es, g')
      → AreEntries count ks vs es × All (IsFree g.used) es
  unfolding generate_entries
  generate_entries-AreEntries fuel zero ks vs g es g' h =
      let eq : [] ≡ es = ground arith in
      subst (λ x. AreEntries 0 ks vs x × All (IsFree g.used) x) eq
        (record { as_many = refl; distinct = tt; sized = tt; drawable = tt }, tt)
  generate_entries-AreEntries fuel (suc n) ks vs g es g' h =
      let ((k, g₁), e₁, h₁) = >>=-eq-ret (generate_key R fuel ks g) _ h in
      let (bytes, em) = generate_value_made vs g₁ _ h₁ in
      let (v, g₂, e₂, lv, same) = generate_value_own vs bytes g₁ em in
      let h₂ = rw e₂ at h₁ in
      let ((rest, g₃), e₃, h₃) = >>=-eq-ret (generate_entries R fuel n ks vs g₂) _ h₂ in
      let key = generate_key-IsKey R fuel ks g k g₁ e₁ in
      let ih = generate_entries-AreEntries fuel n ks vs g₂ rest g₃ e₃ in
      let eq : (k, v) ∷ rest ≡ es = ground arith in
      subst (λ x. AreEntries (suc n) ks vs x × All (IsFree g.used) x) eq
        (add_entry n ks vs g.used g₁.used k v rest key lv ih.0
          (subst (λ u. All (IsFree u) rest) same ih.1))

  -- GenerateData, whenever it returns, returns a map of exactly `count` keys, no two of them equal,
  -- each of `keySize` bytes, starting with /domain/region/shard from the tables, with a value of
  -- `valueSize` bytes.
  pub generate_data-AreEntries :
      (fuel : ℕ) (count ks vs : ℤ) (g : Generator R) (data_map : List Entry) (g' : Generator R)
      → generate_data R fuel count ks vs g ≡ ret (data_map, g')
      → (n : ℕ) × (count ≡ pos n) × AreEntries n ks vs data_map
  unfolding generate_data
  generate_data-AreEntries fuel count ks vs g m g' h =
      let (n, room, h₀) = >>=-eq-ret (make_slice 40 count) _ h in
      let ((es, g₁), e, h₁) = >>=-eq-ret (generate_entries R fuel n ks vs g) _ h₀ in
      let a = (generate_entries-AreEntries fuel n ks vs g es g₁ e).0 in
      let eq : populate [] (sort_slice by_key es) ≡ m = ground arith in
      (
        n,
        make_slice-pos 40 count n room,
        subst (AreEntries n ks vs)
            (sym
                (populate_all (sort_slice by_key es) (sort_slice-DistinctKeys by_key es a.distinct))
              ∙ eq)
            (record {
              as_many = length-sort_slice by_key es ∙ a.as_many;
              distinct = sort_slice-DistinctKeys by_key es a.distinct;
              sized = sort_slice-All by_key _ es a.sized;
              drawable = sort_slice-All by_key _ es a.drawable;
            }),
      )
