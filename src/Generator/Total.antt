-- ===== src/Generator/Total.antt =====
-- GenerateKey and GenerateData neither panic nor fail on a key size of at least 12 where memory can be
-- addressed, and fail on any other; the loop over paddings ends exactly when a draw gives a free one.
use etcd_cloud_benchmarking.Prelude.{
  ℕ, zero, suc, ◌+◌, ◌-◌, ◌*◌, ◌<◌, ◌≤◌, ◌≡◌, refl, ◌⊎◌, inl, inr, Bool, true, false, some, [], ◌∷◌,
  ◌++◌, length, get_elem?, Bool-cases, arith,
}
use etcd_cloud_benchmarking.Prelude.Int.{
  int_eq, ℤ, pos, ltb_ℤ, ◌≤ℤ◌, ◌<ℤ◌, ◌-ℤ◌, pos_part, eq_of_parts, -ℤ_parts,
}
use etcd_cloud_benchmarking.Prelude.Run.{Run, ret, fails, Runs, >>=-Runs}
use etcd_cloud_benchmarking.Prelude.Alloc.{max_alloc, make_slice, make_slice_room}
use etcd_cloud_benchmarking.Prelude.Text.{Text, sprintf_03d}
use etcd_cloud_benchmarking.Generator.Random.{Source}
use etcd_cloud_benchmarking.Generator.Tables.{char_pool}
use etcd_cloud_benchmarking.Generator.Keys.{
  IsPart-length, combination_prefix, Drawn, draw_parts_total,
}
use etcd_cloud_benchmarking.Generator.Data.{generate_value_own}
use etcd_cloud_benchmarking.Generator.{
  Combination, is_used, combination, min_key_size, Generator, mark, is_used_padding, draw_padding,
  make_padding, generate_unique_padding, finish_key, generate_key, generate_entries, generate_data,
}

char_pool_byte : (i : ℕ) → i < length char_pool → (c : ℕ) × (get_elem? char_pool i ≡ some c)
char_pool_byte i h = any_byte char_pool i h
  where
    any_byte : (s : Text) (i : ℕ) → i < length s → (c : ℕ) × (get_elem? s i ≡ some c)
    any_byte [] i h = elim h [ ]
    any_byte (c ∷ s) zero h = (c, refl)
    any_byte (c ∷ s) (suc i) h = any_byte s i (omega arith)

module _ (R : Source) where
  open R use {State, intn-lt}

  -- the bytes of a padding, and where the source stands after them
  draw_padding_total :
      (n : ℕ) (s : State) → (p : Text) × (s' : State) × (draw_padding R n s ≡ ret (p, s'))
  unfolding draw_padding char_pool
  draw_padding_total zero s = ([], s, refl)
  draw_padding_total (suc n) s =
      let (c, ec) =
        char_pool_byte (R.intn (length char_pool) s).0
          (intn-lt (length char_pool) s (omega arith)) in
      let (p, s', ep) = draw_padding_total n (R.intn (length char_pool) s).1 in
      (c ∷ p, s', rw (ec, ep) refl)

  -- a prefix that isUsedPadding can read
  abbrev Readable : Text → Type 0
  Readable prefix = (p : Text) → (c : Combination) × (combination prefix p ≡ ret c)

  draw_padding-Runs : (n : ℕ) (s : State) → Runs (draw_padding R n s)
  draw_padding-Runs n s = let (p, s', e) = draw_padding_total n s in rw e tt

  make_padding-Runs : (n : ℕ) (s : State) → n ≤ max_alloc → Runs (make_padding R (pos n) s)
  unfolding make_padding
  make_padding-Runs n s small =
      rw (make_slice_room 1 n (omega (arith, small))) (draw_padding-Runs n s)

  is_used_padding-Runs :
      (prefix p : Text) (g : Generator R) → Readable prefix → Runs (is_used_padding R prefix p g)
  unfolding is_used_padding
  is_used_padding-Runs prefix p g h = let (c, e) = h p in rw e tt

  -- a test of a padding runs if each of its branches does
  tested-Runs :
      (b : Bool) (m n : Run (Text × Generator R))
      → Runs m
      → Runs n
      → Runs (elim b as (λ _. Run (Text × Generator R)) [ true ↦ m | false ↦ n ])
  tested-Runs true m n hm hn = hm
  tested-Runs false m n hm hn = hn

  generate_unique_padding-Runs :
      (fuel n : ℕ) (prefix : Text) (g : Generator R)
      → n ≤ max_alloc
      → Readable prefix
      → Runs (generate_unique_padding R fuel (pos n) prefix g)
  unfolding generate_unique_padding make_padding
  generate_unique_padding-Runs zero n prefix g small h = tt
  generate_unique_padding-Runs (suc fuel) n prefix g small h =
      >>=-Runs (make_padding R (pos n) g.rg) _ (make_padding-Runs n g.rg small) λ a _.
        >>=-Runs (is_used_padding R prefix a.0 (record g { rg = a.1 })) _
          (is_used_padding-Runs prefix a.0 _ h)
          λ b _. tested-Runs b.0 _ _ (generate_unique_padding-Runs fuel n prefix b.1 small h) tt

  Drawn-Readable :
      (s : State) (D : Drawn R s)
      → Readable (b'/' ∷ D.domain ++ (b'/' ∷ D.region ++ b'/' ∷ sprintf_03d D.shard))
  Drawn-Readable s D p = (
    _,
    combination_prefix D.domain D.region (sprintf_03d D.shard) p D.is_domain D.is_region D.is_shard,
  )

  finish_key-Runs :
      (fuel : ℕ) (again : Generator R → Run (Text × Generator R)) (n : ℕ) (prefix : Text)
      (g : Generator R)
      → ((g' : Generator R) → Runs (again g'))
      → n ≤ max_alloc
      → Readable prefix
      → Runs (finish_key R fuel again (pos n) prefix g)
  unfolding finish_key
  finish_key-Runs fuel again n prefix g ra small h = elim (Bool-cases (int_eq (pos n) (pos 0))) [
    | inl e ↦
        rw (e, finish_key)
          (>>=-Runs (is_used_padding R prefix [] g) _ (is_used_padding-Runs prefix [] g h)
            λ b _. tested-Runs b.0 _ _ (ra b.1) tt)
    | inr e ↦
        rw (e, finish_key)
          (>>=-Runs (generate_unique_padding R fuel (pos n) prefix g) _
            (generate_unique_padding-Runs fuel n prefix g small h) λ b _. tt)
  ]

  room :
      (target : ℤ) (m : ℕ)
      → m ≡ 12
      → ltb_ℤ target min_key_size ≡ false
      → target -ℤ pos m ≡ pos (pos_part target - 12)
  room target m e h = eq_of_parts _ _ (ground (arith, -ℤ_parts target (pos m)))

  generate_key-Runs :
      (fuel : ℕ) (target : ℤ) (g : Generator R)
      → ltb_ℤ target min_key_size ≡ false
      → pos_part target ≤ 12 + max_alloc
      → Runs (generate_key R fuel target g)
  unfolding generate_key
  generate_key-Runs zero target g h small = tt
  generate_key-Runs (suc fuel) target g h small =
      let D = draw_parts_total R g.rg in
      let twelve : 1 + length D.domain + 1 + length D.region + 1 + length (sprintf_03d D.shard)
          ≡ 12 =
        omega
          (arith, IsPart-length D.is_domain, IsPart-length D.is_region, IsPart-length D.is_shard) in
      rw (h, D.drawn, room target _ twelve h)
        (finish_key-Runs fuel (generate_key R fuel target) (pos_part target - 12) _
          (record g { rg = D.next }) (λ g'. generate_key-Runs fuel target g' h small)
          (omega (arith, small)) (Drawn-Readable g.rg D))

  generate_entries-Runs :
      (fuel n : ℕ) (ks vs : ℤ) (bytes : ℕ) (g : Generator R)
      → ltb_ℤ ks min_key_size ≡ false
      → pos_part ks ≤ 12 + max_alloc
      → make_slice 1 vs ≡ ret bytes
      → Runs (generate_entries R fuel n ks vs g)
  unfolding generate_entries
  generate_entries-Runs fuel zero ks vs bytes g h small made = tt
  generate_entries-Runs fuel (suc n) ks vs bytes g h small made =
      >>=-Runs (generate_key R fuel ks g) _ (generate_key-Runs fuel ks g h small) λ a _.
        let (v, g₂, e, _, _) = generate_value_own R vs bytes a.1 made in
        rw e (
          >>=-Runs (generate_entries R fuel n ks vs g₂) _
            (generate_entries-Runs fuel n ks vs bytes g₂ h small made) λ b _. tt)

  -- Let GenerateData be asked for at least one key, and let none of its allocations ask for more
  -- than the 2^48 bytes that can be addressed: 40 bytes for each entry, the padding of a key, and a
  -- value, whose size is not negative. Then it fails, with the error of GenerateKey, on a key size
  -- below 12; on any other it neither fails nor panics, whatever the draws are.
  pub generate_data_outcome :
      (fuel n : ℕ) (ks : ℤ) (vs : ℕ) (g : Generator R)
      → 40 * suc n ≤ max_alloc
      → ks ≤ℤ pos (12 + max_alloc)
      → vs ≤ max_alloc
      → ((ks <ℤ pos 12)
          × (generate_data R (suc fuel) (pos (suc n)) ks (pos vs) g
              ≡ fails "target size is less than minimum required size"))
        ⊎ ((pos 12 ≤ℤ ks) × Runs (generate_data R (suc fuel) (pos (suc n)) ks (pos vs) g))
  unfolding generate_data generate_entries generate_key
  generate_data_outcome fuel n ks vs g count key value =
      let made = make_slice_room 40 (suc n) count in
      elim (Bool-cases (ltb_ℤ ks min_key_size)) [
        | inl e ↦ inl (ground arith, rw (made, e) refl)
        | inr e ↦ inr (
          ground arith,
          rw (made) (
              >>=-Runs (generate_entries R (suc fuel) (suc n) ks (pos vs) g) _
                (generate_entries-Runs (suc fuel) (suc n) ks (pos vs) vs g e (ground (arith, key))
                  (make_slice_room 1 vs (omega (arith, value))))
                λ b _. tt),
        )
      ]

  -- one of the next `fuel` draws of a padding is free for the prefix
  pub data FreeDraw (n : ℕ) (prefix : Text) : ℕ → Generator R → Type 0 where
    now :
        {fuel : ℕ} {g : Generator R} (p : Text) (s : State) (c : Combination)
        → draw_padding R n g.rg ≡ ret (p, s)
        → combination prefix p ≡ ret c
        → is_used c g.used ≡ false
        → FreeDraw n prefix (suc fuel) g
    later :
        {fuel : ℕ} {g : Generator R} (p : Text) (s : State) (c : Combination)
        → draw_padding R n g.rg ≡ ret (p, s)
        → combination prefix p ≡ ret c
        → FreeDraw n prefix fuel (record g { rg = s })
        → FreeDraw n prefix (suc fuel) g

  -- The loop of generateUniquePadding ends as soon as a draw is free: if one of the next `fuel`
  -- draws is, `fuel` rounds are enough for it to return.
  generate_unique_padding_ends :
      (n : ℕ) (prefix : Text) (fuel : ℕ) (g : Generator R)
      → n ≤ max_alloc
      → FreeDraw n prefix fuel g
      → (r : Text × Generator R) × (generate_unique_padding R fuel (pos n) prefix g ≡ ret r)
  unfolding generate_unique_padding make_padding is_used_padding mark
  generate_unique_padding_ends n prefix _ g small (now p s c e₁ e₂ e₃) =
      let room = make_slice_room 1 n (omega (arith, small)) in
      ((p, record { rg = s; used = c ∷ g.used }), rw (room, e₁, e₂, e₃) refl)
  generate_unique_padding_ends n prefix (suc fuel) g small (later p s c e₁ e₂ d) =
      let room = make_slice_room 1 n (omega (arith, small)) in
      elim (Bool-cases (is_used c g.used)) [
        | inl b ↦
            let (r, e) = generate_unique_padding_ends n prefix fuel (record g { rg = s }) small d in
            (r, rw (room, e₁, e₂, b) e)
        | inr b ↦ ((p, record { rg = s; used = c ∷ g.used }), rw (room, e₁, e₂, b) refl)
      ]
