-- ===== src/Generator/Unique.antt =====
-- No key is generated twice: each takes a combination that was free and is used from then on.
use mathlib.Core.Path.{subst₂}
use mathlib.Core.List.{append-nil}
use etcd_cloud_benchmarking.Prelude.{
  subst, ℕ, zero, suc, ◌+◌, ◌≡◌, sym, ap, ◌∙◌, inl, inr, Bool, true, false, List, [], ◌∷◌, ◌++◌,
  length, length-append, take, Bool-cases, arith,
}
use etcd_cloud_benchmarking.Prelude.Int.{
  int_eq, int_eq→eq, ℤ, pos, ltb_ℤ, ◌-ℤ◌, pos_part, neg_part, eq_of_parts, -ℤ_parts,
}
use etcd_cloud_benchmarking.Prelude.Run.{Run, ret, >>=-eq-ret}
use etcd_cloud_benchmarking.Prelude.Text.{Text, sprintf_03d}
use etcd_cloud_benchmarking.Generator.Random.{Source}
use etcd_cloud_benchmarking.Generator.Keys.{IsPart, IsDrawable, key_parts, draw_parts_total}
use etcd_cloud_benchmarking.Generator.Fresh.{
  IsFresh, IsFreshPadding, is_used_padding-IsFreshPadding, is_used_padding-taken,
  generate_unique_padding-IsFreshPadding,
}
use etcd_cloud_benchmarking.Generator.{
  Combination, combination, min_key_size, Generator, is_used_padding, generate_unique_padding,
  finish_key, generate_key,
}

abbrev prefix_of : (d r s : Text) → Text
prefix_of d r s = b'/' ∷ d ++ (b'/' ∷ r ++ b'/' ∷ s)

abbrev prefix_len : (d r s : Text) → ℕ
prefix_len d r s = 1 + length d + 1 + length r + 1 + length s

length-prefix : (d r s : Text) → length (prefix_of d r s) ≡ prefix_len d r s
length-prefix d r s = omega (
  arith,
  length-append d (b'/' ∷ r ++ b'/' ∷ s),
  length-append r (b'/' ∷ s),
  length-append (b'/' ∷ d) (b'/' ∷ r ++ b'/' ∷ s),
)

key_size_eq :
    (target : ℤ) (d r s p : Text)
    → pos (length p) ≡ target -ℤ pos (prefix_len d r s)
    → pos (length (prefix_of d r s ++ p)) ≡ target
key_size_eq target d r s p h =
    let e : target -ℤ pos (prefix_len d r s) ≡ pos (length p) = sym h in
    let n : pos_part (target -ℤ pos (prefix_len d r s)) ≡ length p = ap pos_part e in
    let m : neg_part (target -ℤ pos (prefix_len d r s)) ≡ 0 = ap neg_part e in
    eq_of_parts _ target (
      omega (
        arith,
        n,
        m,
        -ℤ_parts target (pos (prefix_len d r s)),
        length-append (prefix_of d r s) p,
        length-prefix d r s,
      ))

module _ (R : Source) where
  open R use {State}

  -- what a key is of: its size, and its combination free before and used after
  pub record IsKey (target : ℤ) (before : List Combination) (k : Text) (after : List Combination)
      : Type 0 where
    pub size : pos (length k) ≡ target
    pub fresh : IsFresh before k after
    pub prefix : IsDrawable (take 12 k)

  IsKey-padded :
      (d r s p : Text) (target : ℤ) (before after : List Combination)
      → IsPart d
      → IsPart r
      → IsPart s
      → IsDrawable (prefix_of d r s)
      → IsFreshPadding R (prefix_of d r s) (target -ℤ pos (prefix_len d r s)) before p after
      → IsKey target before (prefix_of d r s ++ p) after
  IsKey-padded d r s p target before after hd hr hs made f = record {
    prefix = subst IsDrawable (sym (key_parts d r s p hd hr hs).0) made;
    size = key_size_eq target d r s p f.size;
    fresh = record {
      combo = f.combo;
      names =
          let (t, u) = key_parts d r s p hd hr hs in
          subst₂ (λ (a b : Text). combination a b ≡ ret f.combo) (sym t) (sym u) f.names;
      free = f.free;
      marks = f.marks;
    };
  }

  -- the two ways to finish a key
  module _ (d r s : Text) (target : ℤ) (hd : IsPart d) (hr : IsPart r) (hs : IsPart s)
      (made : IsDrawable (prefix_of d r s)) (again : Generator R → Run (Text × Generator R))
      (k : Text) (g' : Generator R)
      (again-IsKey : (g₁ : Generator R)
        → again g₁ ≡ ret (k, g')
        → IsKey target g₁.used k g'.used) where
    unpadded :
        (taken : Bool) (g g₁ : Generator R)
        → int_eq (target -ℤ pos (prefix_len d r s)) (pos 0) ≡ true
        → is_used_padding R (prefix_of d r s) [] g ≡ ret (taken, g₁)
        → (elim taken as (λ _. Run (Text × Generator R)) [
          | true ↦ again g₁
          | false ↦ ret (prefix_of d r s, g₁)
        ])
          ≡ ret (k, g')
        → IsKey target g.used k g'.used
    unpadded true g g₁ e u h =
        subst (λ x. IsKey target x k g'.used) (is_used_padding-taken R (prefix_of d r s) [] g g₁ u)
          (again-IsKey g₁ h)
    unpadded false g g₁ e u h =
        let size = sym (int_eq→eq (target -ℤ pos (prefix_len d r s)) (pos 0) e) in
        let f = is_used_padding-IsFreshPadding R (prefix_of d r s) [] _ g g₁ size u in
        let key = IsKey-padded d r s [] target g.used g₁.used hd hr hs made f in
        let eq : prefix_of d r s ++ [] ≡ k = append-nil (prefix_of d r s) ∙ ground arith in
        let eg : g₁ ≡ g' = ground arith in
        subst₂ (λ (a : Text) (b : Generator R). IsKey target g.used a b.used) eq eg key

    finish_key-IsKey :
        (fuel : ℕ) (g : Generator R)
        → finish_key R fuel again (target -ℤ pos (prefix_len d r s)) (prefix_of d r s) g
          ≡ ret (k, g')
        → IsKey target g.used k g'.used
    unfolding finish_key
    finish_key-IsKey fuel g h =
        elim (Bool-cases (int_eq (target -ℤ pos (prefix_len d r s)) (pos 0))) [
          | inl e ↦
              let h₁ = rw (e, finish_key) at h in
              let ((taken, g₁), u, h₂) =
                >>=-eq-ret (is_used_padding R (prefix_of d r s) [] g) _ h₁ in
              unpadded taken g g₁ e u h₂
          | inr e ↦
              let h₁ = rw (e, finish_key) at h in
              let ((p, g₁), u, h₂) =
                >>=-eq-ret
                  (generate_unique_padding R fuel (target -ℤ pos (prefix_len d r s))
                    (prefix_of d r s) g)
                  _ h₁ in
              let f = generate_unique_padding-IsFreshPadding R fuel _ (prefix_of d r s) g p g₁ u in
              let key = IsKey-padded d r s p target g.used g₁.used hd hr hs made f in
              let eq : prefix_of d r s ++ p ≡ k = ground arith in
              let eg : g₁ ≡ g' = ground arith in
              subst₂ (λ (a : Text) (b : Generator R). IsKey target g.used a b.used) eq eg key
        ]

  pub generate_key-IsKey :
      (fuel : ℕ) (target : ℤ) (g : Generator R) (k : Text) (g' : Generator R)
      → generate_key R fuel target g ≡ ret (k, g')
      → IsKey target g.used k g'.used
  unfolding generate_key
  generate_key-IsKey zero target g k g' h = cc
  generate_key-IsKey (suc fuel) target g k g' h = elim (Bool-cases (ltb_ℤ target min_key_size)) [
    | inl e ↦ let h₁ = rw e at h in cc h₁
    | inr e ↦
        let D = draw_parts_total R g.rg in
        let h₁ = rw (e, D.drawn) at h in
        finish_key-IsKey D.domain D.region (sprintf_03d D.shard) target D.is_domain D.is_region
          D.is_shard D.drawable (generate_key R fuel target) k g'
          (λ g₁. generate_key-IsKey fuel target g₁ k g') fuel (record g { rg = D.next }) h₁
  ]
