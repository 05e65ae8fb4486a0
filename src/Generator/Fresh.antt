-- ===== src/Generator/Fresh.antt =====
-- Paddings: isUsedPadding marks a combination that was free, and a padding that is returned was free.
use mathlib.Core.Path.{subst₂}
use etcd_cloud_benchmarking.Generator.Tables.{char_pool}
use etcd_cloud_benchmarking.Prelude.{
  subst, get_elem?, ℕ, zero, suc, ◌≡◌, sym, ap, ◌∙◌, Bool, true, false, List, ◌∷◌, length, take,
  drop, if◌then◌else◌, arith,
}
use etcd_cloud_benchmarking.Prelude.Int.{ℤ, pos}
use etcd_cloud_benchmarking.Prelude.Run.{Run, ret, or_panic, >>=-eq-ret}
use etcd_cloud_benchmarking.Prelude.Text.{Text, text_eq_refl}
use etcd_cloud_benchmarking.Prelude.Alloc.{make_slice, make_slice-pos}
use etcd_cloud_benchmarking.Generator.Random.{Source}
use etcd_cloud_benchmarking.Generator.{
  Combination, same_combination, is_used, combination, Generator, is_used_padding, draw_padding,
  make_padding, generate_unique_padding,
}

pub same_combination_refl : (c : Combination) → same_combination c c ≡ true
unfolding same_combination
same_combination_refl c =
    grind (arith, text_eq_refl c.domain, text_eq_refl c.region, text_eq_refl c.padding)

-- the combination that a key stands for, read back from its bytes
abbrev pub Names : Text → Combination → Type 0
Names k c = combination (take 12 k) (drop 12 k) ≡ ret c

-- a key whose combination was free before, and is the last one used after
pub record IsFresh (before : List Combination) (k : Text) (after : List Combination) : Type 0 where
  pub combo : Combination
  pub names : Names k combo
  pub free : is_used combo before ≡ false
  pub marks : after ≡ combo ∷ before

module _ (R : Source) where
  open R use {State}

  length-draw_padding :
      (n : ℕ) (s : State) (p : Text) (s' : State) → draw_padding R n s ≡ ret (p, s') → length p ≡ n
  unfolding draw_padding
  length-draw_padding zero s p s' h = ground arith
  length-draw_padding (suc n) s p s' h =
      let (c, ec, h₁) =
        >>=-eq-ret (or_panic (get_elem? char_pool (R.intn (length char_pool) s).0)) _ h in
      let (r, er, h₂) = >>=-eq-ret (draw_padding R n (R.intn (length char_pool) s).1) _ h₁ in
      let ih : length r.0 ≡ n = length-draw_padding n (R.intn (length char_pool) s).1 r.0 r.1 er in
      let e : c ∷ r.0 ≡ p = ground arith in ap length (sym e) ∙ ap suc ih

  -- isUsedPadding marks a free combination, and only such a one
  mark_cases :
      (prefix p : Text) (g g' : Generator R) (c : Combination) (b : Bool)
      → combination prefix p ≡ ret c
      → is_used_padding R prefix p g ≡ ret (b, g')
      → (is_used c g.used ≡ b) × (g'.rg ≡ g.rg) × (g'.used ≡ (if b then g.used else c ∷ g.used))
  unfolding is_used_padding
  mark_cases prefix p g g' c b e h = ground arith

  length-make_padding :
      (n : ℤ) (s : State) (p : Text) (s' : State)
      → make_padding R n s ≡ ret (p, s')
      → pos (length p) ≡ n
  unfolding make_padding
  length-make_padding size s p s' h =
      let (n, e, h₁) = >>=-eq-ret (make_slice 1 size) _ h in
      ap pos (length-draw_padding n s p s' h₁) ∙ sym (make_slice-pos 1 size n e)

  -- the padding that is returned was free for its prefix
  pub record IsFreshPadding (prefix : Text) (n : ℤ) (used : List Combination) (p : Text)
      (after : List Combination) : Type 0 where
    pub size : pos (length p) ≡ n
    pub combo : Combination
    pub names : combination prefix p ≡ ret combo
    pub free : is_used combo used ≡ false
    pub marks : after ≡ combo ∷ used

  pub is_used_padding-IsFreshPadding :
      (prefix p : Text) (n : ℤ) (g g' : Generator R)
      → pos (length p) ≡ n
      → is_used_padding R prefix p g ≡ ret (false, g')
      → IsFreshPadding prefix n g.used p g'.used
  unfolding is_used_padding
  is_used_padding-IsFreshPadding prefix p n g g' l h =
      let (c, ec, h₁) = >>=-eq-ret (combination prefix p) _ h in
      let m = mark_cases prefix p g g' c false ec h in
      record { size = l; combo = c; names = ec; free = m.0; marks = m.2 }

  -- a padding that is taken changes nothing
  pub is_used_padding-taken :
      (prefix p : Text) (g g' : Generator R)
      → is_used_padding R prefix p g ≡ ret (true, g')
      → g'.used ≡ g.used
  unfolding is_used_padding
  is_used_padding-taken prefix p g g' h =
      let (c, ec, h₁) = >>=-eq-ret (combination prefix p) _ h in
      (mark_cases prefix p g g' c true ec h).2

  pub generate_unique_padding-IsFreshPadding :
      (fuel : ℕ) (n : ℤ) (prefix : Text) (g : Generator R) (p : Text) (g' : Generator R)
      → generate_unique_padding R fuel n prefix g ≡ ret (p, g')
      → IsFreshPadding prefix n g.used p g'.used
  unfolding generate_unique_padding
  generate_unique_padding-IsFreshPadding zero n prefix g p g' h = cc
  generate_unique_padding-IsFreshPadding (suc fuel) n prefix g p g' h =
      let ((q, s), e, h₁) = >>=-eq-ret (make_padding R n g.rg) _ h in
      let ((b, g₁), e₁, h₂) = >>=-eq-ret (is_used_padding R prefix q (record g { rg = s })) _ h₁ in
      go q s b g₁ (length-make_padding n g.rg q s e) e₁ h₂
        (generate_unique_padding-IsFreshPadding fuel n prefix g₁ p g')
    where
      go :
          (q : Text) (s : State) (b : Bool) (g₁ : Generator R)
          → pos (length q) ≡ n
          → is_used_padding R prefix q (record g { rg = s }) ≡ ret (b, g₁)
          → (elim b as (λ _. Run (Text × Generator R)) [
            | true ↦ generate_unique_padding R fuel n prefix g₁
            | false ↦ ret (q, g₁)
          ])
            ≡ ret (p, g')
          → (generate_unique_padding R fuel n prefix g₁ ≡ ret (p, g')
              → IsFreshPadding prefix n g₁.used p g'.used)
          → IsFreshPadding prefix n g.used p g'.used
      go q s true g₁ l e h ih =
          let same = is_used_padding-taken prefix q (record g { rg = s }) g₁ e in
          subst (λ u. IsFreshPadding prefix n u p g'.used) same (ih h)
      go q s false g₁ l e h ih =
          let f = is_used_padding-IsFreshPadding prefix q n (record g { rg = s }) g₁ l e in
          let eq : q ≡ p = ground arith in
          let eg : g₁ ≡ g' = ground arith in
          subst₂ (λ (a : Text) (b : Generator R). IsFreshPadding prefix n g.used a b.used) eq eg f
