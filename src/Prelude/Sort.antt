-- ===== src/Prelude/Sort.antt =====
-- sort.Slice, as insertion of each element in turn: the package promises a sorted rearrangement, and
-- the program compares numbers, or keys that are all different. Its laws follow.
use mathlib.Core.List.{Perm}
use mathlib.Core.List.Perm
use etcd_cloud_benchmarking.Prelude.Tests.{if◌then◌else◌, Bool-cases}
use etcd_cloud_benchmarking.Prelude.Lists.{length, All}
use mathlib.Core.Path.{◌≡◌, refl}
use mathlib.Core.Logic.{inl, inr}
use mathlib.Core.Bool.{Bool, true, false}
use mathlib.Core.List.{List, [], ◌∷◌}
use native.Mathlib.Omega.{arith}

module _ {ℓ} {A : Type ℓ} (lt : A → A → Bool) where
  unfoldable pub insert : A → List A → List A
  insert x [] = x ∷ []
  insert x (y ∷ ys) = if lt x y then x ∷ y ∷ ys else y ∷ insert x ys

  unfoldable pub sort_slice : List A → List A
  unfolding insert
  sort_slice [] = []
  sort_slice (x ∷ xs) = insert x (sort_slice xs)

  pub insert-perm : (x : A) (ys : List A) → Perm (insert x ys) (x ∷ ys)
  unfolding insert
  insert-perm x [] = Perm.refl (x ∷ [])
  insert-perm x (y ∷ ys) = elim (Bool-cases (lt x y)) [
    | inl e ↦ rw e (Perm.refl (x ∷ y ∷ ys))
    | inr e ↦ rw e (Perm.trans (Perm.cons y (insert-perm x ys)) (Perm.swap x y ys))
  ]

  -- Sorting rearranges.
  pub sort_slice-perm : (xs : List A) → Perm (sort_slice xs) xs
  unfolding sort_slice
  sort_slice-perm [] = Perm.refl []
  sort_slice-perm (x ∷ xs) =
      Perm.trans (insert-perm x (sort_slice xs)) (Perm.cons x (sort_slice-perm xs))

  length-insert : (x : A) (ys : List A) → length (insert x ys) ≡ length (x ∷ ys)
  unfolding insert
  length-insert x [] = refl
  length-insert x (y ∷ ys) = ground (arith, length-insert x ys)

  pub length-sort_slice : (xs : List A) → length (sort_slice xs) ≡ length xs
  unfolding sort_slice
  length-sort_slice [] = refl
  length-sort_slice (x ∷ xs) = omega (arith, length-insert x (sort_slice xs), length-sort_slice xs)

  module _ {κ} (P : A → Type κ) where
    pub insert-All : (x : A) (ys : List A) → P x → All P ys → All P (insert x ys)
    unfolding insert
    insert-All x [] p h = (p, tt)
    insert-All x (y ∷ ys) p h = elim (Bool-cases (lt x y)) [
      | inl e ↦ rw e (p, h)
      | inr e ↦ rw e (h.0, insert-All x ys p h.1)
    ]

    pub sort_slice-All : (xs : List A) → All P xs → All P (sort_slice xs)
    unfolding sort_slice
    sort_slice-All [] h = tt
    sort_slice-All (x ∷ xs) h = insert-All x (sort_slice xs) h.0 (sort_slice-All xs h.1)

-- each element is at most every later one
abbrev pub Sorted {ℓ κ} : {A : Type ℓ} → (A → A → Type κ) → List A → Type κ
Sorted le [] = Unit
Sorted le (x ∷ xs) = All (le x) xs × Sorted le xs

module _ {ℓ κ} {A : Type ℓ} (lt : A → A → Bool) (le : A → A → Type κ)
    (le_of_lt : (a b : A) → lt a b ≡ true → le a b)
    (le_of_not_lt : (a b : A) → lt a b ≡ false → le b a)
    (le_trans : (a b c : A) → le a b → le b c → le a c) where
  below : (x y : A) (ys : List A) → le x y → All (le y) ys → All (le x) ys
  below x y [] h k = tt
  below x y (z ∷ zs) h k = (le_trans x y z h k.0, below x y zs h k.1)

  insert-Sorted : (x : A) (ys : List A) → Sorted le ys → Sorted le (insert lt x ys)
  unfolding insert
  insert-Sorted x [] s = (tt, tt)
  insert-Sorted x (y ∷ ys) s = elim (Bool-cases (lt x y)) [
    | inl e ↦ rw e ((le_of_lt x y e, below x y ys (le_of_lt x y e) s.0), s)
    | inr e ↦ rw e (insert-All lt (le y) x ys (le_of_not_lt x y e) s.0, insert-Sorted x ys s.1)
  ]

  -- Sorting sorts, under any comparison that agrees with a transitive order.
  pub sort_slice-Sorted : (xs : List A) → Sorted le (sort_slice lt xs)
  unfolding sort_slice
  sort_slice-Sorted [] = tt
  sort_slice-Sorted (x ∷ xs) = insert-Sorted x (sort_slice lt xs) (sort_slice-Sorted xs)
