-- ===== src/Prelude/Pigeonhole.antt =====
-- Different numbers below a bound are no more than the bound.
use Prim.Native.Nat.{ℕ, zero, suc, ◌≤◌, ◌<◌}
use mathlib.Core.Path.{◌≡◌, sym, ◌∙◌}
use mathlib.Core.Logic.{◌≢◌, inl, inr}
use mathlib.Core.List.{List, [], ◌∷◌}
use native.Mathlib.Omega.{arith}
use etcd_cloud_benchmarking.Prelude.Tests.{◌==◌, Bool-cases, if◌then◌else◌}
use etcd_cloud_benchmarking.Prelude.Lists.{length, All, All-map}

abbrev pub Distinct {ℓ} : {A : Type ℓ} → List A → Type ℓ
Distinct [] = Unit
Distinct (x ∷ xs) = All (λ y. x ≢ y) xs × Distinct xs

remove : ℕ → List ℕ → List ℕ
remove n [] = []
remove n (x ∷ xs) = if x == n then xs else x ∷ remove n xs

remove-All {κ} : (P : ℕ → Type κ) (n : ℕ) (xs : List ℕ) → All P xs → All P (remove n xs)
unfolding remove
remove-All P n [] h = tt
remove-All P n (x ∷ xs) h = elim (Bool-cases (x == n)) [
  | inl e ↦ rw e h.1
  | inr e ↦ rw e (h.0, remove-All P n xs h.1)
]

remove-Distinct : (n : ℕ) (xs : List ℕ) → Distinct xs → Distinct (remove n xs)
unfolding remove
remove-Distinct n [] d = tt
remove-Distinct n (x ∷ xs) d = elim (Bool-cases (x == n)) [
  | inl e ↦ rw e d.1
  | inr e ↦ rw e (remove-All (λ y. x ≢ y) n xs d.0, remove-Distinct n xs d.1)
]

length-remove : (n : ℕ) (xs : List ℕ) → length xs ≤ suc (length (remove n xs))
unfolding remove
length-remove n [] = omega arith
length-remove n (x ∷ xs) = ground (arith, length-remove n xs)

remove-below :
    (n : ℕ) (xs : List ℕ) → Distinct xs → All (λ x. x < suc n) xs → All (λ x. x < n) (remove n xs)
unfolding remove
remove-below n [] d h = tt
remove-below n (x ∷ xs) d h = elim (Bool-cases (x == n)) [
  | inl e ↦
      let eq : x ≡ n = ground arith in
      rw e (below xs (All-map xs (λ y p q. p (eq ∙ sym q)) d.0) h.1)
  | inr e ↦ let lt : x < n = ground (arith, h.0) in rw e (lt, remove-below n xs d.1 h.1)
]
  where
    below : (ys : List ℕ) → All (λ y. y ≢ n) ys → All (λ y. y < suc n) ys → All (λ y. y < n) ys
    below [] p q = tt
    below (y ∷ ys) p q = (omega (arith, p.0, q.0), below ys p.1 q.1)

pub pigeonhole : (n : ℕ) (xs : List ℕ) → Distinct xs → All (λ x. x < n) xs → length xs ≤ n
pigeonhole zero [] d h = omega arith
pigeonhole zero (x ∷ xs) d h = elim h.0 [ ]
pigeonhole (suc n) xs d h = omega (
  arith,
  length-remove n xs,
  pigeonhole n (remove n xs) (remove-Distinct n xs d) (remove-below n xs d h),
)
