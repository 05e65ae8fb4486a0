-- ===== src/Prelude/Lists.antt =====
-- Lists measured and indexed by native numbers, and a predicate for every member.
use Prim.Native.Nat.{ℕ, zero, suc, ◌+◌, ◌<◌, ◌≤◌}
use mathlib.Core.Path.{◌≡◌, refl, ap}
use mathlib.Core.Logic.{◌⊎◌, inl, inr}
use mathlib.Core.Bool.{Bool, true, ◌&&◌}
use mathlib.Core.Option.{Option, none, some}
use mathlib.Core.List.{List, [], ◌∷◌, ◌++◌, map}
use native.Mathlib.Omega.{arith}
use etcd_cloud_benchmarking.Prelude.Tests.{if◌then◌else◌}

module _ {ℓ} {A : Type ℓ} where
  abbrev pub length : List A → ℕ
  length [] = 0
  length (x ∷ xs) = suc (length xs)

  abbrev pub get_elem? : List A → ℕ → Option A
  get_elem? [] i = none
  get_elem? (x ∷ xs) zero = some x
  get_elem? (x ∷ xs) (suc i) = get_elem? xs i

  abbrev pub take : ℕ → List A → List A
  take zero xs = []
  take (suc n) [] = []
  take (suc n) (x ∷ xs) = x ∷ take n xs

  abbrev pub drop : ℕ → List A → List A
  drop zero xs = xs
  drop (suc n) [] = []
  drop (suc n) (x ∷ xs) = drop n xs

  pub length-append : (xs ys : List A) → length (xs ++ ys) ≡ length xs + length ys
  length-append [] ys = omega arith
  length-append (x ∷ xs) ys = omega (arith, length-append xs ys)

  abbrev pub All {κ} : (A → Type κ) → List A → Type κ
  All P [] = Unit
  All P (x ∷ xs) = P x × All P xs

  pub All-map {κ κ'} :
      {P : A → Type κ} {Q : A → Type κ'} (xs : List A) → ((a : A) → P a → Q a) → All P xs → All Q xs
  All-map [] f h = tt
  All-map (x ∷ xs) f h = (f x h.0, All-map xs f h.1)

  pub All-append {κ} : (P : A → Type κ) (xs ys : List A) → All P xs → All P ys → All P (xs ++ ys)
  All-append P [] ys h k = k
  All-append P (x ∷ xs) ys h k = (h.0, All-append P xs ys h.1 k)

  -- what an index inside the list finds is a member
  pub get_elem?-All {κ} :
      {P : A → Type κ} (xs : List A) (i : ℕ)
      → All P xs
      → i < length xs
      → (a : A) × (get_elem? xs i ≡ some a) × P a
  get_elem?-All [] i h lt = elim lt [ ]
  get_elem?-All (x ∷ xs) zero h lt = (x, refl, h.0)
  get_elem?-All (x ∷ xs) (suc i) h lt = get_elem?-All xs i h.1 (omega arith)

module _ {ℓ κ} {A : Type ℓ} {B : Type κ} where
  pub length-map : (f : A → B) (xs : List A) → length (map f xs) ≡ length xs
  length-map f [] = refl
  length-map f (x ∷ xs) = ap suc (length-map f xs)

-- a test of every member, and what it shows
module _ {ℓ} {A : Type ℓ} (test : A → Bool) where
  unfoldable pub every : List A → Bool
  every [] = true
  every (x ∷ xs) = test x && every xs

  pub every-All : (xs : List A) → every xs ≡ true → All (λ x. test x ≡ true) xs
  unfolding every
  every-All [] h = tt
  every-All (x ∷ xs) h = (ground arith, every-All xs (ground arith))

-- how many members pass a test, and the sum of a number for each
module _ {ℓ} {A : Type ℓ} where
  abbrev pub count_if : (A → Bool) → List A → ℕ
  count_if p [] = 0
  count_if p (x ∷ xs) = (if p x then 1 else 0) + count_if p xs

  abbrev pub total : (A → ℕ) → List A → ℕ
  total f [] = 0
  total f (x ∷ xs) = f x + total f xs

  pub count_if-append :
      (p : A → Bool) (xs ys : List A) → count_if p (xs ++ ys) ≡ count_if p xs + count_if p ys
  count_if-append p [] ys = omega arith
  count_if-append p (x ∷ xs) ys = omega (arith, count_if-append p xs ys)

  pub total-append : (f : A → ℕ) (xs ys : List A) → total f (xs ++ ys) ≡ total f xs + total f ys
  total-append f [] ys = omega arith
  total-append f (x ∷ xs) ys = omega (arith, total-append f xs ys)

  -- one member changes
  pub total-moved :
      (f : A → ℕ) (xs ys zs : List A) (v w : A)
      → zs ≡ xs ++ v ∷ ys
      → total f (xs ++ w ∷ ys) + f v ≡ total f zs + f w
  total-moved f xs ys zs v w e =
      omega (arith, ap (total f) e, total-append f xs (v ∷ ys), total-append f xs (w ∷ ys))

  -- one member goes
  pub total-removed :
      (f : A → ℕ) (xs ys zs : List A) (v : A)
      → zs ≡ xs ++ v ∷ ys
      → total f (xs ++ ys) + f v ≡ total f zs
  total-removed f xs ys zs v e =
      omega (arith, ap (total f) e, total-append f xs (v ∷ ys), total-append f xs ys)

-- every member has a property, or one does not, and the list is split there
module _ {ℓ κ} {A : Type ℓ} (P : A → Type κ) (decide : (a : A) → P a ⊎ (P a → ⊥)) where
  pub All-or_other :
      (zs : List A)
      → All P zs ⊎ ((xs : List A) × (a : A) × (ys : List A) × (zs ≡ xs ++ a ∷ ys) × (P a → ⊥))
  All-or_other [] = inl tt
  All-or_other (z ∷ zs) = elim (decide z) [
    | inr n ↦ inr ([], z, zs, refl, n)
    | inl p ↦ elim (All-or_other zs) [
      | inl h ↦ inl (p, h)
      | inr (xs, a, ys, e, n) ↦ inr (z ∷ xs, a, ys, ap (λ l. z ∷ l) e, n)
    ]
  ]

pub count_if-length {ℓ} : {A : Type ℓ} (xs : List A) → count_if (λ x. true) xs ≡ length xs
count_if-length [] = refl
count_if-length (x ∷ xs) = omega (arith, count_if-length xs)

-- a test that holds as often as there are members
module _ {ℓ} {A : Type ℓ} (p : A → Bool) where
  count_le : (xs : List A) → count_if p xs ≤ count_if (λ x. true) xs
  count_le [] = omega arith
  count_le (x ∷ xs) = ground (arith, count_le xs)

  pub All_of_count :
      (xs : List A) → count_if p xs ≡ count_if (λ x. true) xs → All (λ x. p x ≡ true) xs
  All_of_count [] h = tt
  All_of_count (x ∷ xs) h =
      (ground (arith, h, count_le xs), All_of_count xs (ground (arith, h, count_le xs)))

  pub count_of_All :
      (xs : List A) → All (λ x. p x ≡ true) xs → count_if p xs ≡ count_if (λ x. true) xs
  count_of_All [] h = refl
  count_of_All (x ∷ xs) h = ground (arith, h.0, count_of_All xs h.1)
