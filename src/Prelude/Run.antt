-- ===== src/Prelude/Run.antt =====
-- How a Go computation ends: it returns, it returns an error, it panics, or the fuel that bounds a
-- loop of the model is used up.
use mathlib.Core.Path.{◌≡◌, refl}
use Prim.Native.String.{String}
use mathlib.Core.Option.{Option, none, some}

pub data Run {ℓ} (A : Type ℓ) : Type ℓ where
  panics timeout : Run A
  fails : String → Run A
  ret : A → Run A

module _ {ℓ κ} {A : Type ℓ} {B : Type κ} where
  infixl 5 ◌>>=◌
  -- what follows runs only after a return
  abbrev pub ◌>>=◌ : Run A → (A → Run B) → Run B
  panics >>= next = panics
  timeout >>= next = timeout
  fails why >>= next = fails why
  ret a >>= next = next a

-- `xs[i]`: an index out of range panics
abbrev pub or_panic {ℓ} : {A : Type ℓ} → Option A → Run A
or_panic none = panics
or_panic (some a) = ret a

-- Inversion of a bind that returned.
pub >>=-eq-ret {ℓ κ} :
    {A : Type ℓ} {B : Type κ} (m : Run A) (f : A → Run B) {b : B}
    → (m >>= f) ≡ ret b
    → (a : A) × (m ≡ ret a) × (f a ≡ ret b)
>>=-eq-ret (ret a) f h = (a, refl, h)
>>=-eq-ret (fails e) f h = cc
>>=-eq-ret panics f h = cc
>>=-eq-ret timeout f h = cc

-- neither an error nor a panic
abbrev pub Runs {ℓ} : {A : Type ℓ} → Run A → Type 0
Runs (ret a) = Unit
Runs (fails e) = ⊥
Runs panics = ⊥
Runs timeout = Unit

pub >>=-Runs {ℓ κ} :
    {A : Type ℓ} {B : Type κ} (m : Run A) (f : A → Run B)
    → Runs m
    → ((a : A) → m ≡ ret a → Runs (f a))
    → Runs (m >>= f)
>>=-Runs (ret a) f h k = k a refl
>>=-Runs (fails e) f h k = h
>>=-Runs panics f h k = h
>>=-Runs timeout f h k = tt
