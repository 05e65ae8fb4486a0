-- ===== src/Generator/Random.antt =====
-- `math/rand.Rand` as data-generator/generator.go uses it: a state, `Intn` and `Read`, with the
-- behaviour that the package documents. `Read` of a `Rand` fills the slice and returns no error.
use etcd_cloud_benchmarking.Prelude.{ℕ, ◌<◌, ◌≡◌, Option, some, length}
use etcd_cloud_benchmarking.Prelude.Text.{Text}

pub record Source : Type 1 where
  pub State : Type 0
  pub seeded : ℕ → State
  pub intn : ℕ → State → ℕ × State
  pub read : ℕ → State → Option Text × State
  pub intn-lt : (n : ℕ) (s : State) → 0 < n → (intn n s).0 < n
  pub read-length : (n : ℕ) (s : State) → (b : Text) × ((read n s).0 ≡ some b) × (length b ≡ n)
