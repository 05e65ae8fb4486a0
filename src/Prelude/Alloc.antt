-- ===== src/Prelude/Alloc.antt =====
-- `make` of a slice on a 64-bit machine: a negative length panics, and so does one whose elements
-- need more than the 2^48 bytes that Go's runtime can address. That the machine has the memory is
-- assumed.
use Prim.Native.Nat.{ℕ, ◌*◌, ◌≤◌}
use mathlib.Core.Path.{◌≡◌, refl}
use mathlib.Core.Bool.{true}
use mathlib.Core.Logic.{inl, inr}
use native.Mathlib.Omega.{arith}
use etcd_cloud_benchmarking.Prelude.Tests.{leb, if◌then◌else◌, Bool-cases}
use etcd_cloud_benchmarking.Prelude.Run.{Run, ret, panics}
use etcd_cloud_benchmarking.Prelude.Int.{ℤ, pos, negsuc}

abbrev pub max_alloc : ℕ
max_alloc = 281_474_976_710_656

-- `make([]T, n)` for elements of this size; the length
unfoldable pub make_slice : ℕ → ℤ → Run ℕ
make_slice size (pos n) = if leb (size * n) max_alloc then ret n else panics
make_slice size (negsuc n) = panics

pub make_slice-pos : (size : ℕ) (z : ℤ) (n : ℕ) → make_slice size z ≡ ret n → z ≡ pos n
unfolding make_slice
make_slice-pos size (negsuc m) n h = cc (h)
make_slice-pos size (pos m) n h = elim (Bool-cases (leb (size * m) max_alloc)) [
  | inl e ↦ let h' = rw e at h in cc h'
  | inr e ↦ let h' = rw e at h in cc h'
]

pub make_slice_room : (size n : ℕ) → size * n ≤ max_alloc → make_slice size (pos n) ≡ ret n
unfolding make_slice
make_slice_room size n h = let e : leb (size * n) max_alloc ≡ true = ground arith in rw (e) refl
