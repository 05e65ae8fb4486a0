-- ===== src/Client/Schedule/Arith.antt =====
-- The 64-bit arithmetic of a round, where nothing overflows.
use etcd_cloud_benchmarking.Prelude.{
  ℕ, ◌+◌, ◌-◌, ◌^◌, ◌≤◌, ◌<◌, ◌≡◌, refl, ap, true, false, ltb, if◌then◌else◌, arith, Bool-cases,
  inl, inr,
}
use etcd_cloud_benchmarking.Prelude.Int.{pos, ◌+ℤ◌, ◌-ℤ◌, wrap64}
use etcd_cloud_benchmarking.Control.Config.{BenchctlConfig}
use etcd_cloud_benchmarking.Client.Schedule.{increase}

pub plus : (a b : ℕ) → a < 2 ^ 62 → b < 2 ^ 62 → wrap64 (pos a +ℤ pos b) ≡ pos (a + b)
unfolding wrap64 ◌+ℤ◌
plus a b h k = ground arith

pub minus : (a b : ℕ) → b ≤ a → a < 2 ^ 63 → wrap64 (pos a -ℤ pos b) ≡ pos (a - b)
unfolding wrap64 ◌-ℤ◌
minus a b h k = ground arith

pub sub_fits : (a b : ℕ) → a < 2 ^ 62 → b < 2 ^ 62 → wrap64 (pos a -ℤ pos b) ≡ pos a -ℤ pos b
unfolding wrap64 ◌-ℤ◌
sub_fits a b h k = ground arith

pub increase_lem :
    (c : BenchctlConfig) (more most cur : ℕ)
    → c.client_step_size ≡ pos more
    → c.max_clients ≡ pos most
    → more < 2 ^ 62
    → most < 2 ^ 62
    → cur < most
    → wrap64 (pos cur +ℤ increase c (pos cur))
      ≡ pos (if ltb most (cur + more) then most else cur + more)
unfolding increase
increase_lem c more most cur em ex bm bx h = elim (Bool-cases (ltb most (cur + more))) [
  | inl over ↦
      let p : ltb (most + 0) (cur + more + 0) ≡ true = ground arith in
      rw
        (
          em,
          ex,
          increase,
          plus cur more (omega arith) bm,
          p,
          minus most cur (omega arith) (omega arith),
        )
        (rw (plus cur (most - cur) (omega arith) (omega arith), over) (ap pos (omega arith)))
  | inr fits ↦
      let p : ltb (most + 0) (cur + more + 0) ≡ false = ground arith in
      rw (em, ex, increase, plus cur more (omega arith) bm, p)
        (rw (plus cur more (omega arith) bm, fits) refl)
]
