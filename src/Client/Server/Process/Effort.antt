-- ===== src/Client/Server/Process/Effort.antt =====
-- The steps that the handlers of streams have still to make once the termination channel is closed.
use native.Mathlib.Decide.{ℕ_discrete}
use etcd_cloud_benchmarking.Prelude.{
  ℕ, zero, suc, ◌+◌, ◌*◌, ◌≤◌, ◌<◌, ◌≡◌, inl, inr, refl, sym, ap, ◌∙◌, false, one_if, arith,
}
use etcd_cloud_benchmarking.Client.Server.Process.{
  Stream, unopened, selecting, receiving, ended, leaving, Main, serving, draining, exited, killed,
  failed, crashed, Process, is_live, moved,
}
use etcd_cloud_benchmarking.Client.Server.Process.Invariant.{moved_cases, moved-here}

-- a sum over the numbers below one
abbrev pub sum_below : (ℕ → ℕ) → ℕ → ℕ
sum_below f zero = 0
sum_below f (suc n) = f n + sum_below f n

-- how many handlers run among these streams
abbrev pub live_below : ℕ → (ℕ → Stream) → ℕ
live_below n f = sum_below (λ i. one_if (is_live (f i))) n

-- the steps that a handler has still to make once the channel is closed
abbrev pub steps_left : Stream → ℕ
steps_left unopened = 0
steps_left ended = 0
steps_left (leaving e) = 1
steps_left selecting = 2
steps_left receiving = 3

abbrev pub main_left : Main → ℕ
main_left serving = 1
main_left draining = 1
main_left exited = 0
main_left killed = 0
main_left failed = 0
main_left crashed = 0

abbrev pub effort : ℕ → Process → ℕ
effort n p = main_left p.main + sum_below (λ i. steps_left (p.streams i)) n

-- no handler runs from this stream on
abbrev pub Quiet : ℕ → (ℕ → Stream) → Type 0
Quiet n f = (j : ℕ) → n ≤ j → is_live (f j) ≡ false

steps_left-live : (s : Stream) → steps_left s ≤ 3 * one_if (is_live s)
unfolding is_live
steps_left-live unopened = omega arith
steps_left-live ended = omega arith
steps_left-live (leaving e) = omega arith
steps_left-live selecting = omega arith
steps_left-live receiving = omega arith

pub effort-live :
    (n : ℕ) (f : ℕ → Stream) → sum_below (λ i. steps_left (f i)) n ≤ 3 * live_below n f
effort-live zero f = omega arith
effort-live (suc n) f = omega (arith, steps_left-live (f n), effort-live n f)

-- a move of a stream beyond the sum does not change it
sum_beyond :
    (n i : ℕ) (s : Stream) (f : ℕ → Stream)
    → n ≤ i
    → sum_below (λ j. steps_left (moved i s f j)) n ≡ sum_below (λ j. steps_left (f j)) n
sum_beyond zero i s f h = refl
sum_beyond (suc n) i s f h = elim (moved_cases i s f n) [
  | inl (same, m) ↦ absurd (omega (arith, same, h))
  | inr m ↦ omega (arith, ap steps_left m, sum_beyond n i s f (omega (arith, h)))
]

pub sum-moved :
    (n i : ℕ) (s : Stream) (f : ℕ → Stream)
    → i < n
    → sum_below (λ j. steps_left (moved i s f j)) n + steps_left (f i)
      ≡ sum_below (λ j. steps_left (f j)) n + steps_left s
sum-moved zero i s f h = absurd (omega (arith, h))
sum-moved (suc n) i s f h = elim (ℕ_discrete i n) [
  | yes same ↦ omega (
    arith,
    ap (λ k. steps_left (moved i s f k)) (sym same) ∙ ap steps_left (moved-here i s f),
    sum_beyond n i s f (omega (arith, same)),
    ap (λ k. steps_left (f k)) same,
  )
  | no differ ↦ elim (moved_cases i s f n) [
    | inl (e, m) ↦ absurd (differ e)
    | inr m ↦ omega (arith, ap steps_left m, sum-moved n i s f (ground (arith, h, differ)))
  ]
]
