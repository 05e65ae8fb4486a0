-- ===== src/Client/Server/Process/Graceful.antt =====
-- GracefulStop at the end of `main`: the handlers that still run come to their end.
use native.Mathlib.Decide.{ℕ_discrete}
use etcd_cloud_benchmarking.Prelude.{
  ℕ, zero, suc, ◌+◌, ◌*◌, ◌≤◌, ◌<◌, ◌≡◌, ◌⊎◌, inl, inr, refl, ap, ◌∙◌, Bool, Bool-cases, true,
  false, Option, none, String, leb, leb→le, arith,
}
use etcd_cloud_benchmarking.Prelude.Text.{Text}
use etcd_cloud_benchmarking.Control.Config.{BenchctlConfig}
use etcd_cloud_benchmarking.Client.Server.{eof}
use etcd_cloud_benchmarking.Client.Server.Process.{
  Stream, unopened, selecting, receiving, ended, leaving, draining, Process, is_live, Move,
  open_new, take_term, take_default, recv_returns, leave, poll, benchmark_fails, interrupt, drain,
  drained, Reach,
}
use etcd_cloud_benchmarking.Client.Server.Process.Invariant.{draining-closed}
use etcd_cloud_benchmarking.Client.Server.Process.Laws.{Reach-Inv}
use etcd_cloud_benchmarking.Client.Server.Process.Effort.{live_below, main_left, Quiet, effort-live}
use etcd_cloud_benchmarking.Client.Server.Process.Opened.{Reach-Quiet}
use etcd_cloud_benchmarking.Client.Server.Process.Draining.{Runs, IsOver, Draining, Runs-Draining}

module _ (unmarshal : Text → Option BenchctlConfig → Option BenchctlConfig × Option String) where
  -- a handler that runs, or none below a number
  find_live :
      (n : ℕ) (f : ℕ → Stream)
      → ((i : ℕ) × (is_live (f i) ≡ true)) ⊎ ((j : ℕ) → j < n → is_live (f j) ≡ false)
  find_live zero f = inr (λ j h. absurd (omega (arith, h)))
  find_live (suc n) f = elim (Bool-cases (is_live (f n))) [
    | inl l ↦ inl (n, l)
    | inr l ↦ elim (find_live n f) [
      | inl there ↦ inl there
      | inr quiet ↦ inr (λ j h. elim (ℕ_discrete j n) [
        | yes same ↦ ap (λ i. is_live (f i)) same ∙ l
        | no differ ↦ quiet j (ground (arith, h, differ))
      ])
    ]
  ]

  -- the moves by which a process in GracefulStop goes on: of a handler, and its own return
  abbrev pub goes_on : {x : Bool} {p q : Process} → Move unmarshal x p q → Bool
  goes_on (open_new i e s alone) = false
  goes_on (take_term i u s t) = true
  goes_on (take_default i u s t) = true
  goes_on (recv_returns i r sent u s) = true
  goes_on (leave i e u s) = true
  goes_on (poll u n) = false
  goes_on (benchmark_fails c u s) = false
  goes_on (interrupt e) = false
  goes_on (drain e t) = false
  goes_on (drained e n) = true

  abbrev pub CanGoOn : Bool → Process → Type 0
  CanGoOn x p = (q : Process) × (m : Move unmarshal x p q) × (goes_on m ≡ true)

  handler_moves :
      {x : Bool} {n : ℕ} {p : Process} (i : ℕ) (s : Stream)
      → Draining unmarshal n p
      → p.main ≡ draining
      → p.streams i ≡ s
      → is_live s ≡ true
      → CanGoOn x p
  unfolding is_live
  handler_moves i unopened d e s l = cc (l)
  handler_moves i selecting d e s l = (_, take_term i (inr e) s d.closed, refl)
  handler_moves i receiving d e s l = (_, recv_returns i eof none (inr e) s, refl)
  handler_moves i ended d e s l = cc (l)
  handler_moves i (leaving w) d e s l = (_, leave i w (inr e) s, refl)

  Draining-moves :
      {x : Bool} {n : ℕ} {p : Process} → Draining unmarshal n p → p.main ≡ draining → CanGoOn x p
  Draining-moves {n = n} {p = p} d e = elim (find_live n p.streams) [
    | inl (i, l) ↦ handler_moves i (p.streams i) d e refl l
    | inr quiet ↦ (
      _,
      drained e (λ j. elim (Bool-cases (leb n j)) [
        | inl b ↦ d.quiet j (leb→le n j b)
        | inr b ↦ quiet j (ground arith)
      ]),
      refl,
    )
  ]

-- When `main` is in GracefulStop, no handler runs from some stream on. In whatever order the
-- goroutines go on and whatever arrives, at most three moves for each handler that still ran, and
-- one, are left to them, beside the looks of waitUntilReady; and until `main` returned, or the
-- benchmark or a panic ended the process, a handler can go on, one in Recv when something arrives,
-- or GracefulStop returns.
pub graceful_stop-ends :
    (unmarshal : Text → Option BenchctlConfig → Option BenchctlConfig × Option String) {x : Bool}
    {p q : Process} {k : ℕ}
    → Reach unmarshal x p
    → p.main ≡ draining
    → Runs unmarshal x p k q
    → ((n : ℕ) × Quiet n p.streams × (k ≤ 3 * live_below n p.streams + 1))
      × (CanGoOn unmarshal x q ⊎ IsOver unmarshal q.main)
graceful_stop-ends unmarshal {p = p} r e runs =
    let (n, quiet) = Reach-Quiet unmarshal r in
    let d : Draining unmarshal n p = record {
      waits = inl e;
      closed = draining-closed p (Reach-Inv unmarshal r).1 e;
      quiet = quiet;
    } in
    let (d', least) = Runs-Draining unmarshal runs d in
    (
      (n, quiet, omega (arith, least, effort-live n p.streams, ap main_left e)),
      elim d'.waits [ inl w ↦ inl (Draining-moves unmarshal d' w) | inr o ↦ inr o ],
    )
