-- ===== src/Client/Server/Process/Draining.antt =====
-- GracefulStop at the end of `main`: what is left to do gets less with every move.
use etcd_cloud_benchmarking.Prelude.{
  ℕ, ◌+◌, ◌≤◌, ◌<◌, ◌≡◌, ◌≢◌, ◌⊎◌, inl, inr, refl, sym, ap, ◌∙◌, subst, Bool, Bool-cases, true,
  Option, none, String, leb, leb→le, arith,
}
use etcd_cloud_benchmarking.Prelude.Text.{Text}
use etcd_cloud_benchmarking.Control.Config.{BenchctlConfig}
use etcd_cloud_benchmarking.Client.Server.{end_stream, is_ready}
use etcd_cloud_benchmarking.Client.Server.Process.{
  Stream, ended, leaving, Main, serving, draining, exited, failed, crashed, Process, is_live,
  wait_until_ready, IsUp, moved, Move, open_new, take_term, take_default, recv_returns, leave, poll,
  benchmark_fails, interrupt, drain, drained,
}
use etcd_cloud_benchmarking.Client.Server.Process.Effort.{
  sum_below, steps_left, main_left, effort, Quiet, sum-moved,
}
use etcd_cloud_benchmarking.Client.Server.Process.Opened.{received-After, moved_beyond}

module _ (unmarshal : Text → Option BenchctlConfig → Option BenchctlConfig × Option String) where
  -- the moves that are not a look of `waitUntilReady`
  abbrev pub cost : {x : Bool} {p q : Process} → Move unmarshal x p q → ℕ
  cost (open_new i e s alone) = 1
  cost (take_term i u s t) = 1
  cost (take_default i u s t) = 1
  cost (recv_returns i r sent u s) = 1
  cost (leave i e u s) = 1
  cost (poll u n) = 0
  cost (benchmark_fails c u s) = 1
  cost (interrupt e) = 1
  cost (drain e t) = 1
  cost (drained e n) = 1

  -- the runs of the process, with how many of their moves are not such looks
  pub data Runs (x : Bool) (p : Process) : ℕ → Process → Type 0 where
    here : Runs x p 0 p
    then_moves :
        {k : ℕ} {q r : Process}
        → Runs x p k q
        → (m : Move unmarshal x q r) → Runs x p (k + cost m) r

  -- `main` returned, or the process was ended by the benchmark or a panic
  abbrev pub IsOver : Main → Type 0
  IsOver m = (m ≡ exited) ⊎ ((m ≡ failed) ⊎ (m ≡ crashed))

  pub record Draining (n : ℕ) (p : Process) : Type 0 where
    pub waits : (p.main ≡ draining) ⊎ IsOver p.main
    pub closed : p.server.term_closed ≡ true
    pub quiet : Quiet n p.streams

  -- a handler that runs is below the bound
  live_bounded : (n : ℕ) (f : ℕ → Stream) (i : ℕ) → Quiet n f → is_live (f i) ≡ true → i < n
  live_bounded n f i quiet l = elim (Bool-cases (leb n i)) [
    | inl b ↦ cc (quiet i (leb→le n i b), l)
    | inr b ↦ ground arith
  ]

  stream-Draining :
      {n : ℕ} (p : Process) (q : Process) (i : ℕ) (s : Stream)
      → Draining n p
      → is_live (p.streams i) ≡ true
      → steps_left s < steps_left (p.streams i)
      → q.main ≡ p.main
      → q.server.term_closed ≡ p.server.term_closed
      → q.streams ≡ moved i s p.streams
      → Draining n q × (effort n q + 1 ≤ effort n p)
  stream-Draining {n} p q i s d l less m t e =
      let below = live_bounded n p.streams i d.quiet l in
      (
        record {
          waits = subst (λ k. (k ≡ draining) ⊎ IsOver k) (sym m) d.waits;
          closed = t ∙ d.closed;
          quiet = λ j h.
              ap (λ f. is_live (f j)) e
              ∙ ap is_live (moved_beyond unmarshal i s p.streams j (omega (arith, below, h)))
              ∙ d.quiet j h;
        },
        omega (
          arith,
          ap main_left m,
          ap (λ f. sum_below (λ j. steps_left (f j)) n) e,
          sum-moved n i s p.streams below,
          less,
        ),
      )

  not_up : {n : ℕ} {p : Process} → Draining n p → p.main ≢ serving
  not_up d e = elim (d.waits) [
    | inl w ↦ cc (w, e)
    | inr o ↦ elim o [
      | inl w ↦ cc (w, e)
      | inr o' ↦ elim o' [ inl w ↦ cc (w, e) | inr w ↦ cc (w, e) ]
    ]
  ]

  up_draining : {n : ℕ} {p : Process} → Draining n p → IsUp p.main → p.main ≡ draining
  up_draining d (inl e) = absurd (not_up d e)
  up_draining d (inr e) = e

  -- a move in the middle of GracefulStop, or after it
  Move-Draining :
      {x : Bool} {n : ℕ} {p q : Process}
      → (m : Move unmarshal x p q) → Draining n p
      → Draining n q × (effort n q + cost m ≤ effort n p)
  unfolding is_live end_stream wait_until_ready
  Move-Draining (open_new i e s alone) d = absurd (not_up d e)
  Move-Draining {p = p} (take_term i u s t) d =
      stream-Draining p _ i (leaving none) d (ap is_live s) (omega (arith, ap steps_left s)) refl
        refl refl
  Move-Draining (take_default i u s t) d = cc (t, d.closed)
  Move-Draining {n = n} {p = p} {q = q} (recv_returns i r sent u s) d =
      elim ((received-After unmarshal p i r sent).0) [
        | inl (m, e) ↦ (
          record {
            waits = inr (inr (inr m));
            closed = (received-After unmarshal p i r sent).1 d.closed;
            quiet = λ j h. ap (λ f. is_live (f j)) e ∙ d.quiet j h;
          },
          omega (
            arith,
            ap main_left m,
            ap main_left (up_draining d u),
            ap (λ f. sum_below (λ j. steps_left (f j)) n) e,
          ),
        )
        | inr (m, v, w, e) ↦
            stream-Draining p _ i v d (ap is_live s) (omega (arith, w, ap steps_left s)) m
              ((received-After unmarshal p i r sent).1 d.closed ∙ sym d.closed) e
      ]
  Move-Draining {p = p} (leave i e u s) d =
      stream-Draining p _ i ended d (ap is_live s) (omega (arith, ap steps_left s)) refl refl refl
  Move-Draining {n = n} {p = p} (poll u v) d = elim (Bool-cases (is_ready p.server)) [
    | inl e ↦ rw e (record { waits = d.waits; closed = d.closed; quiet = d.quiet }, omega arith)
    | inr e ↦ rw e (d, omega arith)
  ]
  Move-Draining (benchmark_fails c u s) d = (
    record { waits = inr (inr (inl refl)); closed = d.closed; quiet = d.quiet },
    omega (arith, ap main_left (up_draining d u)),
  )
  Move-Draining (interrupt e) d = absurd (not_up d e)
  Move-Draining (drain e t) d = absurd (not_up d e)
  Move-Draining (drained e v) d = (
    record { waits = inr (inl refl); closed = d.closed; quiet = d.quiet },
    omega (arith, ap main_left e),
  )

  pub Runs-Draining :
      {x : Bool} {n : ℕ} {p : Process} {k : ℕ} {q : Process}
      → Runs x p k q
      → Draining n p
      → Draining n q × (effort n q + k ≤ effort n p)
  Runs-Draining here d = (d, omega arith)
  Runs-Draining (then_moves r m) d =
      let (d', before) = Runs-Draining r d in
      let (d'', step) = Move-Draining m d' in (d'', omega (arith, before, step))
