-- ===== src/Client/Server/Process/Laws.antt =====
-- What holds of the process of the benchmark client, in whatever order its goroutines take steps.
use etcd_cloud_benchmarking.Prelude.{
  one_if, ℕ, ◌≤◌, ◌≡◌, ◌≢◌, ◌↔◌, inl, inr, refl, ap, ◌∙◌, subst, Bool, Bool-cases, true, false,
  Option, none, some, String, arith,
}
use etcd_cloud_benchmarking.Prelude.Text.{Text}
use etcd_cloud_benchmarking.Control.Config.{BenchctlConfig}
use etcd_cloud_benchmarking.Client.Server.{
  Server, is_ready, open_stream, end_stream, send_ctrl_message,
}
use etcd_cloud_benchmarking.Client.Server.Process.{
  selecting, receiving, leaving, Main, serving, draining, exited, killed, failed, crashed, Process,
  is_live, wait_until_ready, moved, Move, open_new, take_term, take_default, recv_returns, leave,
  poll, benchmark_fails, interrupt, drain, drained, Reach, begun, later,
}
use etcd_cloud_benchmarking.Client.Server.Process.Invariant.{
  Inv, InMain, moved-here, up-Counted, draining-closed, kept, still-Inv, recv-Inv,
}

module _ (unmarshal : Text → Option BenchctlConfig → Option BenchctlConfig × Option String) where
  Move-Inv : {x : Bool} {p q : Process} → Move unmarshal x p q → Inv p → Inv q
  unfolding open_stream end_stream is_live wait_until_ready
  Move-Inv {p = p} (open_new i e s alone) (f, h) = (
    record {
      current = λ j c.
          let same : i ≡ j = cc c in
          subst (λ k. is_live (moved i selecting p.streams k) ≡ true) same
            (ap is_live (moved-here i selecting p.streams));
      stored = f.stored;
      used = f.used;
    },
    kept p _ (inl e) refl refl h,
  )
  Move-Inv {p = p} (take_term i u s t) h = still-Inv p i u h (leaving none) refl
  Move-Inv {p = p} (take_default i u s t) h = still-Inv p i u h receiving refl
  Move-Inv {p = p} (recv_returns i r sent u s) h = recv-Inv p i u h unmarshal r sent
  Move-Inv {p = p} (leave i e u s) (f, h) =
      (record { current = λ j c. cc; stored = f.stored; used = f.used }, kept p _ u refl refl h)
  Move-Inv {p = p} (poll u n) (f, h) = elim (Bool-cases (is_ready p.server)) [
    | inl e ↦
        rw e (
          record { current = f.current; stored = f.stored; used = f.stored },
          kept p _ u refl refl h,
        )
    | inr e ↦ rw e (f, h)
  ]
  Move-Inv {p = p} (benchmark_fails c u s) (f, h) =
      (record { current = f.current; stored = f.stored; used = f.used }, up-Counted p u h)
  Move-Inv {p = p} (interrupt e) (f, h) =
      (record { current = f.current; stored = f.stored; used = f.used }, up-Counted p (inl e) h)
  Move-Inv {p = p} (drain e t) (f, h) = (
    record { current = f.current; stored = f.stored; used = f.used },
    (up-Counted p (inl e) h, t),
  )
  Move-Inv {p = p} (drained e n) (f, h) = (
    record { current = f.current; stored = f.stored; used = f.used },
    (up-Counted p (inr e) h, draining-closed p h e, n),
  )

  pub Reach-Inv : {x : Bool} {p : Process} → Reach unmarshal x p → Inv p
  Reach-Inv begun = (record { current = λ i c. cc; stored = λ c e. cc; used = λ c e. cc }, refl)
  Reach-Inv (later r mv) = Move-Inv mv (Reach-Inv r)

-- What the state of the process says of its streams, its benchmark and its end.
pub record Holds (p : Process) : Type 0 where
  pub sends_to_live :
      (send : ℕ → Option String) (i : ℕ) (e : Option String)
      → send_ctrl_message send p.server ≡ (some i, e)
      → is_live (p.streams i) ≡ true
  pub started_configured : (c : BenchctlConfig) → p.started ≡ some c → 1 ≤ p.files
  pub crashed_iff : (p.main ≡ crashed) ↔ (2 ≤ p.closers)
  pub exited_quiet : p.main ≡ exited → (p.closers ≡ 1) × ((i : ℕ) → is_live (p.streams i) ≡ false)

goes_on : (m : Main) (p : Process) → InMain m p → m ≢ crashed → p.closers ≤ 1
goes_on serving p h n = ground (arith, h)
goes_on draining p h n = ground (arith, h.0)
goes_on exited p h n = ground (arith, h.0)
goes_on killed p h n = ground (arith, h)
goes_on failed p h n = ground (arith, h)
goes_on crashed p h n = absurd (n refl)

main_crashed_iff : (m : Main) (p : Process) → InMain m p → (m ≡ crashed) ↔ (2 ≤ p.closers)
main_crashed_iff serving p h =
    (λ e. cc, λ k. absurd (omega (arith, k, goes_on serving p h (λ e. cc))))
main_crashed_iff draining p h =
    (λ e. cc, λ k. absurd (omega (arith, k, goes_on draining p h (λ e. cc))))
main_crashed_iff exited p h =
    (λ e. cc, λ k. absurd (omega (arith, k, goes_on exited p h (λ e. cc))))
main_crashed_iff killed p h =
    (λ e. cc, λ k. absurd (omega (arith, k, goes_on killed p h (λ e. cc))))
main_crashed_iff failed p h =
    (λ e. cc, λ k. absurd (omega (arith, k, goes_on failed p h (λ e. cc))))
main_crashed_iff crashed p h = (λ e. h, λ k. refl)

current_of :
    (send : ℕ → Option String) (s : Server) (i : ℕ) (e : Option String)
    → send_ctrl_message send s ≡ (some i, e)
    → s.curr_stream ≡ some i
unfolding send_ctrl_message
current_of send s i e h = ground arith

-- In every state that the process of the benchmark client can reach, with any number of streams and
-- whatever arrives on them: a message of the benchmark is sent only on a stream whose handler has
-- not returned; the benchmark has started only after a configuration file was received; a stream
-- has panicked exactly when Shutdown was received a second time; and when `main` returned after
-- GracefulStop, Shutdown was received once and every handler has returned.
pub process-Holds :
    (unmarshal : Text → Option BenchctlConfig → Option BenchctlConfig × Option String)
    {exclusive : Bool} {p : Process}
    → Reach unmarshal exclusive p
    → Holds p
process-Holds unmarshal {p = p} r =
    let (f, h) = Reach-Inv unmarshal r in
    record {
      sends_to_live = λ send i e s. f.current i (current_of send p.server i e s);
      started_configured = f.used;
      crashed_iff = main_crashed_iff p.main p h;
      exited_quiet = λ e. let (c, t, n) = subst (λ m. InMain m p) e h in (c ∙ ap one_if t, n);
    }
