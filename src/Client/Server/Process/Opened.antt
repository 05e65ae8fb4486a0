-- ===== src/Client/Server/Process/Opened.antt =====
-- Which streams a move of the process changes: finitely many were opened.
use etcd_cloud_benchmarking.Prelude.{
  ℕ, ◌+◌, ◌≤◌, ◌<◌, ◌≡◌, ◌⊎◌, inl, inr, refl, ap, ◌∙◌, Bool, Bool-cases, true, Option, none, some,
  String, arith,
}
use etcd_cloud_benchmarking.Prelude.Run.{ret}
use etcd_cloud_benchmarking.Prelude.Text.{Text}
use etcd_cloud_benchmarking.Control.Config.{BenchctlConfig}
use etcd_cloud_benchmarking.Client.Server.{
  Received, eof, shutdown, other, recv_error, config_file, close_term, configured, receive,
  is_ready,
}
use etcd_cloud_benchmarking.Client.Server.Process.{
  Stream, selecting, receiving, ended, leaving, crashed, Process, is_live, wait_until_ready, moved,
  counted, settled, Move, open_new, take_term, take_default, recv_returns, leave, poll,
  benchmark_fails, interrupt, drain, drained, Reach, begun, later,
}
use etcd_cloud_benchmarking.Client.Server.Process.Invariant.{moved_cases}
use etcd_cloud_benchmarking.Client.Server.Process.Effort.{steps_left, Quiet}

-- what a Recv does to the streams: its handler goes on or returns, unless it panics
abbrev pub After : Process → ℕ → Process → Type 0
After p i q =
    (((q.main ≡ crashed) × (q.streams ≡ p.streams))
      ⊎ ((q.main ≡ p.main) × (s : Stream) × (steps_left s ≤ 2) × (q.streams ≡ moved i s p.streams)))
    × (p.server.term_closed ≡ true → q.server.term_closed ≡ true)

module _ (unmarshal : Text → Option BenchctlConfig → Option BenchctlConfig × Option String) where
  closed-After :
      (p : Process) (i : ℕ) → After p i (settled i (close_term p.server) (counted shutdown p))
  unfolding close_term
  closed-After p i = elim (Bool-cases p.server.term_closed) [
    | inl e ↦ rw e (inl (refl, refl), λ t. refl)
    | inr e ↦ rw e (inr (refl, selecting, omega arith, refl), λ t. refl)
  ]

  configured-After :
      (p : Process) (i : ℕ) (sent : Option String) (b : Text)
      (x : Option BenchctlConfig × Option String)
      → After p i
          (settled i (ret (configured unmarshal sent x p.server)) (counted (config_file b) p))
  unfolding configured
  configured-After p i sent b (c, some e) =
      (inr (refl, leaving (some e), omega arith, refl), λ t. t)
  configured-After p i none b (c, none) = (inr (refl, selecting, omega arith, refl), λ t. t)
  configured-After p i (some e) b (c, none) =
      (inr (refl, leaving (some e), omega arith, refl), λ t. t)

  pub received-After :
      (p : Process) (i : ℕ) (r : Received) (sent : Option String)
      → After p i (settled i (receive unmarshal r sent p.server) (counted r p))
  unfolding receive
  received-After p i eof sent = (inr (refl, leaving none, omega arith, refl), λ t. t)
  received-After p i shutdown sent = closed-After p i
  received-After p i other sent = (inr (refl, selecting, omega arith, refl), λ t. t)
  received-After p i (recv_error e) sent = (inr (refl, leaving (some e), omega arith, refl), λ t. t)
  received-After p i (config_file b) sent =
      configured-After p i sent b (unmarshal b p.server.ctl_config)

  -- a move changes no stream beyond one
  pub moved_beyond : (i : ℕ) (s : Stream) (f : ℕ → Stream) (j : ℕ) → i < j → moved i s f j ≡ f j
  moved_beyond i s f j h = elim (moved_cases i s f j) [
    | inl (same, m) ↦ absurd (omega (arith, h, same))
    | inr m ↦ m
  ]

  streams-After :
      (p q : Process) (i : ℕ) → After p i q → (j : ℕ) → i < j → q.streams j ≡ p.streams j
  streams-After p q i (inl (m, e), t) j h = ap (λ f. f j) e
  streams-After p q i (inr (m, s, w, e), t) j h = ap (λ f. f j) e ∙ moved_beyond i s p.streams j h

  moves_below :
      {x : Bool} {p q : Process}
      → Move unmarshal x p q
      → (i : ℕ) × ((j : ℕ) → i < j → q.streams j ≡ p.streams j)
  unfolding wait_until_ready
  moves_below {p = p} (open_new i e s alone) = (i, moved_beyond i selecting p.streams)
  moves_below {p = p} (take_term i u s t) = (i, moved_beyond i (leaving none) p.streams)
  moves_below {p = p} (take_default i u s t) = (i, moved_beyond i receiving p.streams)
  moves_below {p = p} {q = q} (recv_returns i r sent u s) =
      (i, streams-After p q i (received-After p i r sent))
  moves_below {p = p} (leave i e u s) = (i, moved_beyond i ended p.streams)
  moves_below {p = p} (poll u n) = elim (Bool-cases (is_ready p.server)) [
    | inl e ↦ rw e (0, λ j h. refl)
    | inr e ↦ rw e (0, λ j h. refl)
  ]
  moves_below (benchmark_fails c u s) = (0, λ j h. refl)
  moves_below (interrupt e) = (0, λ j h. refl)
  moves_below (drain e t) = (0, λ j h. refl)
  moves_below (drained e n) = (0, λ j h. refl)

  -- finitely many streams were opened
  pub Reach-Quiet : {x : Bool} {p : Process} → Reach unmarshal x p → (n : ℕ) × Quiet n p.streams
  unfolding is_live
  Reach-Quiet begun = (0, λ j h. refl)
  Reach-Quiet (later r mv) =
      let (n, quiet) = Reach-Quiet r in
      let (i, same) = moves_below mv in
      (n + i + 1, λ j h. ap is_live (same j (omega (arith, h))) ∙ quiet j (omega (arith, h)))
