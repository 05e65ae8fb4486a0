-- ===== src/Client/Server/Process/Exclusive.antt =====
-- Streams that follow one another: no handler runs when another is opened.
use etcd_cloud_benchmarking.Prelude.{
  ℕ, ◌≡◌, ◌≢◌, inl, inr, refl, sym, ap, ◌∙◌, Bool-cases, true, false, Option, none, some, String,
}
use etcd_cloud_benchmarking.Prelude.Run.{ret}
use etcd_cloud_benchmarking.Prelude.Text.{Text}
use etcd_cloud_benchmarking.Control.Config.{BenchctlConfig}
use etcd_cloud_benchmarking.Client.Server.{
  Received, eof, shutdown, other, recv_error, config_file, open_stream, end_stream, configured,
  receive, is_ready,
}
use etcd_cloud_benchmarking.Client.Server.Stream.{close_open}
use etcd_cloud_benchmarking.Client.Server.Process.{
  Stream, selecting, receiving, ended, leaving, crashed, Process, is_live, wait_until_ready, moved,
  counted, settled, Move, open_new, take_term, take_default, recv_returns, leave, poll,
  benchmark_fails, interrupt, drain, drained, Reach, begun, later,
}
use etcd_cloud_benchmarking.Client.Server.Process.Invariant.{moved_cases, moved-here}

-- one handler runs at most, and it waits in Recv only while the channel is open
pub record Alone (p : Process) : Type 0 where
  pub one : (i j : ℕ) → is_live (p.streams i) ≡ true → is_live (p.streams j) ≡ true → i ≡ j
  pub waits : (i : ℕ) → p.streams i ≡ receiving → p.server.term_closed ≡ false
  pub runs : p.main ≢ crashed

-- the only handler that runs, after a move of it or of the first one
one_moved :
    (f : ℕ → Stream) (i : ℕ) (s : Stream)
    → ((j : ℕ) → is_live (f j) ≡ true → i ≡ j)
    → (j : ℕ) → is_live (moved i s f j) ≡ true
    → i ≡ j
one_moved f i s h j l = elim (moved_cases i s f j) [
  | inl (same, m) ↦ same
  | inr m ↦ h j (sym (ap is_live m) ∙ l)
]

Alone-moved :
    (p q : Process) (i : ℕ) (s : Stream)
    → ((j : ℕ) → is_live (p.streams j) ≡ true → i ≡ j)
    → q.streams ≡ moved i s p.streams
    → q.main ≢ crashed
    → (s ≡ receiving → q.server.term_closed ≡ false)
    → Alone q
unfolding is_live
Alone-moved p q i s h e n w = record {
  one = λ j k a b.
      sym (one_moved p.streams i s h j (sym (ap (λ f. is_live (f j)) e) ∙ a))
      ∙ one_moved p.streams i s h k (sym (ap (λ f. is_live (f k)) e) ∙ b);
  waits = λ j r.
      let there : moved i s p.streams j ≡ receiving = sym (ap (λ f. f j) e) ∙ r in
      let same : i ≡ j = one_moved p.streams i s h j (ap is_live there) in
      w (sym (moved-here i s p.streams) ∙ ap (moved i s p.streams) same ∙ there);
  runs = n;
}

-- a configuration file moves the stream that received it
configured-moved :
    (unmarshal : Text → Option BenchctlConfig → Option BenchctlConfig × Option String) (p : Process)
    (i : ℕ) (sent : Option String) (x : Option BenchctlConfig × Option String)
    → (let q = settled i (ret (configured unmarshal sent x p.server)) p in
        (s : Stream) × (s ≢ receiving) × (q.streams ≡ moved i s p.streams) × (q.main ≡ p.main))
unfolding configured
configured-moved unmarshal p i sent (c, some e) = (leaving (some e), (λ e. cc), refl, refl)
configured-moved unmarshal p i none (c, none) = (selecting, (λ e. cc), refl, refl)
configured-moved unmarshal p i (some e) (c, none) = (leaving (some e), (λ e. cc), refl, refl)

-- while the channel is open, what a stream receives moves this stream only, and ends nothing
received-moved :
    (unmarshal : Text → Option BenchctlConfig → Option BenchctlConfig × Option String) (p : Process)
    (i : ℕ) (r : Received) (sent : Option String)
    → p.server.term_closed ≡ false
    → (let q = settled i (receive unmarshal r sent p.server) (counted r p) in
        (s : Stream) × (s ≢ receiving) × (q.streams ≡ moved i s p.streams) × (q.main ≡ p.main))
unfolding receive
received-moved unmarshal p i eof sent t = (leaving none, (λ e. cc), refl, refl)
received-moved unmarshal p i shutdown sent t =
    rw (close_open unmarshal p.server t) (selecting, (λ e. cc), refl, refl)
received-moved unmarshal p i other sent t = (selecting, (λ e. cc), refl, refl)
received-moved unmarshal p i (recv_error e) sent t = (leaving (some e), (λ e. cc), refl, refl)
received-moved unmarshal p i (config_file b) sent t =
    configured-moved unmarshal (counted (config_file b) p) i sent (unmarshal b p.server.ctl_config)

module _ (unmarshal : Text → Option BenchctlConfig → Option BenchctlConfig × Option String) where
  Move-Alone : {p q : Process} → Move unmarshal true p q → Alone p → Alone q
  unfolding is_live open_stream end_stream wait_until_ready
  Move-Alone {p} (open_new i e s alone) a =
      Alone-moved p _ i selecting (λ j l. cc (l, alone refl j)) refl a.runs (λ x. cc)
  Move-Alone {p} (take_term i u s t) a =
      Alone-moved p _ i (leaving none) (λ j. a.one i j (ap is_live s)) refl a.runs (λ x. cc)
  Move-Alone {p} (take_default i u s t) a =
      Alone-moved p _ i receiving (λ j. a.one i j (ap is_live s)) refl a.runs (λ x. t)
  Move-Alone {p} (recv_returns i r sent u s) a =
      let (to, n, f, m) = received-moved unmarshal p i r sent (a.waits i s) in
      Alone-moved p _ i to (λ j. a.one i j (ap is_live s)) f (λ c. a.runs (sym m ∙ c))
        (λ x. absurd (n x))
  Move-Alone {p} (leave i e u s) a =
      Alone-moved p _ i ended (λ j. a.one i j (ap is_live s)) refl a.runs (λ x. cc)
  Move-Alone {p} (poll u n) a = elim (Bool-cases (is_ready p.server)) [
    | inl e ↦ rw e (record { one = a.one; waits = a.waits; runs = a.runs })
    | inr e ↦ rw e a
  ]
  Move-Alone {p} (benchmark_fails c u s) a = record { one = a.one; waits = a.waits; runs = λ e. cc }
  Move-Alone {p} (interrupt e) a = record { one = a.one; waits = a.waits; runs = λ e. cc }
  Move-Alone {p} (drain e t) a = record { one = a.one; waits = a.waits; runs = λ e. cc }
  Move-Alone {p} (drained e n) a = record { one = a.one; waits = a.waits; runs = λ e. cc }

  Reach-Alone : {p : Process} → Reach unmarshal true p → Alone p
  unfolding is_live
  Reach-Alone begun = record { one = λ i j a b. cc; waits = λ i e. cc; runs = λ e. cc }
  Reach-Alone (later r mv) = Move-Alone mv (Reach-Alone r)

-- When every stream is opened after the handlers of the others have returned, no stream panics,
-- however often Shutdown is sent and whatever else arrives.
pub exclusive_streams_never_panic :
    (unmarshal : Text → Option BenchctlConfig → Option BenchctlConfig × Option String) {p : Process}
    → Reach unmarshal true p
    → p.main ≢ crashed
exclusive_streams_never_panic unmarshal r = (Reach-Alone unmarshal r).runs
