-- ===== src/Client/Server/Process/Sequential.antt =====
-- CTRLStream on one stream, as Client/Server has it, is a run of the process.
use native.Mathlib.Decide.{ℕ_discrete}
use etcd_cloud_benchmarking.Prelude.{
  ℕ, ◌≡◌, ◌≢◌, inl, inr, refl, sym, ap, ◌∙◌, subst, Bool, Bool-cases, true, false, Option, none,
  List, [], ◌∷◌, String,
}
use etcd_cloud_benchmarking.Prelude.Run.{ret}
use etcd_cloud_benchmarking.Prelude.Text.{Text}
use etcd_cloud_benchmarking.Control.Config.{BenchctlConfig}
use etcd_cloud_benchmarking.Client.Server.{
  Server, Received, eof, shutdown, other, recv_error, config_file, Next, continues, returns,
  end_stream, receive, settle, serve, ctrl_stream,
}
use etcd_cloud_benchmarking.Client.Server.Stream.{round_open, serve_closed, close_open}
use etcd_cloud_benchmarking.Client.Server.Process.{
  Stream, unopened, selecting, receiving, ended, leaving, serving, exited, Process, is_live, moved,
  counted, settled, Move, open_new, take_term, take_default, recv_returns, leave, drain, drained,
}
use etcd_cloud_benchmarking.Client.Server.Process.Invariant.{moved_cases, moved-here}
use etcd_cloud_benchmarking.Client.Server.Process.Draining.{Runs, here, then_moves}

-- where a handler is that waits for a message, or that returned
abbrev pub place : Next → Stream
place continues = receiving
place (returns e) = ended

-- a process after a handler took its part of a run, from another
pub record Placed (i : ℕ) (p : Process) (n : Next) (s : Server) (q : Process) : Type 0 where
  pub server : q.server ≡ s
  pub up : q.main ≡ serving
  pub there : q.streams i ≡ place n
  pub others : (j : ℕ) → i ≢ j → q.streams j ≡ p.streams j

moved_elsewhere : (i : ℕ) (s : Stream) (f : ℕ → Stream) (j : ℕ) → i ≢ j → moved i s f j ≡ f j
moved_elsewhere i s f j differ = elim (moved_cases i s f j) [
  | inl (same, m) ↦ absurd (differ same)
  | inr m ↦ m
]

counted-same :
    (r : Received) (p : Process)
    → ((counted r p).streams ≡ p.streams) × ((counted r p).main ≡ p.main)
counted-same eof p = (refl, refl)
counted-same shutdown p = (refl, refl)
counted-same other p = (refl, refl)
counted-same (recv_error e) p = (refl, refl)
counted-same (config_file b) p = (refl, refl)

module _ (unmarshal : Text → Option BenchctlConfig → Option BenchctlConfig × Option String) where
  -- while the channel is open, no message makes a handler panic
  receive-ret :
      (r : Received) (sent : Option String) (s : Server)
      → s.term_closed ≡ false
      → (x : Next × Server) × (receive unmarshal r sent s ≡ ret x)
  unfolding receive
  receive-ret eof sent s h = (_, refl)
  receive-ret shutdown sent s h = (_, close_open unmarshal s h)
  receive-ret other sent s h = (_, refl)
  receive-ret (recv_error e) sent s h = (_, refl)
  receive-ret (config_file b) sent s h = (_, refl)

  module _ (b : Bool) (i : ℕ) (p₀ : Process) where
    -- a run, with what the sequential handler makes of the same messages
    abbrev Follows : Process → List (Received × Option String) → Type 0
    Follows p rs =
        (n : Next) × (s : Server) × (k : ℕ) × (q : Process) × (serve unmarshal rs p.server
          ≡ ret (n, s))
        × Runs unmarshal b p₀ k q
        × Placed i p n s q

    -- the channel is closed: the handler returns
    closed-Follows :
        {k : ℕ} (rs : List (Received × Option String)) (p : Process)
        → Runs unmarshal b p₀ k p
        → p.main ≡ serving
        → p.streams i ≡ selecting
        → p.server.term_closed ≡ true
        → Follows p rs
    closed-Follows rs p r m s t = (
      returns none,
      end_stream p.server,
      _,
      _,
      serve_closed unmarshal rs p.server t,
      then_moves (then_moves r (take_term i (inl m) s t))
          (leave i none (inl m) (moved-here i (leaving none) p.streams)),
      record {
        server = refl;
        up = m;
        there = moved-here i ended (moved i (leaving none) p.streams);
        others = λ j d.
            moved_elsewhere i ended (moved i (leaving none) p.streams) j d
            ∙ moved_elsewhere i (leaving none) p.streams j d;
      },
    )

    -- what follows a message, where the rest of them is followed from any process
    next-Follows :
        {k : ℕ} (r : Received) (sent : Option String) (rs : List (Received × Option String))
        (p : Process) (x : Next × Server)
        → ((l : ℕ) (p' : Process)
            → Runs unmarshal b p₀ l p'
            → p'.main ≡ serving
            → p'.streams i ≡ selecting
            → Follows p' rs)
        → Runs unmarshal b p₀ k p
        → p.main ≡ serving
        → p.streams i ≡ selecting
        → p.server.term_closed ≡ false
        → receive unmarshal r sent p.server ≡ ret x
        → Follows p ((r, sent) ∷ rs)
    unfolding serve settle
    next-Follows r sent rs p (continues, s₁) ih run m s t e =
        let p₁ : Process = record p { streams = moved i receiving p.streams } in
        let (same, still) = counted-same r p₁ in
        let p₂ : Process = settled i (ret (continues, s₁)) (counted r p₁) in
        let got : Move unmarshal b p₁ p₂ =
          subst (λ w. Move unmarshal b p₁ (settled i w (counted r p₁))) e
            (recv_returns i r sent (inl m) (moved-here i receiving p.streams)) in
        let (n, s', k', q, served, runs, placed) =
          ih _ p₂ (then_moves (then_moves run (take_default i (inl m) s t)) got) (still ∙ m)
            (moved-here i selecting (counted r p₁).streams) in
        (
          n,
          s',
          k',
          q,
          rw (round_open unmarshal r sent p.server t, e) served,
          runs,
          record {
            server = placed.server;
            up = placed.up;
            there = placed.there;
            others = λ j d.
                placed.others j d
                ∙ moved_elsewhere i selecting (counted r p₁).streams j d
                ∙ ap (λ f. f j) same
                ∙ moved_elsewhere i receiving p.streams j d;
          },
        )
    next-Follows r sent rs p (returns w, s₁) ih run m s t e =
        let p₁ : Process = record p { streams = moved i receiving p.streams } in
        let (same, still) = counted-same r p₁ in
        let p₂ : Process = settled i (ret (returns w, s₁)) (counted r p₁) in
        let got : Move unmarshal b p₁ p₂ =
          subst (λ w. Move unmarshal b p₁ (settled i w (counted r p₁))) e
            (recv_returns i r sent (inl m) (moved-here i receiving p.streams)) in
        (
          returns w,
          end_stream s₁,
          _,
          _,
          rw (round_open unmarshal r sent p.server t, e) refl,
          then_moves (then_moves (then_moves run (take_default i (inl m) s t)) got)
              (leave i w (inl (still ∙ m)) (moved-here i (leaving w) (counted r p₁).streams)),
          record {
            server = refl;
            up = still ∙ m;
            there = moved-here i ended (moved i (leaving w) (counted r p₁).streams);
            others = λ j d.
                moved_elsewhere i ended (moved i (leaving w) (counted r p₁).streams) j d
                ∙ moved_elsewhere i (leaving w) (counted r p₁).streams j d
                ∙ ap (λ f. f j) same
                ∙ moved_elsewhere i receiving p.streams j d;
          },
        )

    serve-Follows :
        {k : ℕ} (rs : List (Received × Option String)) (p : Process)
        → Runs unmarshal b p₀ k p
        → p.main ≡ serving
        → p.streams i ≡ selecting
        → Follows p rs
    unfolding serve
    serve-Follows [] p run m s = elim (Bool-cases p.server.term_closed) [
      | inl t ↦ closed-Follows [] p run m s t
      | inr t ↦ (
        continues,
        p.server,
        _,
        _,
        rw (t) refl,
        then_moves run (take_default i (inl m) s t),
        record {
          server = refl;
          up = m;
          there = moved-here i receiving p.streams;
          others = moved_elsewhere i receiving p.streams;
        },
      )
    ]
    serve-Follows ((r, sent) ∷ rs) p run m s = elim (Bool-cases p.server.term_closed) [
      | inl t ↦ closed-Follows ((r, sent) ∷ rs) p run m s t
      | inr t ↦
          let (x, e) = receive-ret r sent p.server t in
          next-Follows r sent rs p x (λ l p' run' m' s'. serve-Follows rs p' run' m' s') run m s t e
    ]

-- The sequential CTRLStream is the one of the process: let `main` wait in its select and stream i be
-- new, with no other handler running where streams are to follow one another. Whatever arrives on the
-- stream, and whichever answers cannot be sent, ctrl_stream returns, and the process has a run in
-- which the handler of stream i does just that: its server is the one that ctrl_stream leaves, the
-- handler waits in Recv or has ended accordingly, `main` still waits, and the other streams are where
-- they were.
pub ctrl_stream-Runs :
    (unmarshal : Text → Option BenchctlConfig → Option BenchctlConfig × Option String) (b : Bool)
    (i : ℕ) (rs : List (Received × Option String)) (p : Process)
    → p.main ≡ serving
    → p.streams i ≡ unopened
    → (b ≡ true → (j : ℕ) → is_live (p.streams j) ≡ false)
    → (n : Next) × (s : Server) × (k : ℕ) × (q : Process) × (ctrl_stream unmarshal i rs p.server
        ≡ ret (n, s))
      × Runs unmarshal b p k q
      × Placed i p n s q
unfolding ctrl_stream
ctrl_stream-Runs unmarshal b i rs p m s alone =
    let (n, s', k, q, served, runs, placed) =
      serve-Follows unmarshal b i p rs _ (then_moves here (open_new i m s alone)) m
        (moved-here i selecting p.streams) in
    (
      n,
      s',
      k,
      q,
      served,
      runs,
      record {
        server = placed.server;
        up = placed.up;
        there = placed.there;
        others = λ j d. placed.others j d ∙ moved_elsewhere i selecting p.streams j d;
      },
    )

-- After a handler that returned and closed the channel, where no other runs, `main` returns.
pub Placed-exits :
    (unmarshal : Text → Option BenchctlConfig → Option BenchctlConfig × Option String) (b : Bool)
    {i k : ℕ} {p q : Process} {e : Option String} {s : Server}
    → ((j : ℕ) → is_live (p.streams j) ≡ false)
    → Runs unmarshal b p k q
    → Placed i p (returns e) s q
    → s.term_closed ≡ true
    → (l : ℕ) × (r : Process) × Runs unmarshal b p l r × (r.main ≡ exited) × (r.server ≡ s)
unfolding is_live
Placed-exits unmarshal b {i} {q = q} quiet runs placed t = (
  _,
  _,
  then_moves
      (then_moves runs (drain placed.up (ap (λ (s : Server). s.term_closed) placed.server ∙ t)))
      (drained refl (λ j. elim (ℕ_discrete i j) [
        | yes same ↦ ap is_live (sym (ap q.streams same) ∙ placed.there)
        | no differ ↦ ap is_live (placed.others j differ) ∙ quiet j
      ])),
  refl,
  placed.server,
)
