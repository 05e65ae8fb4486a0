-- ===== src/Client/Server/Process/Invariant.antt =====
-- The invariant of the process of the benchmark client, and that what a stream receives keeps it.
use native.Mathlib.Decide.{ℕ_discrete}
use etcd_cloud_benchmarking.Prelude.{
  one_if, ℕ, ◌≤◌, ◌≡◌, ◌⊎◌, inl, inr, refl, sym, ap, ◌∙◌, subst, Bool-cases, true, false, Option,
  none, some, String, arith,
}
use etcd_cloud_benchmarking.Prelude.Run.{ret}
use etcd_cloud_benchmarking.Prelude.Text.{Text}
use etcd_cloud_benchmarking.Control.Config.{BenchctlConfig}
use etcd_cloud_benchmarking.Client.Server.{
  Received, eof, shutdown, other, recv_error, config_file, close_term, configured, receive,
}
use etcd_cloud_benchmarking.Client.Server.Process.{
  Stream, selecting, leaving, Main, serving, draining, exited, killed, failed, crashed, Process,
  is_live, IsUp, moved, counted, settled,
}

-- the current stream runs; a configuration that is stored or used was received
pub record Facts (p : Process) : Type 0 where
  pub current : (i : ℕ) → p.server.curr_stream ≡ some i → is_live (p.streams i) ≡ true
  pub stored : (c : BenchctlConfig) → p.server.ctl_config ≡ some c → 1 ≤ p.files
  pub used : (c : BenchctlConfig) → p.started ≡ some c → 1 ≤ p.files

-- the channel is closed by its one closer
abbrev pub Counted : Process → Type 0
Counted p = p.closers ≡ one_if p.server.term_closed

abbrev pub InMain : Main → Process → Type 0
InMain serving p = Counted p
InMain draining p = Counted p × (p.server.term_closed ≡ true)
InMain exited p =
    Counted p × (p.server.term_closed ≡ true) × ((i : ℕ) → is_live (p.streams i) ≡ false)
InMain killed p = Counted p
InMain failed p = Counted p
InMain crashed p = 2 ≤ p.closers

abbrev pub Inv : Process → Type 0
Inv p = Facts p × InMain p.main p

-- a stream after a move of one of them
pub moved_cases :
    (i : ℕ) (s : Stream) (f : ℕ → Stream) (j : ℕ)
    → ((i ≡ j) × (moved i s f j ≡ s)) ⊎ (moved i s f j ≡ f j)
moved_cases i s f j = elim (ℕ_discrete i j) [
  | yes same ↦ inl (same, ground arith)
  | no differ ↦ inr (ground arith)
]

pub moved-here : (i : ℕ) (s : Stream) (f : ℕ → Stream) → moved i s f i ≡ s
moved-here i s f = ground arith

-- a move to a stream that runs
moved-current :
    (c : Option ℕ) (f : ℕ → Stream) (i : ℕ) (s : Stream)
    → is_live s ≡ true
    → ((j : ℕ) → c ≡ some j → is_live (f j) ≡ true)
    → (j : ℕ) → c ≡ some j
    → is_live (moved i s f j) ≡ true
moved-current c f i s l h j e = elim (moved_cases i s f j) [
  | inl (same, m) ↦ ap is_live m ∙ l
  | inr m ↦ ap is_live m ∙ h j e
]

pub up-Counted : (p : Process) → IsUp p.main → InMain p.main p → Counted p
up-Counted p (inl e) h = subst (λ m. InMain m p) e h
up-Counted p (inr e) h = (subst (λ m. InMain m p) e h).0

up-InMain :
    (m : Main) (p : Process)
    → IsUp m
    → Counted p
    → (m ≡ draining → p.server.term_closed ≡ true)
    → InMain m p
up-InMain m p (inl e) c d = subst (λ m. InMain m p) (sym e) c
up-InMain m p (inr e) c d = subst (λ m. InMain m p) (sym e) (c, d e)

pub draining-closed :
    (p : Process) → InMain p.main p → p.main ≡ draining → p.server.term_closed ≡ true
draining-closed p h e = (subst (λ m. InMain m p) e h).1

-- the same counters and channel, while `main` is up
pub kept :
    (p q : Process)
    → IsUp p.main
    → q.closers ≡ p.closers
    → q.server.term_closed ≡ p.server.term_closed
    → InMain p.main p
    → InMain p.main q
kept p q u c t h =
    up-InMain p.main q u (c ∙ up-Counted p u h ∙ ap one_if (sym t)) (λ e. t ∙ draining-closed p h e)

-- one stream received Shutdown
closed-Inv :
    (p : Process) (i : ℕ)
    → IsUp p.main
    → Inv p
    → Inv (settled i (close_term p.server) (counted shutdown p))
unfolding close_term is_live
closed-Inv p i u (f, h) = elim (Bool-cases p.server.term_closed) [
  | inl e ↦ rw e (
    record { current = f.current; stored = f.stored; used = f.used },
    omega (arith, up-Counted p u h, ap one_if e),
  )
  | inr e ↦ rw e (
    record {
      current = moved-current p.server.curr_stream p.streams i selecting refl f.current;
      stored = f.stored;
      used = f.used;
    },
    up-InMain p.main _ u (omega (arith, up-Counted p u h, ap one_if e)) (λ d. refl),
  )
]

-- a stream read a configuration file
configured-Inv :
    (unmarshal : Text → Option BenchctlConfig → Option BenchctlConfig × Option String) (p : Process)
    (i : ℕ) (sent : Option String) (b : Text) (x : Option BenchctlConfig × Option String)
    → IsUp p.main
    → Inv p
    → Inv (settled i (ret (configured unmarshal sent x p.server)) (counted (config_file b) p))
unfolding configured is_live
configured-Inv unmarshal p i sent b (c, some e) u (f, h) = (
  record {
    current = moved-current p.server.curr_stream p.streams i (leaving (some e)) refl f.current;
    stored = λ c q. omega arith;
    used = λ c q. omega arith;
  },
  kept p _ u refl refl h,
)
configured-Inv unmarshal p i none b (c, none) u (f, h) = (
  record {
    current = moved-current p.server.curr_stream p.streams i selecting refl f.current;
    stored = λ c q. omega arith;
    used = λ c q. omega arith;
  },
  kept p _ u refl refl h,
)
configured-Inv unmarshal p i (some e) b (c, none) u (f, h) = (
  record {
    current = moved-current p.server.curr_stream p.streams i (leaving (some e)) refl f.current;
    stored = λ c q. omega arith;
    used = λ c q. omega arith;
  },
  kept p _ u refl refl h,
)

-- a stream that received nothing which is counted goes on or returns
module _ (p : Process) (i : ℕ) (u : IsUp p.main) (h : Inv p) where
  pub still-Inv : (s : Stream) → is_live s ≡ true → Inv (record p { streams = moved i s p.streams })
  still-Inv s l = (
    record {
      current = moved-current p.server.curr_stream p.streams i s l h.0.current;
      stored = h.0.stored;
      used = h.0.used;
    },
    kept p _ u refl refl h.1,
  )

  pub recv-Inv :
      (unmarshal : Text → Option BenchctlConfig → Option BenchctlConfig × Option String)
      (r : Received) (sent : Option String)
      → Inv (settled i (receive unmarshal r sent p.server) (counted r p))
  unfolding receive is_live
  recv-Inv unmarshal eof sent = still-Inv (leaving none) refl
  recv-Inv unmarshal shutdown sent = closed-Inv p i u h
  recv-Inv unmarshal other sent = still-Inv selecting refl
  recv-Inv unmarshal (recv_error e) sent = still-Inv (leaving (some e)) refl
  recv-Inv unmarshal (config_file b) sent =
      configured-Inv unmarshal p i sent b (unmarshal b p.server.ctl_config) u h
