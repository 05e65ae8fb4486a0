-- ===== src/System/Network/Messages.antt =====
-- What a step of either program sends, counted.
use etcd_cloud_benchmarking.Prelude.{
  ◌+◌, ◌≤◌, ◌≡◌, inl, inr, refl, sym, ◌∙◌, Bool, Bool-cases, true, false, Option, Option-cases,
  none, some, List, [], ◌∷◌, ◌++◌, String, count_if, if◌then◌else◌, arith,
}
use etcd_cloud_benchmarking.Prelude.Run.{Run, ret, fails, panics, timeout}
use etcd_cloud_benchmarking.Prelude.Text.{Text}
use etcd_cloud_benchmarking.Control.Config.{BenchctlConfig}
use etcd_cloud_benchmarking.Control.Session.{Reply}
use etcd_cloud_benchmarking.Control.Session.Signals
use etcd_cloud_benchmarking.Control.Session.Signals.{Control, respond}
use etcd_cloud_benchmarking.Client.Program.{Event, Action}
use etcd_cloud_benchmarking.Client.Server.{Server, Received, Next, is_ready}
use etcd_cloud_benchmarking.Client.Server.Process
use etcd_cloud_benchmarking.Client.Server.Process.{Process, counted, settled, wait_until_ready}
use etcd_cloud_benchmarking.System.{replies}
use etcd_cloud_benchmarking.System.Network.{delivered, sent_in, IsOwn, IsLocal, answers}

abbrev pub is_shutdown : Received → Bool
is_shutdown Received.shutdown = true
is_shutdown r = false

abbrev pub tells_end : Reply → Bool
tells_end Reply.finished = true
tells_end r = false

abbrev pub is_finish : Event → Bool
is_finish Event.finished = true
is_finish e = false

-- `close(termChan)` sends nothing
close_term-same :
    (p : Signals.Phase) (c : Control)
    → ((Signals.close_term p c).shutdowns ≡ c.shutdowns)
      × ((Signals.close_term p c).heard ≡ c.heard)
      × ((Signals.close_term p c).disturbed ≡ c.disturbed)
unfolding Signals.close_term
close_term-same p c = elim (Bool-cases c.term_closed) [
  | inl e ↦ rw e (refl, refl, refl)
  | inr e ↦ rw e (refl, refl, refl)
]

-- a Recv sends nothing
pub respond-same :
    (r : Reply) (c : Control)
    → ((respond r c).shutdowns ≡ c.shutdowns) × ((respond r c).heard ≡ c.heard)
unfolding respond
respond-same Reply.eof c = let (n, h, d) = close_term-same (Signals.returned none) c in (n, h)
respond-same (Reply.recv_error e) c =
    let (n, h, d) = close_term-same (Signals.returned (some e)) c in (n, h)
respond-same Reply.finished c = (refl, refl)
respond-same Reply.status c = (refl, refl)
respond-same Reply.config_response c = (refl, refl)
respond-same Reply.unknown c = (refl, refl)

-- what is counted of a message that a handler got
pub settled-same :
    (r : Received) (x : Run (Next × Server)) (p : Process)
    → ((settled 0 x (counted r p)).closers ≡ p.closers + count_if is_shutdown (r ∷ []))
      × ((settled 0 x (counted r p)).started ≡ p.started)
settled-same r x p = after x (counted_same r)
  where
    counted_same :
        (r : Received)
        → ((counted r p).closers ≡ p.closers + count_if is_shutdown (r ∷ []))
          × ((counted r p).started ≡ p.started)
    counted_same Received.eof = (omega arith, refl)
    counted_same Received.shutdown = (omega arith, refl)
    counted_same Received.other = (omega arith, refl)
    counted_same (Received.recv_error e) = (omega arith, refl)
    counted_same (Received.config_file b) = (omega arith, refl)

    after :
        (x : Run (Next × Server))
        → ((counted r p).closers ≡ p.closers + count_if is_shutdown (r ∷ []))
          × ((counted r p).started ≡ p.started)
        → ((settled 0 x (counted r p)).closers ≡ p.closers + count_if is_shutdown (r ∷ []))
          × ((settled 0 x (counted r p)).started ≡ p.started)
    after (ret (Next.continues, s)) h = h
    after (ret (Next.returns e, s)) h = h
    after (fails e) h = h
    after panics h = h
    after timeout h = h

-- a message of the benchmark tells its end if it is the last one
pub delivered-finish :
    (arrives : Bool) (e : Event) (s : Server)
    → count_if tells_end (delivered arrives e s) ≤ count_if is_finish (e ∷ [])
unfolding delivered replies
delivered-finish arrives e s = elim (Option-cases s.curr_stream) [
  | inl h ↦ rw h (omega arith)
  | inr (i, h) ↦ rw h (go arrives e)
]
  where
    go :
        (arrives : Bool) (e : Event)
        → count_if tells_end (if arrives then replies (e ∷ []) else [])
          ≤ count_if is_finish (e ∷ [])
    go true (Event.status x) = omega arith
    go true (Event.shows r) = omega arith
    go true (Event.closes x) = omega arith
    go true Event.finished = omega arith
    go false e = omega arith

pub polled-same :
    (p : Process)
    → (p.started ≡ none)
    → ((wait_until_ready p).closers ≡ p.closers)
      × ((wait_until_ready p).started ≡ none → (wait_until_ready p).started ≡ p.started)
unfolding wait_until_ready
polled-same p n = elim (Bool-cases (is_ready p.server)) [
  | inl e ↦ rw e (refl, λ h. h ∙ sym n)
  | inr e ↦ rw e (refl, λ h. refl)
]

pub nothing_before {ℓ} : {A : Type ℓ} (xs ys : List A) → xs ++ ys ≡ [] → xs ≡ []
nothing_before [] ys h = refl
nothing_before (x ∷ xs) ys h = cc (h)

module _ (unmarshal : Text → Option BenchctlConfig → Option BenchctlConfig × Option String)
    (file : Text) (program : BenchctlConfig → Action) where
  pub answers-end :
      (r : Received) (sent : Option String) (s : Server)
      → count_if tells_end (answers unmarshal file program r sent s) ≡ 0
  unfolding answers
  answers-end (Received.config_file b) none s = elim (Option-cases (unmarshal b s.ctl_config).1) [
    | inl h ↦ rw (h, answers) refl
    | inr (e, h) ↦ rw (h, answers) refl
  ]
  answers-end (Received.config_file b) (some e) s = refl
  answers-end Received.eof sent s = refl
  answers-end Received.shutdown sent s = refl
  answers-end Received.other sent s = refl
  answers-end (Received.recv_error e) sent s = refl

  pub own-same :
      {s t : Control} (m : Signals.Move s t)
      → IsOwn unmarshal file program m
      → (t.shutdowns ≡ s.shutdowns + count_if is_shutdown (sent_in unmarshal file program m))
        × (t.heard ≡ s.heard)
  own-same (Signals.signal l) o = (omega arith, refl)
  own-same (Signals.take_signal e x) o = (omega arith, refl)
  own-same (Signals.take_term e c) o = (omega arith, refl)
  own-same (Signals.take_default e x c) o = (omega arith, refl)
  own-same (Signals.receive r e) o = absurd o
  own-same (Signals.send_shutdown e) o = (omega arith, refl)
  own-same {s} (Signals.close_channel e) o =
      let (n, h, d) = close_term-same Signals.selecting s in (omega (arith, n), h)
  own-same (Signals.send_file l f) o = (omega arith, refl)
  own-same (Signals.send_fails l f) o = (omega arith, refl)
  own-same (Signals.sender_shutdown l f) o = (omega arith, refl)
  own-same {s} (Signals.sender_closes l f) o =
      let (n, h, d) = close_term-same s.phase (record s { sender = Signals.over }) in
      (omega (arith, n), h)
  own-same (Signals.end_process w e) o = (omega arith, refl)

  pub local-same :
      {p q : Process} (m : Process.Move unmarshal true p q)
      → IsLocal unmarshal file program m
      → (q.closers ≡ p.closers) × (q.started ≡ p.started)
  local-same (Process.open_new i e s alone) o = (refl, refl)
  local-same (Process.take_term i u s t) o = (refl, refl)
  local-same (Process.take_default i u s t) o = (refl, refl)
  local-same (Process.recv_returns i r sent u s) o = absurd o
  local-same (Process.leave i e u s) o = (refl, refl)
  local-same (Process.poll u n) o = absurd o
  local-same (Process.benchmark_fails c u s) o = absurd o
  local-same (Process.interrupt e) o = (refl, refl)
  local-same (Process.drain e t) o = (refl, refl)
  local-same (Process.drained e n) o = (refl, refl)
