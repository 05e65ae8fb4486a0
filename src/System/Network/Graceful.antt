-- ===== src/System/Network/Graceful.antt =====
-- Why the client's process shuts down: the benchmark is over, or somebody disturbed the control
-- program.
use mathlib.Core.List.{append-nil}
use etcd_cloud_benchmarking.Prelude.{
  ◌≤◌, ◌≡◌, ◌⊎◌, inl, inr, refl, sym, ap, ◌∙◌, subst, Bool-cases, true, false, Option, Option-cases,
  none, some, List, [], ◌∷◌, ◌++◌, String, All, count_if, count_if-append, one_if, arith,
}
use etcd_cloud_benchmarking.Prelude.Text.{Text}
use etcd_cloud_benchmarking.Control.Config.{BenchctlConfig}
use etcd_cloud_benchmarking.Control.Session.{Reply}
use etcd_cloud_benchmarking.Control.Session.Signals
use etcd_cloud_benchmarking.Control.Session.Signals.{Control, respond}
use etcd_cloud_benchmarking.Client.Program.{Event, Action, value}
use etcd_cloud_benchmarking.Client.Program.Laws.{IsReport, Leaves, returns, stops}
use etcd_cloud_benchmarking.Client.Pool.{Store, nothing_open}
use etcd_cloud_benchmarking.Client.Server.Process.{Process, Main, draining, exited}
use etcd_cloud_benchmarking.Client.Server.Process.Invariant.{InMain}
use etcd_cloud_benchmarking.Client.Server.Process.Laws.{Reach-Inv}
use etcd_cloud_benchmarking.System.Network.{Network, plan, Reach}
use etcd_cloud_benchmarking.System.Network.Messages.{tells_end, is_finish, nothing_before}
use etcd_cloud_benchmarking.System.Network.Laws.{Reach-Told}

-- somebody disturbed the program, or it got BenchmarkFinished
abbrev Cause : Control → Type 0
Cause c = (c.disturbed ≡ true) ⊎ (1 ≤ count_if tells_end c.heard)

-- a Shutdown, sent or about to be sent, has a cause
record Caused (c : Control) : Type 0 where
  signals : c.signalled ≡ true → c.disturbed ≡ true
  refuses : c.sender ≡ Signals.refused → c.disturbed ≡ true
  ends : c.phase ≡ Signals.terminating → Cause c
  cause : (c.shutdowns ≡ 0) ⊎ Cause c

-- `close(termChan)` sends nothing
close-Caused :
    (p : Signals.Phase) (c : Control)
    → (p ≡ Signals.terminating → c.phase ≡ Signals.terminating)
    → Caused c
    → Caused (Signals.close_term p c)
unfolding Signals.close_term
close-Caused p c same i = elim (Bool-cases c.term_closed) [
  | inl e ↦
      rw e record { signals = i.signals; refuses = i.refuses; ends = λ h. cc (h); cause = i.cause }
  | inr e ↦ rw e record {
    signals = i.signals;
    refuses = i.refuses;
    ends = λ h. i.ends (same h);
    cause = i.cause;
  }
]

-- one more message
more-Cause : (r : Reply) (c : Control) → Cause c → Cause (record c { heard = c.heard ++ r ∷ [] })
more-Cause r c (inl d) = inl d
more-Cause r c (inr n) = inr (omega (arith, n, count_if-append tells_end c.heard (r ∷ [])))

more-Caused : (r : Reply) (c : Control) → Caused c → Caused (record c { heard = c.heard ++ r ∷ [] })
more-Caused r c i = record {
  signals = i.signals;
  refuses = i.refuses;
  ends = λ h. more-Cause r c (i.ends h);
  cause = elim (i.cause) [ inl z ↦ inl z | inr x ↦ inr (more-Cause r c x) ];
}

-- the loop goes on in a phase other than `terminate`
moved-Caused :
    (p : Signals.Phase) (c : Control)
    → (p ≡ Signals.terminating → Cause c)
    → Caused c
    → Caused (record c { phase = p })
moved-Caused p c h i = record {
  signals = i.signals;
  refuses = i.refuses;
  ends = h;
  cause = i.cause;
}

heard-Caused :
    (r : Reply) (c : Control)
    → Caused c
    → Caused (respond r (record c { heard = c.heard ++ r ∷ [] }))
unfolding respond
heard-Caused Reply.eof c i =
    close-Caused (Signals.returned none) (record c { heard = c.heard ++ Reply.eof ∷ [] })
      (λ h. cc (h)) (more-Caused Reply.eof c i)
heard-Caused (Reply.recv_error e) c i =
    close-Caused (Signals.returned (some e))
      (record c { heard = c.heard ++ Reply.recv_error e ∷ [] }) (λ h. cc (h))
      (more-Caused (Reply.recv_error e) c i)
heard-Caused Reply.finished c i =
    moved-Caused Signals.terminating (record c { heard = c.heard ++ Reply.finished ∷ [] })
      (λ h. inr (omega (arith, count_if-append tells_end c.heard (Reply.finished ∷ []))))
      (more-Caused Reply.finished c i)
heard-Caused Reply.status c i =
    moved-Caused Signals.selecting (record c { heard = c.heard ++ Reply.status ∷ [] }) (λ h. cc (h))
      (more-Caused Reply.status c i)
heard-Caused Reply.config_response c i =
    moved-Caused Signals.selecting (record c { heard = c.heard ++ Reply.config_response ∷ [] })
      (λ h. cc (h)) (more-Caused Reply.config_response c i)
heard-Caused Reply.unknown c i =
    moved-Caused Signals.selecting (record c { heard = c.heard ++ Reply.unknown ∷ [] })
      (λ h. cc (h)) (more-Caused Reply.unknown c i)

disturbed-Caused : {c : Control} → c.disturbed ≡ true → Caused c
disturbed-Caused d = record {
  signals = λ h. d;
  refuses = λ h. d;
  ends = λ h. inl d;
  cause = inr (inl d);
}

Move-Caused : {c d : Control} → Signals.Move c d → Caused c → Caused d
Move-Caused (Signals.signal l) i = disturbed-Caused refl
Move-Caused (Signals.take_signal e x) i = disturbed-Caused (i.signals x)
Move-Caused {c} (Signals.take_term e x) i = moved-Caused (Signals.returned none) c (λ h. cc (h)) i
Move-Caused {c} (Signals.take_default e x y) i = moved-Caused Signals.receiving c (λ h. cc (h)) i
Move-Caused {c} (Signals.receive r e) i = heard-Caused r c i
Move-Caused (Signals.send_shutdown e) i = record {
  signals = i.signals;
  refuses = i.refuses;
  ends = λ h. cc (h);
  cause = inr (i.ends e);
}
Move-Caused {c} (Signals.close_channel e) i = close-Caused Signals.selecting c (λ h. cc (h)) i
Move-Caused (Signals.send_file l f) i = record {
  signals = i.signals;
  refuses = λ h. cc (h);
  ends = i.ends;
  cause = i.cause;
}
Move-Caused (Signals.send_fails l f) i = disturbed-Caused refl
Move-Caused (Signals.sender_shutdown l f) i = disturbed-Caused (i.refuses f)
Move-Caused {c} (Signals.sender_closes l f) i =
    close-Caused c.phase (record c { sender = Signals.over }) (λ h. h)
      record { signals = i.signals; refuses = λ h. cc (h); ends = i.ends; cause = i.cause }
Move-Caused {c} (Signals.end_process w e) i = moved-Caused (Signals.ended w) c (λ h. cc (h)) i

Reach-Caused : {c : Control} → Signals.Reach c → Caused c
Reach-Caused Signals.begun = record {
  signals = λ h. cc (h);
  refuses = λ h. cc (h);
  ends = λ h. cc (h);
  cause = inl refl;
}
Reach-Caused (Signals.later r m) = Move-Caused m (Reach-Caused r)

no_finish : (es : List Event) → All IsReport es → count_if is_finish es ≡ 0
no_finish [] h = refl
no_finish (Event.status s ∷ es) (h, hs) = omega (arith, no_finish es hs)
no_finish (Event.shows r ∷ es) (h, hs) = omega (arith, no_finish es hs)
no_finish (Event.closes s ∷ es) (h, hs) = elim h [ ]
no_finish (Event.finished ∷ es) (h, hs) = elim h [ ]

-- BenchmarkFinished comes last, so nothing is left to send after it
nothing_left :
    (reports made todo : List Event) (s : Store)
    → All IsReport reports
    → made ++ todo ≡ reports ++ Event.closes s ∷ Event.finished ∷ []
    → 1 ≤ count_if is_finish made
    → todo ≡ []
nothing_left reports [] todo s h e k = absurd (omega (arith, k))
nothing_left [] (m ∷ []) todo s h e k =
    let first : m ≡ Event.closes s = cc e in
    absurd (omega (arith, k, ap (λ x. count_if is_finish (x ∷ [])) first))
nothing_left [] (m ∷ x ∷ []) todo s h e k = cc (e)
nothing_left [] (m ∷ x ∷ y ∷ made) todo s h e k = cc (e)
nothing_left (r ∷ reports) (m ∷ made) todo s (h, hs) e k =
    let first : m ≡ r = cc e in
    let rest : made ++ todo ≡ reports ++ Event.closes s ∷ Event.finished ∷ [] = cc e in
    let none_here : count_if is_finish (r ∷ []) ≡ 0 = no_finish (r ∷ []) (h, tt) in
    nothing_left reports made todo s hs rest
      (omega (arith, k, none_here, ap (λ x. count_if is_finish (x ∷ [])) first))

-- a program that has sent BenchmarkFinished has sent all and returned
completed :
    (p : Action) (made todo : List Event)
    → Leaves (Event.closes nothing_open ∷ Event.finished ∷ []) p
    → made ++ todo ≡ p.events
    → 1 ≤ count_if is_finish made
    → (p.ending ≡ value tt) × (made ≡ p.events) × (todo ≡ [])
completed p made todo (returns es reports a h e) m k =
    let nothing = nothing_left reports made todo nothing_open h (m ∙ e) k in
    (refl, sym (append-nil made) ∙ ap (λ l. made ++ l) (sym nothing) ∙ m, nothing)
completed p made todo (stops es e n h) m k = absurd (
    omega
      (arith, k, count_if-append is_finish made todo, ap (count_if is_finish) m, no_finish es h))

-- `main` of the client left its select by `termChan`
abbrev pub ShutsDown : Main → Type 0
ShutsDown m = (m ≡ draining) ⊎ (m ≡ exited)

shut_once : (p : Process) → ShutsDown p.main → InMain p.main p → p.closers ≡ 1
shut_once p (inl e) h = let (c, t) = subst (λ m. InMain m p) e h in c ∙ ap one_if t
shut_once p (inr e) h = let (c, t, n) = subst (λ m. InMain m p) e h in c ∙ ap one_if t

-- Let the benchmark's program, like `client`, end with the Close of a runner that leaves nothing open
-- and BenchmarkFinished if it returns, and send neither before. Then whatever steps both programs
-- take, with the messages between them, losses of the connection and interrupts of the client
-- included: when the client's process is in GracefulStop or has returned from it, and the control
-- program got no signal and its SendConfigFile did not fail, a configuration file had been received, and the
-- benchmark of the stored configuration has returned with all its messages sent.
pub network_completes :
    (unmarshal : Text → Option BenchctlConfig → Option BenchctlConfig × Option String) (file : Text)
    (program : BenchctlConfig → Action) {n : Network}
    → ((c : BenchctlConfig) → Leaves (Event.closes nothing_open ∷ Event.finished ∷ []) (program c))
    → Reach unmarshal file program n
    → ShutsDown n.process.main
    → n.control.disturbed ≡ false
    → (c : BenchctlConfig) × (n.process.started ≡ some c)
      × (1 ≤ n.process.files)
      × ((program c).ending ≡ value tt)
      × (n.made ≡ (program c).events)
      × (n.todo ≡ [])
network_completes unmarshal file program {n} leaves r down calm =
    let t = Reach-Told unmarshal file program r in
    let (facts, inv) = Reach-Inv unmarshal t.processes in
    let once = shut_once n.process down inv in
    let told : 1 ≤ count_if tells_end n.control.heard = elim ((Reach-Caused t.controls).cause) [
      | inl z ↦ absurd (omega (arith, z, t.asked, once))
      | inr (inl d) ↦ cc (d, calm)
      | inr (inr h) ↦ h
    ] in
    let sent : 1 ≤ count_if is_finish n.made = omega (arith, told, t.ended) in
    elim (Option-cases n.process.started) [
      | inl e ↦
          let nothing =
            nothing_before n.made n.todo (t.planned ∙ ap (plan unmarshal file program) e) in
          absurd (omega (arith, sent, ap (count_if is_finish) nothing))
      | inr (c, e) ↦
          let (ending, all, left) =
            completed (program c) n.made n.todo (leaves c)
              (t.planned ∙ ap (plan unmarshal file program) e) sent in
          (c, e, facts.used c e, ending, all, left)
    ]
