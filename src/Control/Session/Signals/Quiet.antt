-- ===== src/Control/Session/Signals/Quiet.antt =====
-- Runs without a signal whose file is sent: they are those of the loop alone.
use etcd_cloud_benchmarking.Prelude.{
  ℕ, suc, ◌≡◌, ◌≢◌, ◌⊎◌, inl, inr, refl, Bool, true, false, Option, none, some, List, [], ◌∷◌, ◌++◌,
  String, Bool-cases, ap, sym, ◌∙◌, subst, if◌then◌else◌, arith,
}
use etcd_cloud_benchmarking.Prelude.Run.{Run, ret, fails, panics, timeout, ◌>>=◌}
use etcd_cloud_benchmarking.Control.Session
use etcd_cloud_benchmarking.Control.Session.{
  Reply, eof, status, config_response, finished, unknown, recv_error, Next, continues, returns,
  new_session, handle, run_benchmark,
}
use etcd_cloud_benchmarking.Control.Session.Signals.{
  Phase, selecting, receiving, terminating, closing, panicked, returned, ended, Sender, pending,
  refused, unclosed, over, Control, close_term, respond, Move, signal, take_signal, take_term,
  take_default, receive, send_shutdown, close_channel, send_file, send_fails, sender_shutdown,
  sender_closes, end_process, Reach, begun, later,
}

-- what the loop does with the rest after a reply
abbrev follow : List Reply → Next × Session.Session → Run (Next × Session.Session)
follow qs x = elim x.0 [ continues ↦ run_benchmark qs x.1 | returns e ↦ ret (returns e, x.1) ]

while_open :
    (q : Reply) (qs : List Reply) (s : Session.Session)
    → s.term_closed ≡ false
    → run_benchmark (q ∷ qs) s ≡ (handle q s >>= follow qs)
unfolding run_benchmark
while_open q qs s e =
    ap (λ (b : Bool). if b then ret (returns none, s) else (handle q s >>= follow qs)) e

follow-append :
    (qs : List Reply) (r : Reply) (s' : Session.Session) (m : Run (Next × Session.Session))
    (end : Run (Next × Session.Session))
    → ((s : Session.Session)
        → run_benchmark qs s ≡ ret (continues, s')
        → run_benchmark (qs ++ r ∷ []) s ≡ end)
    → (m >>= follow qs) ≡ ret (continues, s')
    → (m >>= follow (qs ++ r ∷ [])) ≡ end
follow-append qs r s' (ret (continues, s)) end ih h = ih s h
follow-append qs r s' (ret (returns e, s)) end ih h = cc
follow-append qs r s' (fails w) end ih h = cc
follow-append qs r s' panics end ih h = cc
follow-append qs r s' timeout end ih h = cc

-- one more reply to a loop that still waits
run_benchmark-append :
    (rs : List Reply) (r : Reply) (s s' : Session.Session)
    → run_benchmark rs s ≡ ret (continues, s')
    → run_benchmark (rs ++ r ∷ []) s ≡ run_benchmark (r ∷ []) s'
run_benchmark-append [] r s s' h = ap (run_benchmark (r ∷ [])) (waits (Bool-cases s.term_closed))
  where
    waits : (s.term_closed ≡ true) ⊎ (s.term_closed ≡ false) → s ≡ s'
    waits c = unfold run_benchmark in ground (arith, c, h)
run_benchmark-append (q ∷ qs) r s s' h = elim (Bool-cases s.term_closed) [
  | inl e ↦ absurd (unfold run_benchmark in ground (arith, e, h))
  | inr e ↦
      while_open q (qs ++ r ∷ []) s e
      ∙ follow-append qs r s' (handle q s) (run_benchmark (r ∷ []) s')
          (λ s₁ k. run_benchmark-append qs r s₁ s' k) (sym (while_open q qs s e) ∙ h)
]

-- the state as that of the loop alone
abbrev pub session : Control → Session.Session
session s = record { shutdowns = s.shutdowns; term_closed = s.term_closed }

-- the result of the loop alone, with the replies that were received
abbrev Result : Control → Next → Type 0
Result s n = run_benchmark s.heard new_session ≡ ret (n, session s)

-- the loop is in `terminate`, and this many Shutdowns will have been sent
abbrev Terminates : Control → ℕ → Type 0
Terminates s n =
    (s.term_closed ≡ false)
    × (run_benchmark s.heard new_session
        ≡ ret (returns none, record { shutdowns = n; term_closed = true }))

abbrev InPhase : Phase → Control → Type 0
InPhase selecting s = Result s (if s.term_closed then returns none else continues)
InPhase receiving s = (s.term_closed ≡ false) × Result s continues
InPhase terminating s = Terminates s (suc s.shutdowns)
InPhase closing s = Terminates s s.shutdowns
InPhase panicked s = ⊥
InPhase (returned e) s = Result s (returns e)
InPhase (ended e) s = Result s (returns e)

-- the goroutine of the file has not failed
abbrev IsCalm : Sender → Type 0
IsCalm pending = Unit
IsCalm over = Unit
IsCalm refused = ⊥
IsCalm unclosed = ⊥

abbrev Inv : Control → Type 0
Inv s = s.disturbed ≡ false → (s.signalled ≡ false) × IsCalm s.sender × InPhase s.phase s

-- the loop after a reply, as the loop alone handles it
respond-InPhase :
    (r : Reply) (s : Control)
    → s.term_closed ≡ false
    → run_benchmark s.heard new_session ≡ run_benchmark (r ∷ []) (session s)
    → InPhase (respond r s).phase (respond r s)
unfolding respond run_benchmark handle Session.close_term Session.terminate
respond-InPhase eof s e h = ground (arith, e, h)
respond-InPhase (recv_error w) s e h = ground (arith, e, h)
respond-InPhase finished s e h = ground (arith, e, h)
respond-InPhase status s e h = ground (arith, e, h)
respond-InPhase config_response s e h = ground (arith, e, h)
respond-InPhase unknown s e h = ground (arith, e, h)

-- the facts of a state in a known phase
at : (p : Phase) (s : Control) → s.phase ≡ p → InPhase s.phase s → InPhase p s
at p s e h = subst (λ q. InPhase q s) e h

-- sending the file changes nothing that the loop alone has
in_loop : (p : Phase) (s : Control) → InPhase p s → InPhase p (record s { sender = over })
in_loop selecting s h = h
in_loop receiving s h = h
in_loop terminating s h = h
in_loop closing s h = h
in_loop panicked s h = h
in_loop (returned e) s h = h
in_loop (ended e) s h = h

one_more :
    (r : Reply) (s : Control)
    → InPhase receiving s
    → run_benchmark (s.heard ++ r ∷ []) new_session ≡ run_benchmark (r ∷ []) (session s)
one_more r s h = run_benchmark-append s.heard r new_session (session s) h.1

closing_apart :
    (p : Phase) (s : Control)
    → ((close_term p s).disturbed ≡ s.disturbed)
      × ((close_term p s).signalled ≡ s.signalled)
      × ((close_term p s).sender ≡ s.sender)
unfolding close_term
closing_apart p s = ground arith

kept_apart :
    (r : Reply) (s : Control)
    → ((respond r s).disturbed ≡ s.disturbed)
      × ((respond r s).signalled ≡ s.signalled)
      × ((respond r s).sender ≡ s.sender)
unfolding respond
kept_apart eof s = closing_apart (returned none) s
kept_apart (recv_error w) s = closing_apart (returned (some w)) s
kept_apart finished s = (refl, refl, refl)
kept_apart status s = (refl, refl, refl)
kept_apart config_response s = (refl, refl, refl)
kept_apart unknown s = (refl, refl, refl)

-- the close of `terminate` ends it
closed_InPhase :
    (s : Control)
    → Terminates s s.shutdowns
    → InPhase (close_term selecting s).phase (close_term selecting s)
unfolding close_term
closed_InPhase s (t, h) = rw (t, close_term) h

Move-Inv : {s t : Control} → Move s t → Inv s → Inv t
Move-Inv {s} (signal l) i d = cc
Move-Inv {s} (take_signal e x) i d = absurd (cc (x, (i d).0))
Move-Inv {s} (take_term e c) i d =
    let (quiet, calm, h) = i d in
    (
      quiet,
      calm,
      at selecting s e h
          ∙ ap (λ (b : Bool). ret (if b then returns none else continues, session s)) c,
    )
Move-Inv {s} (take_default e x c) i d =
    let (quiet, calm, h) = i d in
    (
      quiet,
      calm,
      (
        c,
        at selecting s e h
            ∙ ap (λ (b : Bool). ret (if b then returns none else continues, session s)) c,
      ),
    )
Move-Inv {s} (receive r e) i d =
    let s' : Control = record s { heard = s.heard ++ r ∷ [] } in
    let (apart, signals, same) = kept_apart r s' in
    let (quiet, calm, h) = i (sym apart ∙ d) in
    let there = at receiving s e h in
    (
      signals ∙ quiet,
      subst IsCalm (sym same) calm,
      respond-InPhase r s' there.0 (one_more r s there),
    )
Move-Inv {s} (send_shutdown e) i d =
    let (quiet, calm, h) = i d in (quiet, calm, at terminating s e h)
Move-Inv {s} (close_channel e) i d =
    let (apart, signals, same) = closing_apart selecting s in
    let (quiet, calm, h) = i (sym apart ∙ d) in
    (signals ∙ quiet, subst IsCalm (sym same) calm, closed_InPhase s (at closing s e h))
Move-Inv {s} (send_file l f) i d = let (quiet, calm, h) = i d in (quiet, tt, in_loop s.phase s h)
Move-Inv {s} (send_fails l f) i d = cc
Move-Inv {s} (sender_shutdown l f) i d = absurd (subst IsCalm f (i d).1)
Move-Inv {s} (sender_closes l f) i d =
    let (apart, _, _) = closing_apart s.phase (record s { sender = over }) in
    absurd (subst IsCalm f (i (sym apart ∙ d)).1)
Move-Inv {s} (end_process w e) i d =
    let (quiet, calm, h) = i d in (quiet, calm, at (returned w) s e h)

Reach-Inv : {s : Control} → Reach s → Inv s
unfolding run_benchmark
Reach-Inv begun d = (refl, tt, refl)
Reach-Inv (later r mv) d = Move-Inv mv (Reach-Inv r) d

-- In every state that is reached with no signal and no failure to send the configuration file, in
-- whatever order the goroutines took their steps: the program has not panicked; where runBenchmark
-- returned, also at the end of the process, the loop alone returns the same, with the same Shutdowns,
-- on the replies that were received; and where it waits in Recv, the loop alone waits, too.
pub run_benchmark-quiet :
    {s : Control}
    → Reach s
    → s.disturbed ≡ false
    → (s.phase ≢ panicked)
      × ((e : Option String)
          → s.phase ≡ returned e
          → run_benchmark s.heard new_session ≡ ret (returns e, session s))
      × ((e : Option String)
          → s.phase ≡ ended e
          → run_benchmark s.heard new_session ≡ ret (returns e, session s))
      × (s.phase ≡ receiving → run_benchmark s.heard new_session ≡ ret (continues, session s))
run_benchmark-quiet {s} r d =
    let h = (Reach-Inv r d).2 in
    (
      λ e. at panicked s e h,
      λ o e. at (returned o) s e h,
      λ o e. at (ended o) s e h,
      λ e. (at receiving s e h).1,
    )
