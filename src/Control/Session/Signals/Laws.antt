-- ===== src/Control/Session/Signals/Laws.antt =====
-- When runBenchmark panics, and what it sent.
use etcd_cloud_benchmarking.Prelude.{
  ℕ, one_if, ◌+◌, ◌≤◌, ◌≡◌, ◌≢◌, ◌⊎◌, ◌↔◌, Bool-cases, inl, inr, refl, true, Option, none, some,
  String, ap, sym, ◌∙◌, subst, arith,
}
use etcd_cloud_benchmarking.Control.Session.{
  Reply, eof, status, config_response, finished, unknown, recv_error,
}
use etcd_cloud_benchmarking.Control.Session.Signals.{
  Phase, selecting, receiving, terminating, closing, panicked, returned, ended, Sender, unclosed,
  over, Control, close_term, respond, IsLive, Move, signal, take_signal, take_term, take_default,
  receive, send_shutdown, close_channel, send_file, send_fails, sender_shutdown, sender_closes,
  end_process, Reach, begun, later,
}

-- a Shutdown that was sent by the loop, or by the goroutine of the file, before its close
abbrev pub loop_owes : Phase → ℕ
loop_owes closing = 1
loop_owes p = 0

abbrev pub sender_owes : Sender → ℕ
sender_owes unclosed = 1
sender_owes s = 0

-- a close that follows no Shutdown
abbrev failed : Phase → ℕ
failed (returned (some e)) = 1
failed (ended (some e)) = 1
failed p = 0

-- the channel is closed at the return of runBenchmark
abbrev closed_by : Phase → ℕ
closed_by (returned e) = 1
closed_by (ended e) = 1
closed_by p = 0

-- while there is no panic: the channel is closed by its one closer, and of what was sent all but the
-- last of either goroutine was followed by a close
abbrev Counted : Phase → Control → Type 0
Counted p s =
    (s.closers ≡ one_if s.term_closed)
    × (s.shutdowns + failed p ≤ s.closers + loop_owes p + sender_owes s.sender)
    × (closed_by p ≤ s.closers)

abbrev InPhase : Phase → Control → Type 0
InPhase selecting s = Counted selecting s
InPhase receiving s = Counted receiving s
InPhase terminating s = Counted terminating s
InPhase closing s = Counted closing s
InPhase panicked s = 2 ≤ s.closers
InPhase (returned e) s = Counted (returned e) s
InPhase (ended e) s = Counted (ended e) s

abbrev Inv : Control → Type 0
Inv s = InPhase s.phase s

-- a phase that is not a panic
Counted-in : (p : Phase) (s : Control) → p ≢ panicked → InPhase p s → Counted p s
Counted-in selecting s n h = h
Counted-in receiving s n h = h
Counted-in terminating s n h = h
Counted-in closing s n h = h
Counted-in panicked s n h = absurd (n refl)
Counted-in (returned e) s n h = h
Counted-in (ended e) s n h = h

in_counted : (p : Phase) (s : Control) → p ≢ panicked → Counted p s → InPhase p s
in_counted selecting s n h = h
in_counted receiving s n h = h
in_counted terminating s n h = h
in_counted closing s n h = h
in_counted panicked s n h = absurd (n refl)
in_counted (returned e) s n h = h
in_counted (ended e) s n h = h

live_goes_on : (p : Phase) → IsLive p → p ≢ panicked
live_goes_on panicked l e = l
live_goes_on selecting l e = cc
live_goes_on receiving l e = cc
live_goes_on terminating l e = cc
live_goes_on closing l e = cc
live_goes_on (returned w) l e = cc
live_goes_on (ended w) l e = cc

at : (p : Phase) (s : Control) → s.phase ≡ p → InPhase s.phase s → InPhase p s
at p s e h = subst (λ q. InPhase q s) e h

close_term-Inv :
    (p : Phase) (s : Control)
    → p ≢ panicked
    → s.closers ≡ one_if s.term_closed
    → (s.closers ≡ 0 → s.shutdowns + failed p ≤ 1 + loop_owes p + sender_owes s.sender)
    → closed_by p ≤ 1
    → Inv (close_term p s)
unfolding close_term
close_term-Inv p s n c h k = elim (Bool-cases s.term_closed) [
  | inl e ↦ rw e (omega (arith, c ∙ ap one_if e))
  | inr e ↦ rw e (
      in_counted p _ n
        (omega (arith, c ∙ ap one_if e), omega (arith, h (c ∙ ap one_if e)), omega (arith, k)))
]

respond-Inv : (r : Reply) (s : Control) → Counted receiving s → Inv (respond r s)
unfolding respond
respond-Inv eof s c =
    close_term-Inv (returned none) s (λ e. cc) c.0 (λ z. omega (arith, c, z)) (omega arith)
respond-Inv (recv_error e) s c =
    close_term-Inv (returned (some e)) s (λ e. cc) c.0 (λ z. omega (arith, c, z)) (omega arith)
respond-Inv finished s c = c
respond-Inv status s c = c
respond-Inv config_response s c = c
respond-Inv unknown s c = c

-- a step of the goroutine of the file that closes nothing
sender-Inv :
    (s t : Control)
    → IsLive s.phase
    → t.phase ≡ s.phase
    → t.closers ≡ s.closers
    → t.term_closed ≡ s.term_closed
    → t.shutdowns + sender_owes s.sender ≡ s.shutdowns + sender_owes t.sender
    → Inv s
    → Inv t
sender-Inv s t l p c d n i =
    let h = Counted-in s.phase s (live_goes_on s.phase l) i in
    subst (λ q. InPhase q t) (sym p)
      (in_counted s.phase t (live_goes_on s.phase l)
        (c ∙ h.0 ∙ ap one_if (sym d), omega (arith, h, c, n), omega (arith, h, c)))

Move-Inv : {s t : Control} → Move s t → Inv s → Inv t
Move-Inv {s} (signal l) i = sender-Inv s _ l refl refl refl refl i
Move-Inv {s} (take_signal e x) i = at selecting s e i
Move-Inv {s} (take_term e x) i =
    let (c, n, k) = at selecting s e i in (c, n, omega (arith, c ∙ ap one_if x))
Move-Inv {s} (take_default e x y) i = at selecting s e i
Move-Inv {s} (receive r e) i = respond-Inv r _ (at receiving s e i)
Move-Inv {s} (send_shutdown e) i = let (c, n, k) = at terminating s e i in (c, omega (arith, n), k)
Move-Inv {s} (close_channel e) i =
    let (c, n, k) = at closing s e i in
    close_term-Inv selecting s (λ e. cc) c (λ z. omega (arith, n, z)) (omega arith)
Move-Inv {s} (send_file l e) i = sender-Inv s _ l refl refl refl (omega (arith, ap sender_owes e)) i
Move-Inv {s} (send_fails l e) i =
    sender-Inv s _ l refl refl refl (omega (arith, ap sender_owes e)) i
Move-Inv {s} (sender_shutdown l e) i =
    sender-Inv s _ l refl refl refl (omega (arith, ap sender_owes e)) i
Move-Inv {s} (sender_closes l e) i =
    let goes = live_goes_on s.phase l in
    let (c, n, k) = Counted-in s.phase s goes i in
    close_term-Inv s.phase (record s { sender = over }) goes c
      (λ z. omega (arith, n, z, ap sender_owes e)) (omega (arith, k, bound s.phase))
  where
    bound : (p : Phase) → closed_by p ≤ 1
    bound selecting = omega arith
    bound receiving = omega arith
    bound terminating = omega arith
    bound closing = omega arith
    bound panicked = omega arith
    bound (returned e) = omega arith
    bound (ended e) = omega arith
Move-Inv {s} (end_process none e) i = at (returned none) s e i
Move-Inv {s} (end_process (some w) e) i = at (returned (some w)) s e i

Reach-Inv : {s : Control} → Reach s → Inv s
Reach-Inv begun = (refl, omega arith, omega arith)
Reach-Inv (later r mv) = Move-Inv mv (Reach-Inv r)

-- What a state says of what was sent and closed.
pub record Ends (s : Control) : Type 0 where
  pub panics_iff : (s.phase ≡ panicked) ↔ (2 ≤ s.closers)
  pub shutdowns_le :
      s.phase ≢ panicked
      → s.shutdowns ≤ one_if s.term_closed + loop_owes s.phase + sender_owes s.sender
  pub closed_at_return :
      (e : Option String) → (s.phase ≡ returned e) ⊎ (s.phase ≡ ended e) → s.term_closed ≡ true
  pub error_shutdowns :
      (e : String)
      → (s.phase ≡ returned (some e)) ⊎ (s.phase ≡ ended (some e))
      → s.shutdowns ≤ sender_owes s.sender

Counted-le : (p : Phase) (s : Control) → Counted p s → s.closers ≤ 1
Counted-le p s c = ground (arith, c.0)

is_closed : (s : Control) → s.closers ≡ one_if s.term_closed → 1 ≤ s.closers → s.term_closed ≡ true
is_closed s c h = ground (arith, c, h)

panics_when : (p : Phase) (s : Control) → InPhase p s → (p ≡ panicked) ↔ (2 ≤ s.closers)
panics_when panicked s h = (λ _. h, λ _. refl)
panics_when selecting s h = (λ e. cc, λ k. absurd (omega (arith, k, Counted-le selecting s h)))
panics_when receiving s h = (λ e. cc, λ k. absurd (omega (arith, k, Counted-le receiving s h)))
panics_when terminating s h = (λ e. cc, λ k. absurd (omega (arith, k, Counted-le terminating s h)))
panics_when closing s h = (λ e. cc, λ k. absurd (omega (arith, k, Counted-le closing s h)))
panics_when (returned e) s h =
    (λ e. cc, λ k. absurd (omega (arith, k, Counted-le (returned e) s h)))
panics_when (ended e) s h = (λ e. cc, λ k. absurd (omega (arith, k, Counted-le (ended e) s h)))

-- In every state that the goroutines of runBenchmark can reach until the process ends, with signals
-- at any time and whatever arrives: the program has panicked exactly when `termChan` was to be closed
-- a second time, by the end or an error of the stream, BenchmarkFinished, a signal or a configuration
-- file that could not be sent; without a panic, Shutdown was sent at most once for the close of the
-- channel and once more for each goroutine that is between its Send and its close; the channel is
-- closed when runBenchmark returned; and when it returned an error, Shutdown was sent at most once, by
-- the goroutine of the file, which has not closed the channel then.
pub control-Ends : {s : Control} → Reach s → Ends s
control-Ends {s} r =
    let i = Reach-Inv r in
    record {
      panics_iff = panics_when s.phase s i;
      shutdowns_le = λ n. let (c, h, k) = Counted-in s.phase s n i in omega (arith, c, h);
      closed_at_return = λ e p. elim p [
        | inl q ↦ let (c, h, k) = at (returned e) s q i in is_closed s c k
        | inr q ↦ let (c, h, k) = at (ended e) s q i in is_closed s c k
      ];
      error_shutdowns = λ e p. elim p [
        | inl q ↦
            let (c, h, k) = at (returned (some e)) s q i in
            omega (arith, h, Counted-le (returned (some e)) s (c, h, k))
        | inr q ↦
            let (c, h, k) = at (ended (some e)) s q i in
            omega (arith, h, Counted-le (ended (some e)) s (c, h, k))
      ];
    }
