-- ===== src/Control/Launch/Laws.antt =====
-- How the command `benchctl run` ends.
use etcd_cloud_benchmarking.Prelude.{
  one_if, ◌+◌, ℕ, ◌≡◌, ◌≢◌, ◌↔◌, ◌≤◌, refl, sym, ap, subst, inl, inr, Option-cases, Option, none,
  some, List, [], String, count_if, arith,
}
use etcd_cloud_benchmarking.Control.Benchctl.{Global}
use etcd_cloud_benchmarking.Control.Session.{Next, continues, returns}
use etcd_cloud_benchmarking.Control.Session.Signals.{
  Phase, selecting, receiving, terminating, closing, panicked, returned, ended, Control, Reach,
}
use etcd_cloud_benchmarking.Control.Session.Signals.Laws.{control-Ends, loop_owes, sender_owes}
use etcd_cloud_benchmarking.Control.Launch.{
  Dial, Act, Status, crashed, exits, Launched, run_benchmark_at, exit_of, run_command, loop_of,
}
use etcd_cloud_benchmarking.Control.Launch.Connection.{
  IsConnected, is_connect, is_close, ready_result, run_benchmark_at-closed,
}

-- How a command ends, given what its loop comes to.
pub record CommandEnds (g : Global) (d : Dial) (inner : Option Next) (l : Launched) : Type 0 where
  pub no_config : g.ctl_config ≡ none → (l.acts ≡ []) × (l.status ≡ exits 1)
  pub one_connection : count_if is_connect l.acts ≤ 1
  pub closed : (k : ℕ) → l.status ≡ exits k → count_if is_close l.acts ≡ count_if is_connect l.acts
  pub success_iff :
      (l.status ≡ exits 0) ↔ ((g.ctl_config ≢ none) × IsConnected d × (inner ≡ some (returns none)))
  pub crash_iff : (l.status ≡ crashed) ↔ ((g.ctl_config ≢ none) × IsConnected d × (inner ≡ none))

exits_with :
    (n : Option Next) (k : ℕ) → exit_of n ≡ exits k → (e : Option String) × (n ≡ some (returns e))
unfolding exit_of
exits_with none k h = cc
exits_with (some continues) k h = cc
exits_with (some (returns none)) k h = (none, refl)
exits_with (some (returns (some e))) k h = (some e, refl)

not_zero : exits 1 ≡ exits 0 → ⊥
not_zero h = absurd (omega (arith, ap code h))
  where
    code : Status → ℕ
    code (exits k) = k
    code s = 0

success_of : (n : Option Next) → (exit_of n ≡ exits 0) ↔ (n ≡ some (returns none))
unfolding exit_of
success_of none = (λ h. cc, λ h. cc)
success_of (some continues) = (λ h. cc, λ h. cc)
success_of (some (returns none)) = (λ h. refl, λ h. refl)
success_of (some (returns (some e))) = (λ h. absurd (not_zero h), λ h. cc)

crash_of : (n : Option Next) → (exit_of n ≡ crashed) ↔ (n ≡ none)
unfolding exit_of
crash_of none = (λ h. refl, λ h. refl)
crash_of (some continues) = (λ h. cc, λ h. cc)
crash_of (some (returns none)) = (λ h. cc, λ h. cc)
crash_of (some (returns (some e))) = (λ h. cc, λ h. cc)

abbrev launched : List Act × Option Next → Launched
launched r = record { acts = r.0; status = exit_of r.1 }

configured-CommandEnds :
    (g : Global) (d : Dial) (inner : Option Next)
    → g.ctl_config ≢ none
    → CommandEnds g d inner (launched (run_benchmark_at d inner))
configured-CommandEnds g d inner there =
    let r = run_benchmark_at d inner in
    let (one, shut) = run_benchmark_at-closed d inner in
    let fine = ready_result d inner (some (returns none)) (λ e. cc) (λ x e. cc) in
    let bad = ready_result d inner none (λ e. cc) (λ x e. cc) in
    record {
      no_config = λ h. absurd (there h);
      one_connection = one;
      closed = λ k h. let (e, eq) = exits_with r.1 k h in shut e eq;
      success_iff = (
        λ h. let (c, i) = fine.0 ((success_of r.1).0 h) in (there, c, i),
        λ h. (success_of r.1).1 (fine.1 (h.1, h.2)),
      );
      crash_iff = (
        λ h. let (c, i) = bad.0 ((crash_of r.1).0 h) in (there, c, i),
        λ h. (crash_of r.1).1 (bad.1 (h.1, h.2)),
      );
    }

pub run_command-CommandEnds :
    (g : Global) (d : Dial) (inner : Option Next) → CommandEnds g d inner (run_command g d inner)
unfolding run_command
run_command-CommandEnds g d inner = elim (Option-cases g.ctl_config) [
  | inl e ↦
      rw (e, run_command)
        (record {
          no_config = λ h. (refl, refl);
          one_connection = omega arith;
          closed = λ k h. refl;
          success_iff = (λ h. absurd (not_zero h), λ h. absurd (h.0 refl));
          crash_iff = (λ h. cc, λ h. absurd (h.0 refl));
        })
  | inr (c, e) ↦
      let goes_on : run_command g d inner ≡ launched (run_benchmark_at d inner) =
        rw (e, run_command) refl in
      subst (CommandEnds g d inner) (sym goes_on)
        (configured-CommandEnds g d inner (λ n. cc (n, e)))
]

none_panicked : (p : Phase) → loop_of p ≡ none → p ≡ panicked
unfolding loop_of
none_panicked selecting h = cc
none_panicked receiving h = cc
none_panicked terminating h = cc
none_panicked closing h = cc
none_panicked panicked h = refl
none_panicked (returned e) h = cc
none_panicked (ended e) h = cc

returns_ended : (p : Phase) (e : Option String) → loop_of p ≡ some (returns e) → p ≡ ended e
unfolding loop_of
returns_ended selecting e h = cc
returns_ended receiving e h = cc
returns_ended terminating e h = cc
returns_ended closing e h = cc
returns_ended panicked e h = cc
returns_ended (returned w) e h = cc
returns_ended (ended w) e h = cc

-- The command `benchctl run`, whatever grpc answers and in whatever order the goroutines of
-- runBenchmark take their steps until the process ends: without a configuration it exits with 1 and
-- opens no connection; it opens at most one, which is closed when it exits; it exits with 0 exactly
-- when there is a configuration, the connection got ready, runBenchmark returned nil and no goroutine
-- panicked before the process ended, and then Shutdown was sent at most once, and once more if the
-- goroutine of the file is between its Send and its close; and it panics exactly when, over such a
-- connection, `termChan` was to be closed a second time.
pub run_command-Ends :
    (g : Global) (d : Dial) {s : Control}
    → Reach s
    → CommandEnds g d (loop_of s.phase) (run_command g d (loop_of s.phase))
      × (((run_command g d (loop_of s.phase)).status ≡ exits 0)
          ↔ ((g.ctl_config ≢ none) × IsConnected d × (s.phase ≡ ended none)))
      × ((run_command g d (loop_of s.phase)).status ≡ exits 0
          → s.shutdowns ≤ 1 + sender_owes s.sender)
      × (((run_command g d (loop_of s.phase)).status ≡ crashed)
          ↔ ((g.ctl_config ≢ none) × IsConnected d × (2 ≤ s.closers)))
unfolding loop_of
run_command-Ends g d {s} r =
    let i = run_command-CommandEnds g d (loop_of s.phase) in
    let c = control-Ends r in
    let at_end : (run_command g d (loop_of s.phase)).status ≡ exits 0 → s.phase ≡ ended none =
      λ h. returns_ended s.phase none (i.success_iff.0 h).2 in
    (
      i,
      (
        λ h. let (there, up, n) = i.success_iff.0 h in (there, up, at_end h),
        λ h. i.success_iff.1 (h.0, h.1, ap loop_of h.2),
      ),
      λ h. omega (
        arith,
        c.shutdowns_le (λ p. cc (at_end h, p)),
        ap loop_owes (at_end h),
        ap one_if (c.closed_at_return none (inr (at_end h))),
      ),
      (
        λ h.
            let (there, up, n) = i.crash_iff.0 h in
            (there, up, c.panics_iff.0 (none_panicked s.phase n)),
        λ h. i.crash_iff.1 (h.0, h.1, ap loop_of (c.panics_iff.1 h.2)),
      ),
    )
