-- ===== src/Control/Session/Signals/Tests.antt =====
-- A run that an interrupt ends, and one without.
use etcd_cloud_benchmarking.Prelude.{◌≡◌, ◌≢◌, refl, true, false, Option, none, [], ◌∷◌, String}
use etcd_cloud_benchmarking.Prelude.Run.{ret}
use etcd_cloud_benchmarking.Control.Session.{
  recv_error, status, finished, continues, returns, new_session, run_benchmark,
}
use etcd_cloud_benchmarking.Control.Session.Signals
use etcd_cloud_benchmarking.Control.Session.Signals.{
  take_term, panicked, returned, ended, over, unclosed, Control, close_term, respond, signal,
  take_signal, take_default, receive, send_shutdown, close_channel, send_file, send_fails,
  sender_shutdown, sender_closes, end_process, Reach, begun, later,
}
use etcd_cloud_benchmarking.Control.Session.Signals.Laws.{Ends, control-Ends}
use etcd_cloud_benchmarking.Control.Session.Signals.Quiet.{session, run_benchmark-quiet}

-- The connection is lost while the file cannot be sent: runBenchmark returns the error, the other
-- goroutine sends Shutdown and panics before the process ends.
abbrev pub interrupted : Control
interrupted = record {
  phase = panicked;
  sender = over;
  signalled = false;
  term_closed = true;
  shutdowns = 1;
  closers = 2;
  heard = recv_error "unavailable" ∷ [];
  disturbed = true;
}

pub interrupted-Reach : Reach interrupted
unfolding respond close_term
interrupted-Reach =
    let lost =
      later (later begun (take_default refl refl refl)) (receive (recv_error "unavailable") refl) in
    later (later (later lost (send_fails tt refl)) (sender_shutdown tt refl))
      (sender_closes tt refl)

control-Ends_example : Ends interrupted
control-Ends_example = control-Ends interrupted-Reach

-- two Shutdowns in a process that ends without a panic
abbrev sent_twice : Control
sent_twice = record {
  phase = ended none;
  sender = unclosed;
  signalled = false;
  term_closed = true;
  shutdowns = 2;
  closers = 1;
  heard = finished ∷ [];
  disturbed = true;
}

sent_twice-Reach : Reach sent_twice
unfolding respond close_term
sent_twice-Reach =
    let told = later (later begun (take_default refl refl refl)) (receive finished refl) in
    let closed = later (later told (send_shutdown refl)) (close_channel refl) in
    let both = later (later closed (send_fails tt refl)) (sender_shutdown tt refl) in
    later (later both (take_term refl refl)) (end_process none refl)

abbrev peaceful : Control
peaceful = record {
  phase = returned none;
  sender = over;
  signalled = false;
  term_closed = true;
  shutdowns = 1;
  closers = 1;
  heard = status ∷ finished ∷ [];
  disturbed = false;
}

peaceful-Reach : Reach peaceful
unfolding respond close_term
peaceful-Reach =
    let sent = later begun (send_file tt refl) in
    let first = later (later sent (take_default refl refl refl)) (receive status refl) in
    let told = later (later first (take_default refl refl refl)) (receive finished refl) in
    later (later (later told (send_shutdown refl)) (close_channel refl)) (take_term refl refl)

run_benchmark-quiet_example :
    (peaceful.phase ≢ panicked)
    × ((e : Option String)
        → peaceful.phase ≡ returned e
        → run_benchmark peaceful.heard new_session ≡ ret (returns e, session peaceful))
    × ((e : Option String)
        → peaceful.phase ≡ ended e
        → run_benchmark peaceful.heard new_session ≡ ret (returns e, session peaceful))
    × (peaceful.phase ≡ Signals.receiving
        → run_benchmark peaceful.heard new_session ≡ ret (continues, session peaceful))
run_benchmark-quiet_example = run_benchmark-quiet peaceful-Reach refl
