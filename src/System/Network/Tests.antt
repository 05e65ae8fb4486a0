-- ===== src/System/Network/Tests.antt =====
-- A run of both programs to GracefulStop.
use native.Mathlib.Decide.{ℕ_discrete}
use etcd_cloud_benchmarking.Prelude.{◌≤◌, ◌≡◌, inl, refl, true, false, none, some, [], ◌∷◌}
use etcd_cloud_benchmarking.Control.Config.{BenchctlConfig}
use etcd_cloud_benchmarking.Control.Config.Validate.{get_default_config}
use etcd_cloud_benchmarking.Control.Session.{Reply}
use etcd_cloud_benchmarking.Control.Session.Signals
use etcd_cloud_benchmarking.Control.Session.Signals.{respond, send_file}
use etcd_cloud_benchmarking.Client.Pool.{nothing_open}
use etcd_cloud_benchmarking.Client.Program.{Event, Action, value}
use etcd_cloud_benchmarking.Client.Program.Laws.{returns}
use etcd_cloud_benchmarking.Client.Server.{
  shutdown, config_file, open_stream, close_term, configured, receive, is_ready,
}
use etcd_cloud_benchmarking.Client.Server.Process.{
  unopened, draining, is_live, wait_until_ready, moved, open_new, drain,
}
use etcd_cloud_benchmarking.Client.Server.Process
use etcd_cloud_benchmarking.Client.Server.Process.Tests.{any_file}
use etcd_cloud_benchmarking.System.{replies}
use etcd_cloud_benchmarking.System.Network.{
  Network, delivered, answers, control_moves, control_hears, process_moves, server_hears, polls,
  reports, Reach, begun, later,
}
use etcd_cloud_benchmarking.System.Network.Graceful.{network_completes}

-- a benchmark without load steps
abbrev no_steps : BenchctlConfig → Action
no_steps c = record { events = Event.closes nothing_open ∷ Event.finished ∷ []; ending = value tt }

abbrev over : Network
over = record {
  control = record {
    phase = Signals.selecting;
    sender = Signals.over;
    signalled = false;
    term_closed = true;
    shutdowns = 1;
    closers = 1;
    heard = Reply.config_response ∷ Reply.finished ∷ [];
    disturbed = false;
  };
  process = record {
    server = record {
      keys = [];
      ctl_config = some get_default_config;
      curr_stream = some 0;
      term_closed = true;
    };
    streams = moved 0 Process.selecting (
        moved 0 Process.receiving (
          moved 0 Process.selecting
            (moved 0 Process.receiving (moved 0 Process.selecting (λ i. unopened)))));
    main = draining;
    started = some get_default_config;
    closers = 1;
    files = 1;
  };
  to_server = [];
  to_control = [];
  todo = [];
  made = Event.closes nothing_open ∷ Event.finished ∷ [];
}

over-Reach : Reach any_file [] no_steps over
unfolding receive configured close_term open_stream is_ready is_live wait_until_ready ℕ_discrete
    respond Signals.close_term delivered answers replies
over-Reach =
    let opened = later begun (process_moves (open_new 0 refl refl (λ x j. refl)) refl) in
    let waiting = later opened (process_moves (Process.take_default 0 (inl refl) refl refl) tt) in
    let asked = later waiting (control_moves (send_file tt refl) tt) in
    let configured = later asked (server_hears (config_file []) [] none refl (inl refl) refl) in
    let started = later configured (polls (inl refl) refl) in
    let closed =
      later started
        (reports (Event.closes nothing_open) (Event.finished ∷ []) true refl (inl refl)) in
    let told = later closed (reports Event.finished [] true refl (inl refl)) in
    let listens = later told (control_moves (Signals.take_default refl refl refl) tt) in
    let answered =
      later listens (control_hears Reply.config_response (Reply.finished ∷ []) refl refl) in
    let again = later answered (control_moves (Signals.take_default refl refl refl) tt) in
    let ended = later again (control_hears Reply.finished [] refl refl) in
    let sent = later ended (control_moves (Signals.send_shutdown refl) tt) in
    let stopped = later sent (control_moves (Signals.close_channel refl) tt) in
    let ready = later stopped (process_moves (Process.take_default 0 (inl refl) refl refl) tt) in
    let shut = later ready (server_hears shutdown [] none refl (inl refl) refl) in
    later shut (process_moves (drain refl refl) tt)

network_completes_example :
    (c : BenchctlConfig) × (over.process.started ≡ some c)
    × (1 ≤ over.process.files)
    × ((no_steps c).ending ≡ value tt)
    × (over.made ≡ (no_steps c).events)
    × (over.todo ≡ [])
network_completes_example =
    network_completes any_file [] no_steps
      (λ c. returns (Event.closes nothing_open ∷ Event.finished ∷ []) [] tt tt refl) over-Reach
      (inl refl) refl
