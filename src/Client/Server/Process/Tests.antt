-- ===== src/Client/Server/Process/Tests.antt =====
-- The theorems about the process of the benchmark client at concrete runs.
use native.Mathlib.Decide.{ℕ_discrete}
use etcd_cloud_benchmarking.Prelude.{
  ℕ, ◌+◌, ◌*◌, ◌≤◌, ◌⊎◌, inr, ◌≡◌, ◌≢◌, inl, refl, true, false, Option, none, some, List, [], ◌∷◌,
  String, arith,
}
use etcd_cloud_benchmarking.Prelude.Text.{Text}
use etcd_cloud_benchmarking.Control.Config.{BenchctlConfig}
use etcd_cloud_benchmarking.Control.Config.Validate.{get_default_config}
use etcd_cloud_benchmarking.Prelude.Run.{ret}
use etcd_cloud_benchmarking.Client.Server.{
  Server, Next, Received, other, ctrl_stream, shutdown, config_file, open_stream, end_stream,
  close_term, configured, receive, is_ready,
}
use etcd_cloud_benchmarking.Client.Server.Process.{
  Stream, new_process, unopened, selecting, receiving, ended, leaving, serving, draining, drain,
  crashed, Process, is_live, wait_until_ready, moved, open_new, take_term, take_default,
  recv_returns, leave, poll, Reach, begun, later,
}
use etcd_cloud_benchmarking.Client.Server.Process.Laws.{Holds, process-Holds}
use etcd_cloud_benchmarking.Client.Server.Process.Effort.{Quiet, live_below}
use etcd_cloud_benchmarking.Client.Server.Process.Draining.{Runs, here, then_moves, IsOver}
use etcd_cloud_benchmarking.Client.Server.Process.Graceful.{CanGoOn, graceful_stop-ends}
use etcd_cloud_benchmarking.Client.Server.Process.Sequential.{Placed, ctrl_stream-Runs}
use etcd_cloud_benchmarking.Client.Server.Process.Exclusive.{exclusive_streams_never_panic}

abbrev pub any_file : Text → Option BenchctlConfig → Option BenchctlConfig × Option String
any_file b c = (some get_default_config, none)

-- one control program: it sends the file and Shutdown, then another connects
abbrev first_streams : ℕ → Stream
first_streams = moved 0 ended (
    moved 0 (leaving none) (
      moved 0 selecting (
        moved 0 receiving
          (moved 0 selecting (moved 0 receiving (moved 0 selecting (λ i. unopened)))))))

abbrev reconnected : Process
reconnected = record {
  server = record {
    keys = [];
    ctl_config = some get_default_config;
    curr_stream = some 1;
    term_closed = true;
  };
  streams = moved 1 selecting first_streams;
  main = serving;
  started = some get_default_config;
  closers = 1;
  files = 1;
}

first_streams-ended : (j : ℕ) → is_live (first_streams j) ≡ false
unfolding is_live
first_streams-ended j = elim (ℕ_discrete 0 j) [ yes same ↦ ground arith | no differ ↦ ground arith ]

reconnected-Reach : Reach any_file true reconnected
unfolding receive configured close_term open_stream end_stream is_ready is_live wait_until_ready
    ℕ_discrete
reconnected-Reach =
    later
      (later
        (later
          (later
            (later
              (later
                (later
                  (later (later begun (open_new 0 refl refl (λ x j. refl)))
                    (take_default 0 (inl refl) refl refl))
                  (recv_returns 0 (config_file []) none (inl refl) refl))
                (poll (inl refl) refl))
              (take_default 0 (inl refl) refl refl))
            (recv_returns 0 shutdown none (inl refl) refl))
          (take_term 0 (inl refl) refl refl))
        (leave 0 none (inl refl) refl))
      (open_new 1 refl refl (λ x. first_streams-ended))

exclusive_streams_never_panic_example : reconnected.main ≢ crashed
exclusive_streams_never_panic_example = exclusive_streams_never_panic any_file reconnected-Reach

-- two control programs that both send Shutdown
abbrev shut_twice : Process
shut_twice = record {
  server = record { keys = []; ctl_config = none; curr_stream = some 1; term_closed = true };
  streams = moved 0 selecting (
      moved 1 receiving
        (moved 0 receiving (moved 1 selecting (moved 0 selecting (λ i. unopened)))));
  main = crashed;
  started = none;
  closers = 2;
  files = 0;
}

shut_twice-Reach : Reach any_file false shut_twice
unfolding receive configured close_term open_stream end_stream is_ready is_live wait_until_ready
    ℕ_discrete
shut_twice-Reach =
    later
      (later
        (later
          (later
            (later (later begun (open_new 0 refl refl (λ x. cc))) (open_new 1 refl refl (λ x. cc)))
            (take_default 0 (inl refl) refl refl))
          (take_default 1 (inl refl) refl refl))
        (recv_returns 0 shutdown none (inl refl) refl))
      (recv_returns 1 shutdown none (inl refl) refl)

process-Holds_example : Holds shut_twice
process-Holds_example = process-Holds any_file shut_twice-Reach

-- one control program sent Shutdown while another waits in Recv
abbrev draining_process : Process
draining_process = record {
  server = record { keys = []; ctl_config = none; curr_stream = some 1; term_closed = true };
  streams = moved 0 selecting (
      moved 1 receiving
        (moved 0 receiving (moved 1 selecting (moved 0 selecting (λ i. unopened)))));
  main = draining;
  started = none;
  closers = 1;
  files = 0;
}

draining-Reach : Reach any_file false draining_process
unfolding receive configured close_term open_stream end_stream is_ready is_live wait_until_ready
    ℕ_discrete
draining-Reach =
    later
      (later
        (later
          (later
            (later (later begun (open_new 0 refl refl (λ x. cc))) (open_new 1 refl refl (λ x. cc)))
            (take_default 0 (inl refl) refl refl))
          (take_default 1 (inl refl) refl refl))
        (recv_returns 0 shutdown none (inl refl) refl))
      (drain refl refl)

-- the handler that was shut down returns
abbrev left_one : Process
left_one = record draining_process {
  server = end_stream draining_process.server;
  streams = moved 0 ended (moved 0 (leaving none) draining_process.streams);
}

left_one-Runs : Runs any_file false draining_process 2 left_one
unfolding ℕ_discrete end_stream
left_one-Runs =
    then_moves (then_moves here (take_term 0 (inr refl) refl refl)) (leave 0 none (inr refl) refl)

graceful_stop-ends_example :
    ((n : ℕ) × Quiet n draining_process.streams
      × (2 ≤ 3 * live_below n draining_process.streams + 1))
    × (CanGoOn any_file false left_one ⊎ IsOver any_file left_one.main)
graceful_stop-ends_example = graceful_stop-ends any_file draining-Reach refl left_one-Runs

-- a control program whose first message is unknown, and that shuts down
abbrev arrivals : List (Received × Option String)
arrivals = (other, none) ∷ (config_file [], none) ∷ (shutdown, none) ∷ []

ctrl_stream-Runs_example :
    (n : Next) × (s : Server) × (k : ℕ) × (q : Process) × (ctrl_stream any_file 3 arrivals
        new_process.server
      ≡ ret (n, s))
    × Runs any_file true new_process k q
    × Placed 3 new_process n s q
unfolding is_live
ctrl_stream-Runs_example =
    ctrl_stream-Runs any_file true 3 arrivals new_process refl refl (λ b j. refl)
