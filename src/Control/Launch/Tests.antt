-- ===== src/Control/Launch/Tests.antt =====
-- A command whose loop panics.
use etcd_cloud_benchmarking.Prelude.{
  ◌≡◌, ◌≢◌, ◌↔◌, ◌≤◌, ◌+◌, refl, true, false, none, some, [], ◌∷◌,
}
use etcd_cloud_benchmarking.Prelude.Int.{pos}
use etcd_cloud_benchmarking.Control.Config.Validate.{get_default_config}
use etcd_cloud_benchmarking.Control.Benchctl.{Global}
use etcd_cloud_benchmarking.Control.Session.Signals.{ended}
use etcd_cloud_benchmarking.Control.Session.Signals.Laws.{sender_owes}
use etcd_cloud_benchmarking.Control.Session.Signals.Tests.{interrupted, interrupted-Reach}
use etcd_cloud_benchmarking.Control.Launch.{
  Dial, connects, opens_stream, looks, sees_ready, closes, crashed, exits, run_command, loop_of,
  wait_ready, with_stream, with_client, run_benchmark_at, exit_of,
}
use etcd_cloud_benchmarking.Control.Session.{returns}
use etcd_cloud_benchmarking.Control.Launch.Connection.{IsConnected}
use etcd_cloud_benchmarking.Control.Launch.Laws.{CommandEnds, run_command-Ends}

abbrev initialised : Global
initialised = record { rg_seed = some (pos 1); ctl_config = some get_default_config }

-- a connection that is ready at the second look
abbrev pub answers : Dial
answers = record { client_err = none; stream_err = none; ready_at = false ∷ true ∷ [] }

pub answers-IsConnected : IsConnected answers
unfolding wait_ready
answers-IsConnected = (refl, refl, refl)

refused_at_stream :
    (run_command initialised
      (record answers { stream_err = some "unavailable" })
      (some (returns none)))
    ≡ record { acts = connects ∷ closes ∷ []; status = exits 1 }
unfolding run_command run_benchmark_at with_client exit_of
refused_at_stream = refl

finishes :
    run_command initialised answers (some (returns none))
    ≡ record { acts = connects ∷ opens_stream ∷ looks ∷ sees_ready ∷ closes ∷ []; status = exits 0 }
unfolding run_command run_benchmark_at with_client with_stream wait_ready exit_of
finishes = refl

run_command-Ends_example :
    CommandEnds initialised answers
      (loop_of interrupted.phase)
      (run_command initialised answers (loop_of interrupted.phase))
    × (((run_command initialised answers (loop_of interrupted.phase)).status ≡ exits 0) ↔ (
        (initialised.ctl_config ≢ none) × IsConnected answers × (interrupted.phase ≡ ended none)))
    × ((run_command initialised answers (loop_of interrupted.phase)).status ≡ exits 0
        → interrupted.shutdowns ≤ 1 + sender_owes interrupted.sender)
    × (((run_command initialised answers (loop_of interrupted.phase)).status ≡ crashed)
        ↔ ((initialised.ctl_config ≢ none) × IsConnected answers × (2 ≤ interrupted.closers)))
run_command-Ends_example = run_command-Ends initialised answers interrupted-Reach
