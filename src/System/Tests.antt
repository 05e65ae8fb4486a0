-- ===== src/System/Tests.antt =====
-- The two programs together on a concrete benchmark.
use etcd_cloud_benchmarking.Prelude.{
  ℕ, count_if, ◌*◌, ◌≡◌, refl, true, Option, none, some, map, String, arith,
}
use etcd_cloud_benchmarking.Prelude.Run.{ret}
use etcd_cloud_benchmarking.Prelude.Text.{Text, codes}
use etcd_cloud_benchmarking.Control.Config.{BenchctlConfig}
use etcd_cloud_benchmarking.Control.Config.Validate.{minute}
use etcd_cloud_benchmarking.Control.Tests.{plain, no_net, small, small_valid}
use etcd_cloud_benchmarking.Generator.Tests.{counting, sample, two_keys_left}
use etcd_cloud_benchmarking.Client.Program.{Action, client}
use etcd_cloud_benchmarking.Client.Program.Tests.{
  takes_everything, takes_everything-IsSound, small-IsPlan, small-generated,
}
use etcd_cloud_benchmarking.Client.Program.Completes.{is_result}
use etcd_cloud_benchmarking.Client.Server
use etcd_cloud_benchmarking.Client.Server.{Server, is_ready, ctrl_stream}
use etcd_cloud_benchmarking.Control.Session.{Session, Next, new_session, run_benchmark}
use etcd_cloud_benchmarking.Client.Server.Process.{Process, new_process, exited}
use etcd_cloud_benchmarking.Client.Server.Process.Draining.{Runs}
use etcd_cloud_benchmarking.System.{new_server, received, sent_by}
use etcd_cloud_benchmarking.System.Laws.{outcome, run_benchmark-client}
use etcd_cloud_benchmarking.System.Whole.{benchctl_completes}
use etcd_cloud_benchmarking.Control.Benchctl
use etcd_cloud_benchmarking.Control.Benchctl.Tests.{Doc, docs, narrow, sound}
use etcd_cloud_benchmarking.Control.Durations.{marshal_config, read_config-marshal_config}
use etcd_cloud_benchmarking.Control.Launch.{exits, run_command, send_config_file, came_to}
use etcd_cloud_benchmarking.Control.Launch.Tests.{answers, answers-IsConnected}

-- every file holds the small configuration
abbrev decode : Text → Option BenchctlConfig → Option BenchctlConfig × Option String
decode file c = (some small, none)

abbrev small_run : Action
small_run = client counting small takes_everything 40

run_benchmark-client_example :
    (let o = outcome "reset" small_run.ending in
      (t : Session) × (run_benchmark (received 2 "reset" small_run) new_session ≡ ret (o.0, t))
      × (t.shutdowns ≡ o.1))
run_benchmark-client_example = run_benchmark-client 2 "reset" counting small takes_everything 40

-- the file that WriteConfig makes of the small configuration
abbrev written : Option Doc
written = some (marshal_config docs small)

small_loaded : (Benchctl.load_config docs narrow plain no_net sound written).ctl_config ≡ some small
unfolding Benchctl.load_config
small_loaded = rw (read_config-marshal_config docs plain no_net small small_valid) refl

benchctl_completes_example :
    (b : Doc) × (s : Server) × (s' : Server) × (t : Session) × (written ≡ some b)
    × (ctrl_stream decode 7
          (map (λ m. (m, none)) (send_config_file (some (codes "{}")) none).1)
          new_server
        ≡ ret (Server.continues, s))
    × (is_ready s ≡ true)
    × (s.ctl_config ≡ some small)
    × (count_if is_result small_run.events ≡ 30)
    × (let loop = run_benchmark (received 2 "reset" small_run) new_session in
        (loop ≡ ret (Next.returns none, t))
        × ((run_command
              (Benchctl.load_config docs narrow plain no_net sound written)
              answers
              (came_to loop)).status
            ≡ exits 0))
    × (t.shutdowns ≡ 1)
    × (ctrl_stream decode 7 (sent_by (codes "{}") t) new_server ≡ ret (Server.returns none, s'))
    × (s'.term_closed ≡ true)
    × ((moves : ℕ) × (p : Process) × Runs decode true new_process moves p
        × (p.main ≡ exited)
        × (p.server ≡ s'))
benchctl_completes_example =
    benchctl_completes 2 "reset" small takes_everything (30 * minute) minute 5 5 100 30 40 sample
      two_keys_left 7 decode docs (λ b. codes "{}") narrow plain no_net sound written answers
      small_loaded answers-IsConnected (λ b h. refl) small-IsPlan takes_everything-IsSound
      (omega arith) (omega arith) (omega arith) small-generated
