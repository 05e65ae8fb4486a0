-- ===== src/System/Whole.antt =====
-- From the configuration file of the control program to the exit code of `benchctl run`.
use etcd_cloud_benchmarking.Prelude.{
  ℕ, ◌*◌, ◌+◌, ◌≤◌, ◌<◌, ◌≡◌, refl, ap, ◌∙◌, true, Option, none, some, List, map, String, count_if,
  sym, subst,
}
use etcd_cloud_benchmarking.Prelude.Run.{ret}
use etcd_cloud_benchmarking.Prelude.Text.{Text}
use etcd_cloud_benchmarking.Control.Config.{BenchctlConfig}
use etcd_cloud_benchmarking.Control.Config.Validate.{Validator, Net, validate_config}
use etcd_cloud_benchmarking.Control.Durations.{Json, decode_config, read_config, read_config-valid}
use etcd_cloud_benchmarking.Control.Settings.{Library}
use etcd_cloud_benchmarking.Control.Benchctl
use etcd_cloud_benchmarking.Control.Benchctl.{load_config}
use etcd_cloud_benchmarking.Control.Benchctl.Reload.{from_file}
use etcd_cloud_benchmarking.Control.Launch.{Dial, exits, run_command, send_config_file, came_to}
use etcd_cloud_benchmarking.Control.Launch.Connection.{IsConnected}
use etcd_cloud_benchmarking.Control.Launch.Laws.{run_command-CommandEnds}
use etcd_cloud_benchmarking.Control.Session.{Session, Next, new_session, run_benchmark}
use etcd_cloud_benchmarking.Generator.Random.{Source}
use etcd_cloud_benchmarking.Generator.{Generator}
use etcd_cloud_benchmarking.Generator.Data.{Entry}
use etcd_cloud_benchmarking.Client.Schedule.Plan.{IsPlan}
use etcd_cloud_benchmarking.Client.Program.{World, generated, client}
use etcd_cloud_benchmarking.Client.Program.Completes.{is_result, IsSound}
use etcd_cloud_benchmarking.Client.Server
use etcd_cloud_benchmarking.Client.Server.{Server, is_ready, ctrl_stream}
use etcd_cloud_benchmarking.Client.Server.{Received}
use etcd_cloud_benchmarking.Client.Server.Process.{Process, new_process, exited, is_live}
use etcd_cloud_benchmarking.Client.Server.Process.Draining.{Runs}
use etcd_cloud_benchmarking.Client.Server.Process.Sequential.{
  Placed, ctrl_stream-Runs, Placed-exits,
}
use etcd_cloud_benchmarking.System.{new_server, received, sent_by}
use etcd_cloud_benchmarking.System.Laws.{benchmark_completes}

-- a configuration in memory stands in the file, and validates
pub loaded-valid :
    (j : Json) (l : Library) (v : Validator) (n : Net) (sys : Benchctl.System j.Bytes)
    (file : Option j.Bytes) (c : BenchctlConfig)
    → (load_config j l v n sys file).ctl_config ≡ some c
    → (b : j.Bytes) × (file ≡ some b)
      × (decode_config j b ≡ some c)
      × (validate_config v n c ≡ true)
unfolding read_config
loaded-valid j l v n sys none c h =
    let read = from_file j l v n sys none c h ∙ h in absurd (cc read)
loaded-valid j l v n sys (some b) c h =
    let (decoded, valid) = read_config-valid j v n b c (from_file j l v n sys (some b) c h ∙ h) in
    (b, refl, decoded, valid)

-- A stream that gets a file and Shutdown and returns, as a run of the client's process to its end.
client_exits :
    (unmarshal : Text → Option BenchctlConfig → Option BenchctlConfig × Option String) (i : ℕ)
    (rs : List (Received × Option String)) (e : Option String) (s : Server)
    → ctrl_stream unmarshal i rs new_server ≡ ret (Server.returns e, s)
    → s.term_closed ≡ true
    → (moves : ℕ) × (p : Process) × Runs unmarshal true new_process moves p
      × (p.main ≡ exited)
      × (p.server ≡ s)
unfolding is_live
client_exits unmarshal i rs e s returned shut =
    let (n, s₁, moves, q, got, runs, placed) =
      ctrl_stream-Runs unmarshal true i rs new_process refl refl (λ b j. refl) in
    let same : ret (n, s₁) ≡ ret (Server.returns e, s) = sym got ∙ returned in
    let ends : n ≡ Server.returns e = cc same in
    let there : s₁ ≡ s = cc same in
    let as_returned : Placed i new_process (Server.returns e) s q =
      subst (λ t. Placed i new_process (Server.returns e) t q) there
        (subst (λ m. Placed i new_process m s₁ q) ends placed) in
    Placed-exits unmarshal true (λ j. refl) runs as_returned shut

-- A benchmark from the file to the exit code. Let a process of the control program have loaded a
-- configuration, its connection get ready and the file be sent as it was read; let the client's
-- server decode it as the control program did, the numbers be below 2^62 and the steps take time, n
-- be the total duration over the step duration, rounded up, and the fuel above n; and let the data
-- be generated, no call of other code fail and load steps return. Then the server gets ready with
-- the loaded configuration; the client program shows n results; the control program exits with 0
-- after one Shutdown; and with what was sent, the file and that Shutdown, the stream of the server
-- returns no error, the termination channel is closed, and the client's process has a run that leaves
-- its server so and ends by the return of `main`.
pub benchctl_completes :
    (k : ℕ) (e : String) {R : Source} (c : BenchctlConfig) (w : World R)
    (total step initial more most n fuel : ℕ) (entries : List Entry) (g : Generator R) (i : ℕ)
    (unmarshal : Text → Option BenchctlConfig → Option BenchctlConfig × Option String) (j : Json)
    (content : j.Bytes → Text) (l : Library) (v : Validator) (net : Net)
    (sys : Benchctl.System j.Bytes) (file : Option j.Bytes) (d : Dial)
    → (load_config j l v net sys file).ctl_config ≡ some c
    → IsConnected d
    → ((b : j.Bytes) → decode_config j b ≡ some c → unmarshal (content b) none ≡ (some c, none))
    → IsPlan c total step initial more most
    → IsSound w
    → total ≤ n * step
    → n * step < total + step
    → n < fuel
    → generated R c w fuel ≡ ret (entries, g)
    → (b : j.Bytes) × (s : Server) × (s' : Server) × (t : Session) × (file ≡ some b)
      × (ctrl_stream unmarshal i
            (map (λ m. (m, none)) (send_config_file (some (content b)) none).1)
            new_server
          ≡ ret (Server.continues, s))
      × (is_ready s ≡ true)
      × (s.ctl_config ≡ some c)
      × (count_if is_result (client R c w fuel).events ≡ n)
      × (let loop = run_benchmark (received k e (client R c w fuel)) new_session in
          (loop ≡ ret (Next.returns none, t))
          × ((run_command (load_config j l v net sys file) d (came_to loop)).status ≡ exits 0))
      × (t.shutdowns ≡ 1)
      × (ctrl_stream unmarshal i (sent_by (content b) t) new_server ≡ ret (Server.returns none, s'))
      × (s'.term_closed ≡ true)
      × ((moves : ℕ) × (p : Process) × Runs unmarshal true new_process moves p
          × (p.main ≡ exited)
          × (p.server ≡ s'))
unfolding send_config_file
benchctl_completes k e c w total step initial more most n fuel entries g i unmarshal j content l v
      net sys file d loaded up decodes plan sound long_enough not_longer enough made =
    let (b, there, decoded, valid) = loaded-valid j l v net sys file c loaded in
    let (s, s', t, read, ready, same, returned, one, shown, closes, shut) =
      benchmark_completes k e c w total step initial more most n fuel v net entries g (content b) i
        unmarshal plan sound long_enough not_longer enough valid made (decodes b decoded) in
    let ends =
      run_command-CommandEnds (load_config j l v net sys file) d
        (came_to (run_benchmark (received k e (client _ c w fuel)) new_session)) in
    (
      b,
      s,
      s',
      t,
      there,
      read,
      ready,
      same,
      shown,
      (returned, ends.success_iff.1 ((λ x. cc (x, loaded)), up, ap came_to returned)),
      one,
      closes,
      shut,
      client_exits unmarshal i (sent_by (content b) t) none s' closes shut,
    )
