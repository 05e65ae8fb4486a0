-- ===== src/System/Laws.antt =====
-- The two programs end together.
use mathlib.Core.List.{append-nil}
use etcd_cloud_benchmarking.Prelude.{
  ℕ, zero, suc, ◌*◌, ◌+◌, ◌≤◌, ◌<◌, ◌≡◌, refl, sym, ap, ◌∙◌, true, false, Option, none, some, List,
  [], ◌∷◌, ◌++◌, All, String, subst, count_if,
}
use etcd_cloud_benchmarking.Prelude.Run.{ret}
use etcd_cloud_benchmarking.Prelude.Text.{Text}
use etcd_cloud_benchmarking.Control.Config.{BenchctlConfig}
use etcd_cloud_benchmarking.Control.Config.Validate.{Validator, Net, validate_config}
use etcd_cloud_benchmarking.Generator.Random.{Source}
use etcd_cloud_benchmarking.Generator.{Generator}
use etcd_cloud_benchmarking.Generator.Data.{Entry}
use etcd_cloud_benchmarking.Client.Schedule.Plan.{IsPlan}
use etcd_cloud_benchmarking.Client.Pool.{nothing_open}
use etcd_cloud_benchmarking.Client.Program.{
  Event, status, shows, closes, finished, Ending, value, exited, crashed, endless, Action, World,
  generated, client,
}
use etcd_cloud_benchmarking.Client.Program.Laws.{IsReport, Leaves, returns, stops, client-Leaves}
use etcd_cloud_benchmarking.Client.Program.Completes.{is_result, IsSound, client-completes}
use etcd_cloud_benchmarking.Client.Server
use etcd_cloud_benchmarking.Client.Server.{
  Server, is_ready, receive, settle, round, serve, ctrl_stream, open_stream, end_stream,
}
use etcd_cloud_benchmarking.Control.Session.{
  Reply, eof, config_response, unknown, recv_error, Session, Next, continues, new_session,
  run_benchmark,
}
use etcd_cloud_benchmarking.Control.Session.Ends.{ending, run_benchmark-ending}
use etcd_cloud_benchmarking.System.{
  new_server, replies, insert_answer, broken, received, many_shutdowns, sent_by,
}

-- the answer to the configuration file decides nothing
ending-insert_answer : (k : ℕ) (rs : List Reply) → ending (insert_answer k rs) ≡ ending rs
unfolding insert_answer
ending-insert_answer zero rs = refl
ending-insert_answer (suc k) [] = refl
ending-insert_answer (suc k) (eof ∷ rs) = refl
ending-insert_answer (suc k) (recv_error e ∷ rs) = refl
ending-insert_answer (suc k) (Reply.finished ∷ rs) = refl
ending-insert_answer (suc k) (Reply.status ∷ rs) = ending-insert_answer k rs
ending-insert_answer (suc k) (config_response ∷ rs) = ending-insert_answer k rs
ending-insert_answer (suc k) (unknown ∷ rs) = ending-insert_answer k rs

-- what status messages leave to decide
after_reports :
    (es more : List Event) (rs : List Reply)
    → All IsReport es
    → ending (replies (es ++ more) ++ rs) ≡ ending (replies more ++ rs)
unfolding replies
after_reports [] more rs h = refl
after_reports (status s ∷ es) more rs h = after_reports es more rs h.1
after_reports (shows r ∷ es) more rs h = after_reports es more rs h.1
after_reports (closes s ∷ es) more rs h = elim h.0 [ ]
after_reports (finished ∷ es) more rs h = elim h.0 [ ]

-- how a run of the client program ends for the control program: what runBenchmark returns, and the
-- number of Shutdowns
abbrev pub outcome {ℓ} : {A : Type ℓ} → String → Ending A → Next × ℕ
outcome e (value a) = (Next.returns none, 1)
outcome e exited = (Next.returns (some e), 0)
outcome e crashed = (Next.returns (some e), 0)
outcome e endless = (continues, 0)

only_reports :
    (es : List Event) (rs : List Reply) → All IsReport es → ending (replies es ++ rs) ≡ ending rs
unfolding replies
only_reports es rs h =
    ap (λ x. ending (replies x ++ rs)) (sym (append-nil es)) ∙ after_reports es [] rs h

module _ (k : ℕ) (e : String) where
  ending-received :
      {p : Action}
      → Leaves (closes nothing_open ∷ finished ∷ []) p
      → ending (received k e p) ≡ outcome e p.ending
  unfolding received broken replies
  ending-received (returns es rs a h eq) =
      ending-insert_answer k (replies es ++ [])
      ∙ ap (λ x. ending (replies x ++ [])) eq
      ∙ after_reports rs (closes nothing_open ∷ finished ∷ []) [] h
  ending-received (stops es (value a) n h) = absurd n
  ending-received (stops es exited n h) = ending-insert_answer k _ ∙ only_reports es _ h
  ending-received (stops es crashed n h) = ending-insert_answer k _ ∙ only_reports es _ h
  ending-received (stops es endless n h) = ending-insert_answer k _ ∙ only_reports es _ h

  -- Of any run of the client program, on any configuration and in any world, the control program,
  -- without an interrupt and with a configuration that can be sent, makes this, wherever among the
  -- messages the answer to the configuration comes: if the client program gets to its end,
  -- runBenchmark returns nil and sent one Shutdown; if it exits or panics, the error of Recv and
  -- none; if it does not end, it goes on waiting and sent none. It never panics.
  pub run_benchmark-client :
      (R : Source) (c : BenchctlConfig) (w : World R) (fuel : ℕ)
      → (let o = outcome e (client R c w fuel).ending in
          (t : Session) × (run_benchmark (received k e (client R c w fuel)) new_session
            ≡ ret (o.0, t))
          × (t.shutdowns ≡ o.1))
  run_benchmark-client R c w fuel =
      let same = ending-received (client-Leaves R c w fuel) in
      let (t, eq, n) = run_benchmark-ending (received k e (client R c w fuel)) in
      (t, eq ∙ ap (λ (o : Next × ℕ). ret (o.0, t)) same, n ∙ ap (λ (o : Next × ℕ). o.1) same)

  -- A benchmark ends on both sides. Let the server decode the configuration file, the configuration
  -- validate, its numbers be below 2^62 and its steps take time, n be the total duration over the
  -- step duration, rounded up, and the fuel above n; and let the data be generated, no call of other
  -- code fail and load steps return. Then the server gets ready with the configuration; the client
  -- program shows n results; the control program returns nil after one Shutdown; and with what it
  -- sent, the file and that Shutdown, the stream of the server returns no error and the termination
  -- channel is closed.
  pub benchmark_completes :
      {R : Source} (c : BenchctlConfig) (w : World R) (total step initial more most n fuel : ℕ)
      (v : Validator) (net : Net) (entries : List Entry) (g : Generator R) (file : Text) (i : ℕ)
      (unmarshal : Text → Option BenchctlConfig → Option BenchctlConfig × Option String)
      → IsPlan c total step initial more most
      → IsSound w
      → total ≤ n * step
      → n * step < total + step
      → n < fuel
      → validate_config v net c ≡ true
      → generated R c w fuel ≡ ret (entries, g)
      → unmarshal file none ≡ (some c, none)
      → (s : Server) × (s' : Server) × (t : Session) × (ctrl_stream unmarshal i
            ((Server.config_file file, none) ∷ [])
            new_server
          ≡ ret (Server.continues, s))
        × (is_ready s ≡ true)
        × (s.ctl_config ≡ some c)
        × (run_benchmark (received k e (client R c w fuel)) new_session
            ≡ ret (Next.returns none, t))
        × (t.shutdowns ≡ 1)
        × (count_if is_result (client R c w fuel).events ≡ n)
        × (ctrl_stream unmarshal i (sent_by file t) new_server ≡ ret (Server.returns none, s'))
        × (s'.term_closed ≡ true)
  unfolding sent_by ctrl_stream open_stream serve round receive settle end_stream is_ready
      Server.close_term
  benchmark_completes {R} c w total step initial more most n fuel v net entries g file i unmarshal
        plan sound long_enough not_longer enough valid made decoded =
      let (ends, shown) =
        client-completes c w total step initial more most n fuel plan sound long_enough not_longer
          enough v net entries g valid made in
      let (t, returned, shut) = run_benchmark-client R c w fuel in
      let ready : Server = record {
        keys = [];
        ctl_config = some c;
        curr_stream = some i;
        term_closed = false;
      } in
      let over : Server = record {
        keys = [];
        ctl_config = some c;
        curr_stream = none;
        term_closed = true;
      } in
      let one = shut ∙ ap (λ o. (outcome e o).1) ends in
      (
        ready,
        over,
        t,
        rw decoded refl,
        refl,
        refl,
        returned ∙ ap (λ o. ret ((outcome e o).0, t)) ends,
        one,
        shown,
        subst
            (λ m.
              ctrl_stream unmarshal i ((Server.config_file file, none) ∷ many_shutdowns m)
                new_server
              ≡ ret (Server.returns none, over))
            (sym one) (rw decoded refl),
        refl,
      )
