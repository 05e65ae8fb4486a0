-- ===== src/System/Network/Laws.antt =====
-- What goes between the two programs, and in which order.
use mathlib.Core.List.{append_assoc}
use etcd_cloud_benchmarking.Prelude.{
  ◌+◌, ◌≤◌, ◌≡◌, refl, sym, ap, ◌∙◌, true, Option, none, List, [], ◌∷◌, ◌++◌, String, count_if,
  count_if-append, arith,
}
use etcd_cloud_benchmarking.Prelude.Text.{Text}
use etcd_cloud_benchmarking.Control.Config.{BenchctlConfig}
use etcd_cloud_benchmarking.Control.Session.{Reply}
use etcd_cloud_benchmarking.Control.Session.Signals
use etcd_cloud_benchmarking.Control.Session.Signals.{Control, respond}
use etcd_cloud_benchmarking.Client.Program.{Action}
use etcd_cloud_benchmarking.Client.Server.{Received, receive}
use etcd_cloud_benchmarking.Client.Server.Process
use etcd_cloud_benchmarking.Client.Server.Process.{Process, counted, settled, wait_until_ready}
use etcd_cloud_benchmarking.System.Network.{
  Network, IsEnd, IsLoss, delivered, sent_in, answers, plan, heard_by, hears, Step, control_moves,
  control_hears, control_loses, process_moves, server_hears, server_loses, polls, reports,
  benchmark_fails, Reach, begun, later,
}
use etcd_cloud_benchmarking.System.Network.Messages.{
  is_shutdown, tells_end, is_finish, respond-same, settled-same, delivered-finish, polled-same,
  nothing_before, answers-end, own-same, local-same,
}

module _ (unmarshal : Text → Option BenchctlConfig → Option BenchctlConfig × Option String)
    (file : Text) (program : BenchctlConfig → Action) where
  -- Either program is in a state that it reaches by itself; no Shutdown arrives that was not sent,
  -- BenchmarkFinished is told only after the benchmark sent it, and the benchmark's messages are
  -- those of its program, in order.
  pub record Told (n : Network) : Type 0 where
    pub controls : Signals.Reach n.control
    pub processes : Process.Reach unmarshal true n.process
    pub asked : count_if is_shutdown n.to_server + n.process.closers ≤ n.control.shutdowns
    pub ended :
        count_if tells_end n.to_control + count_if tells_end n.control.heard
        ≤ count_if is_finish n.made
    pub planned : n.made ++ n.todo ≡ plan unmarshal file program n.process.started

  loses-Told :
      (n : Network) (r : Reply)
      → IsLoss r
      → n.control.phase ≡ Signals.receiving
      → Told n
      → Told (record n { control = hears unmarshal file program r n.control })
  loses-Told n r loss e t =
      let (more, heard) = respond-same r (record n.control { heard = n.control.heard ++ r ∷ [] }) in
      record {
        controls = Signals.later t.controls (Signals.receive r e);
        processes = t.processes;
        asked = omega (arith, t.asked, more);
        ended = omega (
          arith,
          t.ended,
          ap (count_if tells_end) heard,
          count_if-append tells_end n.control.heard (r ∷ []),
          is_lost r loss,
        );
        planned = t.planned;
      }
    where
      is_lost : (r : Reply) → IsLoss r → count_if tells_end (r ∷ []) ≡ 0
      is_lost Reply.eof h = refl
      is_lost (Reply.recv_error e) h = refl
      is_lost Reply.status h = refl
      is_lost Reply.config_response h = refl
      is_lost Reply.finished h = absurd h
      is_lost Reply.unknown h = refl

  heard-Told :
      (n : Network) (r : Received) (sent : Option String) (rs : List Received)
      → Process.Reach unmarshal true (heard_by unmarshal file program r sent n.process)
      → count_if is_shutdown n.to_server ≡ count_if is_shutdown rs + count_if is_shutdown (r ∷ [])
      → Told n
      → Told (record n {
        process = heard_by unmarshal file program r sent n.process;
        to_server = rs;
        to_control = n.to_control ++ answers unmarshal file program r sent n.process.server;
      })
  heard-Told n r sent rs reach left t =
      let (more, started) = settled-same r (receive unmarshal r sent n.process.server) n.process in
      record {
        controls = t.controls;
        processes = reach;
        asked = omega (arith, t.asked, more, left);
        ended = omega (
          arith,
          t.ended,
          count_if-append tells_end n.to_control
              (answers unmarshal file program r sent n.process.server),
          answers-end unmarshal file program r sent n.process.server,
        );
        planned = t.planned ∙ ap (plan unmarshal file program) (sym started);
      }

  -- a Recv that came to its end without a message
  unheard-Told :
      (n : Network) (r : Received)
      → IsEnd r
      → Process.Reach unmarshal true (heard_by unmarshal file program r none n.process)
      → Told n
      → Told (record n { process = heard_by unmarshal file program r none n.process })
  unheard-Told n r end reach t =
      let (more, started) = settled-same r (receive unmarshal r none n.process.server) n.process in
      record {
        controls = t.controls;
        processes = reach;
        asked = omega (arith, t.asked, more, not_shutdown r end);
        ended = t.ended;
        planned = t.planned ∙ ap (plan unmarshal file program) (sym started);
      }
    where
      not_shutdown : (r : Received) → IsEnd r → count_if is_shutdown (r ∷ []) ≡ 0
      not_shutdown Received.eof h = refl
      not_shutdown (Received.recv_error e) h = refl
      not_shutdown Received.shutdown h = absurd h
      not_shutdown Received.other h = absurd h
      not_shutdown (Received.config_file b) h = absurd h

  Step-Told : {n m : Network} → Step unmarshal file program n m → Told n → Told m
  Step-Told {n} (control_moves mv own) t =
      let (more, heard) = own-same unmarshal file program mv own in
      record {
        controls = Signals.later t.controls mv;
        processes = t.processes;
        asked = omega (
          arith,
          t.asked,
          more,
          count_if-append is_shutdown n.to_server (sent_in unmarshal file program mv),
        );
        ended = omega (arith, t.ended, ap (count_if tells_end) heard);
        planned = t.planned;
      }
  Step-Told {n} (control_hears r rs e ph) t =
      let (more, heard) = respond-same r (record n.control { heard = n.control.heard ++ r ∷ [] }) in
      record {
        controls = Signals.later t.controls (Signals.receive r ph);
        processes = t.processes;
        asked = omega (arith, t.asked, more);
        ended = omega (
          arith,
          t.ended,
          ap (count_if tells_end) heard,
          count_if-append tells_end n.control.heard (r ∷ []),
          ap (count_if tells_end) e,
        );
        planned = t.planned;
      }
  Step-Told {n} (control_loses r loss ph) t = loses-Told n r loss ph t
  Step-Told {n} (process_moves mv own) t =
      let (closers, started) = local-same unmarshal file program mv own in
      record {
        controls = t.controls;
        processes = Process.later t.processes mv;
        asked = omega (arith, t.asked, closers);
        ended = t.ended;
        planned = t.planned ∙ ap (plan unmarshal file program) (sym started);
      }
  Step-Told {n} (server_hears r rs sent e u s) t =
      heard-Told n r sent rs (Process.later t.processes (Process.recv_returns 0 r sent u s))
        (omega (arith, ap (count_if is_shutdown) e)) t
  Step-Told {n} (server_loses r end u s) t =
      unheard-Told n r end (Process.later t.processes (Process.recv_returns 0 r none u s)) t
  Step-Told {n} (polls u fresh) t =
      let (closers, _) = polled-same n.process fresh in
      let nothing : n.made ≡ [] =
        nothing_before n.made n.todo (t.planned ∙ ap (plan unmarshal file program) fresh) in
      record {
        controls = t.controls;
        processes = Process.later t.processes (Process.poll u fresh);
        asked = omega (arith, t.asked, closers);
        ended = t.ended;
        planned =
            ap (λ es. es ++ plan unmarshal file program (wait_until_ready n.process).started)
              nothing;
      }
  Step-Told {n} (reports e es arrives there u) t = record {
    controls = t.controls;
    processes = t.processes;
    asked = t.asked;
    ended = omega (
      arith,
      t.ended,
      count_if-append tells_end n.to_control (delivered arrives e n.process.server),
      delivered-finish arrives e n.process.server,
      count_if-append is_finish n.made (e ∷ []),
    );
    planned = append_assoc n.made (e ∷ []) es ∙ ap (λ l. n.made ++ l) (sym there) ∙ t.planned;
  }
  Step-Told {n} (benchmark_fails c started done how u) t = record {
    controls = t.controls;
    processes = Process.later t.processes (Process.benchmark_fails c u started);
    asked = t.asked;
    ended = t.ended;
    planned = t.planned;
  }

  pub Reach-Told : {n : Network} → Reach unmarshal file program n → Told n
  Reach-Told begun = record {
    controls = Signals.begun;
    processes = Process.begun;
    asked = omega arith;
    ended = omega arith;
    planned = refl;
  }
  Reach-Told (later r s) = Step-Told s (Reach-Told r)
