-- ===== src/System/Network.antt =====
-- client/main.go, client/grpc/server.go and control/cmd/run.go: the process of the control program
-- and that of the benchmark client with the messages that are under way between them, in steps. One
-- control program is connected, by one stream; grpc keeps the order of its messages, and may lose
-- the connection at any time.
pub mod Messages
pub mod Laws
pub mod Graceful
pub mod Tests
use etcd_cloud_benchmarking.Prelude.{
  ℕ, ◌==◌, ◌≡◌, ◌⊎◌, Bool, true, false, Option, none, some, List, [], ◌∷◌, ◌++◌, String,
  if◌then◌else◌,
}
use etcd_cloud_benchmarking.Prelude.Text.{Text}
use etcd_cloud_benchmarking.Control.Config.{BenchctlConfig}
use etcd_cloud_benchmarking.Control.Session
use etcd_cloud_benchmarking.Control.Session.{Reply, config_response}
use etcd_cloud_benchmarking.Control.Session.Signals
use etcd_cloud_benchmarking.Control.Session.Signals.{Control, start, respond}
use etcd_cloud_benchmarking.Client.Program.{Event, Action, exited, crashed}
use etcd_cloud_benchmarking.Client.Server.{Server, Received, shutdown, config_file, receive}
use etcd_cloud_benchmarking.Client.Server.Process
use etcd_cloud_benchmarking.Client.Server.Process.{
  Process, new_process, IsUp, counted, settled, wait_until_ready,
}
use etcd_cloud_benchmarking.System.{replies}

-- both processes, the messages under way in either direction, and the messages that the benchmark's
-- goroutine has still to send and that it has sent
pub record Network : Type 0 where
  pub control : Control
  pub process : Process
  pub to_server : List Received
  pub to_control : List Reply
  pub todo : List Event
  pub made : List Event

abbrev pub start_network : Network
start_network = record {
  control = start;
  process = new_process;
  to_server = [];
  to_control = [];
  todo = [];
  made = [];
}

-- what ends a stream without a message
abbrev pub IsEnd : Received → Type 0
IsEnd Received.eof = Unit
IsEnd (Received.recv_error e) = Unit
IsEnd Received.shutdown = ⊥
IsEnd Received.other = ⊥
IsEnd (Received.config_file b) = ⊥

abbrev pub IsLoss : Reply → Type 0
IsLoss Reply.eof = Unit
IsLoss (Reply.recv_error e) = Unit
IsLoss Reply.status = ⊥
IsLoss Reply.config_response = ⊥
IsLoss Reply.finished = ⊥
IsLoss Reply.unknown = ⊥

-- a message of the benchmark on the current stream, unless it gets lost
unfoldable pub delivered : Bool → Event → Server → List Reply
delivered arrives e s = elim s.curr_stream [
  | none ↦ []
  | some i ↦ if arrives then replies (e ∷ []) else []
]

module _ (unmarshal : Text → Option BenchctlConfig → Option BenchctlConfig × Option String)
    (file : Text) (program : BenchctlConfig → Action) where
  -- what a move of the control program sends; a Recv is a step of its own
  abbrev pub sent_in : {s t : Control} → Signals.Move s t → List Received
  sent_in (Signals.signal l) = []
  sent_in (Signals.take_signal e x) = []
  sent_in (Signals.take_term e c) = []
  sent_in (Signals.take_default e x c) = []
  sent_in (Signals.receive r e) = []
  sent_in (Signals.send_shutdown e) = shutdown ∷ []
  sent_in (Signals.close_channel e) = []
  sent_in (Signals.send_file l f) = config_file file ∷ []
  sent_in (Signals.send_fails l f) = []
  sent_in (Signals.sender_shutdown l f) = shutdown ∷ []
  sent_in (Signals.sender_closes l f) = []
  sent_in (Signals.end_process w e) = []

  abbrev pub IsOwn : {s t : Control} → Signals.Move s t → Type 0
  IsOwn (Signals.signal l) = Unit
  IsOwn (Signals.take_signal e x) = Unit
  IsOwn (Signals.take_term e c) = Unit
  IsOwn (Signals.take_default e x c) = Unit
  IsOwn (Signals.receive r e) = ⊥
  IsOwn (Signals.send_shutdown e) = Unit
  IsOwn (Signals.close_channel e) = Unit
  IsOwn (Signals.send_file l f) = Unit
  IsOwn (Signals.send_fails l f) = Unit
  IsOwn (Signals.sender_shutdown l f) = Unit
  IsOwn (Signals.sender_closes l f) = Unit
  IsOwn (Signals.end_process w e) = Unit

  -- the moves of the client's process that no message and no benchmark has a part in
  abbrev pub IsLocal : {p q : Process} → Process.Move unmarshal true p q → Type 0
  IsLocal (Process.open_new i e s alone) = i ≡ 0
  IsLocal (Process.take_term i u s t) = Unit
  IsLocal (Process.take_default i u s t) = Unit
  IsLocal (Process.recv_returns i r sent u s) = ⊥
  IsLocal (Process.leave i e u s) = Unit
  IsLocal (Process.poll u n) = ⊥
  IsLocal (Process.benchmark_fails c u s) = ⊥
  IsLocal (Process.interrupt e) = Unit
  IsLocal (Process.drain e t) = Unit
  IsLocal (Process.drained e n) = Unit

  -- what CTRLStream answers
  unfoldable pub answers : Received → Option String → Server → List Reply
  answers (Received.config_file b) none s = elim ((unmarshal b s.ctl_config).1) [
    | none ↦ config_response ∷ []
    | some e ↦ []
  ]
  answers (Received.config_file b) (some e) s = []
  answers Received.eof sent s = []
  answers Received.shutdown sent s = []
  answers Received.other sent s = []
  answers (Received.recv_error e) sent s = []

  -- the messages of the benchmark that a configuration starts
  abbrev pub plan : Option BenchctlConfig → List Event
  plan none = []
  plan (some c) = (program c).events

  -- a handler that got a result of Recv
  abbrev pub heard_by : Received → Option String → Process → Process
  heard_by r sent p = settled 0 (receive unmarshal r sent p.server) (counted r p)

  abbrev pub hears : Reply → Control → Control
  hears r c = respond r (record c { heard = c.heard ++ r ∷ [] })

  pub data Step (n : Network) : Network → Type 0 where
    control_moves :
        {c : Control} (m : Signals.Move n.control c)
        → IsOwn m
        → Step n (record n { control = c; to_server = n.to_server ++ sent_in m })
    control_hears :
        (r : Reply) (rs : List Reply)
        → n.to_control ≡ r ∷ rs
        → n.control.phase ≡ Signals.receiving
        → Step n (record n { control = hears r n.control; to_control = rs })
    control_loses :
        (r : Reply)
        → IsLoss r
        → n.control.phase ≡ Signals.receiving
        → Step n (record n { control = hears r n.control })
    process_moves :
        {p : Process} (m : Process.Move unmarshal true n.process p)
        → IsLocal m
        → Step n (record n { process = p })
    server_hears :
        (r : Received) (rs : List Received) (sent : Option String)
        → n.to_server ≡ r ∷ rs
        → IsUp n.process.main
        → n.process.streams 0 ≡ Process.receiving
        → Step n (record n {
          process = heard_by r sent n.process;
          to_server = rs;
          to_control = n.to_control ++ answers r sent n.process.server;
        })
    server_loses :
        (r : Received)
        → IsEnd r
        → IsUp n.process.main
        → n.process.streams 0 ≡ Process.receiving
        → Step n (record n { process = heard_by r none n.process })
    polls :
        IsUp n.process.main
        → n.process.started ≡ none
        → Step n (record n {
          process = wait_until_ready n.process;
          todo = plan (wait_until_ready n.process).started;
        })
    reports :
        (e : Event) (es : List Event) (arrives : Bool)
        → n.todo ≡ e ∷ es
        → IsUp n.process.main
        → Step n (record n {
          todo = es;
          made = n.made ++ e ∷ [];
          to_control = n.to_control ++ delivered arrives e n.process.server;
        })
    benchmark_fails :
        (c : BenchctlConfig)
        → n.process.started ≡ some c
        → n.todo ≡ []
        → ((program c).ending ≡ exited) ⊎ ((program c).ending ≡ crashed)
        → IsUp n.process.main
        → Step n (record n { process = record n.process { main = Process.failed } })

  pub data Reach : Network → Type 0 where
    begun : Reach start_network
    later : {n m : Network} → Reach n → Step n m → Reach m
