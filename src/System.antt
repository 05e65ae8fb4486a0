-- ===== src/System.antt =====
-- client/main.go, client/grpc/server.go and control/cmd/run.go together: what the control program
-- receives of a run of the client program, and what it sends to the client's server. One control
-- program is connected, and its stream stays the current one of the server.
pub mod Laws
pub mod Whole
pub mod Network
pub mod Tests
use etcd_cloud_benchmarking.Prelude.{
  ℕ, zero, suc, false, Option, none, some, List, [], ◌∷◌, ◌++◌, String,
}
use etcd_cloud_benchmarking.Prelude.Text.{Text}
use etcd_cloud_benchmarking.Client.Program.{
  Event, status, shows, closes, finished, Ending, value, exited, crashed, endless, Action,
}
use etcd_cloud_benchmarking.Client.Server.{Server, Received, config_file, shutdown}
use etcd_cloud_benchmarking.Control.Session
use etcd_cloud_benchmarking.Control.Session.{Reply, config_response, recv_error, Session}

-- `NewBenchmarkServiceServer`
abbrev pub new_server : Server
new_server = record { keys = []; ctl_config = none; curr_stream = none; term_closed = false }

-- the messages of a run, by their payloads
unfoldable pub replies : List Event → List Reply
replies [] = []
replies (status s ∷ es) = Reply.status ∷ replies es
replies (shows r ∷ es) = Reply.status ∷ replies es
replies (closes s ∷ es) = replies es
replies (finished ∷ es) = Reply.finished ∷ replies es

-- the server answers the configuration file while the benchmark has begun: after `k` messages
unfoldable pub insert_answer : ℕ → List Reply → List Reply
insert_answer zero rs = config_response ∷ rs
insert_answer (suc k) [] = config_response ∷ []
insert_answer (suc k) (r ∷ rs) = r ∷ insert_answer k rs

-- a program that exits or panics breaks the connection
unfoldable pub broken {ℓ} : {A : Type ℓ} → String → Ending A → List Reply
broken e (value a) = []
broken e exited = recv_error e ∷ []
broken e crashed = recv_error e ∷ []
broken e endless = []

-- what `stream.Recv` of the control program returns, one after the other
unfoldable pub received : ℕ → String → Action → List Reply
received k e p = insert_answer k (replies p.events ++ broken e p.ending)

many_shutdowns : ℕ → List (Received × Option String)
many_shutdowns zero = []
many_shutdowns (suc n) = (shutdown, none) ∷ many_shutdowns n

-- what the server receives of a control program: the file, then Shutdown as often as it was sent
unfoldable pub sent_by : Text → Session → List (Received × Option String)
unfolding many_shutdowns
sent_by file t = (config_file file, none) ∷ many_shutdowns t.shutdowns
