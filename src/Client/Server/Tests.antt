-- ===== src/Client/Server/Tests.antt =====
-- The theorems about the control stream at concrete servers.
use etcd_cloud_benchmarking.Prelude.{◌≡◌, refl, false, Option, none, some, List, [], ◌∷◌, String}
use etcd_cloud_benchmarking.Prelude.Run.{ret}
use etcd_cloud_benchmarking.Prelude.Text.{Text}
use etcd_cloud_benchmarking.Control.Config.{BenchctlConfig}
use etcd_cloud_benchmarking.Control.Config.Validate.{get_default_config}
use etcd_cloud_benchmarking.Client.Server.{
  Server, Received, eof, other, config_file, returns, send_ctrl_message, open_stream, end_stream,
  configured, receive, settle, round, serve,
}

-- an empty file is an error, any other the default
abbrev read_config : Text → Option BenchctlConfig → Option BenchctlConfig × Option String
read_config [] c = (c, some "unexpected end of JSON input")
read_config (x ∷ xs) c = (some get_default_config, none)

abbrev fresh : Server
fresh = record { keys = []; ctl_config = none; curr_stream = none; term_closed = false }

abbrev session : List (Received × Option String)
session = (config_file (123 ∷ 125 ∷ []), none) ∷ (other, none) ∷ (eof, none) ∷ []

abbrev left_by_session : Server
left_by_session = record fresh { ctl_config = some get_default_config }

session_ends :
    serve read_config session (open_stream 2 (open_stream 1 fresh))
    ≡ ret (returns none, left_by_session)
unfolding serve open_stream end_stream configured receive settle round
session_ends = refl

-- stream 1 was the first of them and is still there
silent_afterwards : send_ctrl_message (λ i. none) left_by_session ≡ (none, some "no active stream")
unfolding send_ctrl_message
silent_afterwards = refl
