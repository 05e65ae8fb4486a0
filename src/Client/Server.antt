-- ===== src/Client/Server.antt =====
-- client/grpc/server.go: the control stream of the benchmark client. What arrives on a stream, and
-- whether an answer can be sent, are arguments; encoding/json is a parameter.
pub mod Stream
pub mod Process
pub mod Tests
use etcd_cloud_benchmarking.Prelude.{
  ℕ, ◌==◌, Bool, true, false, Option, none, some, List, [], ◌∷◌, ◌++◌, String, if◌then◌else◌,
}
use etcd_cloud_benchmarking.Prelude.Run.{Run, ret, panics, ◌>>=◌}
use etcd_cloud_benchmarking.Prelude.Text.{Text}
use etcd_cloud_benchmarking.Control.Config.{BenchctlConfig}

-- `BenchmarkServiceServer`: its streams have numbers, and `termChan` is closed or not
pub record Server : Type 0 where
  pub keys : List Text
  pub ctl_config : Option BenchctlConfig
  pub curr_stream : Option ℕ
  pub term_closed : Bool

-- what `stream.Recv` returns: the end of the stream, an error, or a message by its payload
pub data Received : Type 0 where
  eof shutdown other : Received
  recv_error : String → Received
  config_file : Text → Received

-- whether CTRLStream goes on, or what it returns
pub data Next : Type 0 where
  continues : Next
  returns : Option String → Next

unfoldable pub is_ready : Server → Bool
is_ready s = elim s.ctl_config [ none ↦ false | some c ↦ true ]

unfoldable pub get_keys : Server → List Text
get_keys s = s.keys

unfoldable pub set_keys : List Text → Server → Server
set_keys ks s = record s { keys = s.keys ++ ks }

-- `SendCTRLMessage`: the stream that the message is sent to, with what its Send returns
unfoldable pub send_ctrl_message : (ℕ → Option String) → Server → Option ℕ × Option String
send_ctrl_message send s = elim s.curr_stream [
  | none ↦ (none, some "no active stream")
  | some i ↦ (some i, send i)
]

-- the beginning of CTRLStream, and its deferred end
unfoldable pub open_stream : ℕ → Server → Server
open_stream i s = record s { curr_stream = some i }

unfoldable pub end_stream : Server → Server
end_stream s = record s { curr_stream = none }

-- `close(s.termChan)`, which panics when it is closed already
unfoldable pub close_term : Server → Run (Next × Server)
close_term s = if s.term_closed then panics else ret (continues, record s { term_closed = true })

-- `json.Unmarshal` into the configuration that is there, with the error that it returns
module _ (unmarshal : Text → Option BenchctlConfig → Option BenchctlConfig × Option String) where
  answer : Option String → Next
  answer none = continues
  answer (some e) = returns (some e)

  -- the configuration is stored as far as it was read, then answered
  unfoldable pub configured :
      Option String → Option BenchctlConfig × Option String → Server → Next × Server
  unfolding answer
  configured sent (c, some e) s = (returns (some e), record s { ctl_config = c })
  configured sent (c, none) s = (answer sent, record s { ctl_config = c })

  -- what CTRLStream does with one result of Recv, where `sent` is what `stream.Send` returns
  unfoldable pub receive : Received → Option String → Server → Run (Next × Server)
  unfolding configured
  receive eof sent s = ret (returns none, s)
  receive shutdown sent s = close_term s
  receive other sent s = ret (continues, s)
  receive (recv_error e) sent s = ret (returns (some e), s)
  receive (config_file b) sent s = ret (configured sent (unmarshal b s.ctl_config) s)

  -- a return runs the deferred end
  unfoldable pub settle : Next × Server → Next × Server
  settle (continues, s) = (continues, s)
  settle (returns e, s) = (returns e, end_stream s)

  -- one round of the loop: the test of `termChan`, then Recv
  unfoldable pub round : Received → Option String → Server → Run (Next × Server)
  unfolding settle
  round r sent s =
      if s.term_closed
      then ret (settle (returns none, s))
      else do x ← receive r sent s; ret (settle x)

  -- the rounds of a stream on which these results arrive; it is `continues` when it still waits
  unfoldable pub serve : List (Received × Option String) → Server → Run (Next × Server)
  serve [] s = if s.term_closed then ret (returns none, end_stream s) else ret (continues, s)
  serve ((r, sent) ∷ rs) s = do
    (n, s') ← round r sent s
    elim n [ continues ↦ serve rs s' | returns e ↦ ret (returns e, s') ]

  -- `CTRLStream`
  unfoldable pub ctrl_stream : ℕ → List (Received × Option String) → Server → Run (Next × Server)
  ctrl_stream i rs s = serve rs (open_stream i s)
