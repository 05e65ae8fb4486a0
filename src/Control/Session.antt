-- ===== src/Control/Session.antt =====
-- control/cmd/run.go: the loop of `runBenchmark` and `terminate`. What arrives on the stream is an
-- argument.
pub mod Ends
pub mod Signals
pub mod Tests
use etcd_cloud_benchmarking.Prelude.{
  ℕ, suc, Bool, true, false, Option, none, some, List, [], ◌∷◌, String, if◌then◌else◌,
}
use etcd_cloud_benchmarking.Prelude.Run.{Run, ret, panics, ◌>>=◌}

-- what `stream.Recv` returns: the end, an error, or a message by its payload
pub data Reply : Type 0 where
  eof status config_response finished unknown : Reply
  recv_error : String → Reply

-- the Shutdown messages sent, and whether `termChan` is closed
pub record Session : Type 0 where
  pub shutdowns : ℕ
  pub term_closed : Bool

pub data Next : Type 0 where
  continues : Next
  returns : Option String → Next

abbrev pub new_session : Session
new_session = record { shutdowns = 0; term_closed = false }

-- `close(termChan)`, which panics when it is closed already
unfoldable pub close_term : Session → Run Session
close_term s = if s.term_closed then panics else ret (record s { term_closed = true })

-- `terminate`: Shutdown is sent, an error of Send is only logged
unfoldable pub terminate : Session → Run Session
terminate s = close_term (record s { shutdowns = suc s.shutdowns })

-- what follows a Recv
unfoldable pub handle : Reply → Session → Run (Next × Session)
handle eof s = do s' ← close_term s; ret (returns none, s')
handle (recv_error e) s = do s' ← close_term s; ret (returns (some e), s')
handle finished s = do s' ← terminate s; ret (continues, s')
handle status s = ret (continues, s)
handle config_response s = ret (continues, s)
handle unknown s = ret (continues, s)

-- the loop without a signal, for these replies: a closed `termChan` ends it before the next Recv
unfoldable pub run_benchmark : List Reply → Session → Run (Next × Session)
run_benchmark [] s = if s.term_closed then ret (returns none, s) else ret (continues, s)
run_benchmark (r ∷ rs) s = if s.term_closed then ret (returns none, s) else do
  (n, s') ← handle r s
  elim n [ continues ↦ run_benchmark rs s' | returns e ↦ ret (returns e, s') ]
