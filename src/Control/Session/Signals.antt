-- ===== src/Control/Session/Signals.antt =====
-- control/cmd/run.go: the goroutines of `runBenchmark`, its loop and the one that sends the
-- configuration file, and the signals that may come at any time. Nobody waits for the second one: it
-- goes on until the process ends. A Send that fails counts as one.
pub mod Laws
pub mod Quiet
pub mod Tests
use etcd_cloud_benchmarking.Prelude.{
  ℕ, suc, ◌≡◌, ◌⊎◌, Bool, true, false, Option, none, some, List, [], ◌∷◌, ◌++◌, String,
  if◌then◌else◌,
}
use etcd_cloud_benchmarking.Control.Session.{
  Reply, eof, status, config_response, finished, unknown, recv_error,
}

-- where the loop is: before its select, in Recv, in `terminate` before its Send and before its
-- close; whether runBenchmark returned while the process goes on; and how the process ended, by a
-- panic or after that return
pub data Phase : Type 0 where
  selecting receiving terminating closing panicked : Phase
  returned ended : Option String → Phase

-- where the goroutine of the file is: before SendConfigFile, in `terminate` before its Send and
-- before its close, or at its end
pub data Sender : Type 0 where
  pending refused unclosed over : Sender

-- a signal in the buffer of `sigChan`; whether `termChan` is closed, and how often Shutdown was sent.
-- Beside the program's own state: how often `termChan` was to be closed, what was received, and
-- whether there was a signal or SendConfigFile failed.
pub record Control : Type 0 where
  pub phase : Phase
  pub sender : Sender
  pub signalled : Bool
  pub term_closed : Bool
  pub shutdowns : ℕ
  pub closers : ℕ
  pub heard : List Reply
  pub disturbed : Bool

abbrev pub start : Control
start = record {
  phase = selecting;
  sender = pending;
  signalled = false;
  term_closed = false;
  shutdowns = 0;
  closers = 0;
  heard = [];
  disturbed = false;
}

-- `close(termChan)`, after which the loop is in this phase
unfoldable pub close_term : Phase → Control → Control
close_term p s =
    if s.term_closed
    then record s { phase = panicked; closers = suc s.closers }
    else record s { phase = p; term_closed = true; closers = suc s.closers }

-- what follows a Recv
unfoldable pub respond : Reply → Control → Control
unfolding close_term
respond eof s = close_term (returned none) s
respond (recv_error e) s = close_term (returned (some e)) s
respond finished s = record s { phase = terminating }
respond status s = record s { phase = selecting }
respond config_response s = record s { phase = selecting }
respond unknown s = record s { phase = selecting }

-- the process has not ended
abbrev pub IsLive : Phase → Type 0
IsLive selecting = Unit
IsLive receiving = Unit
IsLive terminating = Unit
IsLive closing = Unit
IsLive panicked = ⊥
IsLive (returned e) = Unit
IsLive (ended e) = ⊥

-- One step of a goroutine, or a signal. The select takes any channel that is ready. `terminate` of
-- either goroutine is two steps: its Send, then its close.
pub data Move (s : Control) : Control → Type 0 where
  signal : IsLive s.phase → Move s (record s { signalled = true; disturbed = true })
  take_signal :
      s.phase ≡ selecting
      → s.signalled ≡ true
      → Move s (record s { phase = terminating; signalled = false })
  take_term :
      s.phase ≡ selecting → s.term_closed ≡ true → Move s (record s { phase = returned none })
  take_default :
      s.phase ≡ selecting
      → s.signalled ≡ false
      → s.term_closed ≡ false
      → Move s (record s { phase = receiving })
  receive :
      (r : Reply)
      → s.phase ≡ receiving
      → Move s (respond r (record s { heard = s.heard ++ r ∷ [] }))
  send_shutdown :
      s.phase ≡ terminating → Move s (record s { phase = closing; shutdowns = suc s.shutdowns })
  close_channel : s.phase ≡ closing → Move s (close_term selecting s)
  send_file : IsLive s.phase → s.sender ≡ pending → Move s (record s { sender = over })
  send_fails :
      IsLive s.phase → s.sender ≡ pending → Move s (record s { sender = refused; disturbed = true })
  sender_shutdown :
      IsLive s.phase
      → s.sender ≡ refused
      → Move s (record s { sender = unclosed; shutdowns = suc s.shutdowns })
  sender_closes :
      IsLive s.phase
      → s.sender ≡ unclosed
      → Move s (close_term s.phase (record s { sender = over }))
  end_process : (e : Option String) → s.phase ≡ returned e → Move s (record s { phase = ended e })

-- the states that can be reached
pub data Reach : Control → Type 0 where
  begun : Reach start
  later : {s t : Control} → Reach s → Move s t → Reach t
