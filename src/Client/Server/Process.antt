-- ===== src/Client/Server/Process.antt =====
-- client/main.go and client/grpc/server.go: the process of the benchmark client. Its streams run
-- CTRLStream at the same time on one server, the goroutine of `waitUntilReady` polls it, the
-- benchmark's goroutine sends on it, and `main` waits for a signal or for `termChan`. The goroutines
-- take their steps in any order. What follows a Recv is one step; that Stop and GracefulStop take no
-- new stream, and that GracefulStop returns when no stream is left, is what grpc documents.
pub mod Invariant
pub mod Laws
pub mod Exclusive
pub mod Effort
pub mod Opened
pub mod Draining
pub mod Graceful
pub mod Sequential
pub mod Tests
use mathlib.Core.Logic.{ite}
use native.Mathlib.Decide.{ℕ_discrete}
use etcd_cloud_benchmarking.Prelude.{
  ℕ, suc, ◌≡◌, ◌⊎◌, Bool, true, false, Option, none, some, [], String, if◌then◌else◌,
}
use etcd_cloud_benchmarking.Prelude.Run.{Run, ret, fails, panics, timeout}
use etcd_cloud_benchmarking.Prelude.Text.{Text}
use etcd_cloud_benchmarking.Control.Config.{BenchctlConfig}
use etcd_cloud_benchmarking.Client.Server.{
  Server, Received, eof, shutdown, other, recv_error, config_file, Next, continues, returns,
  is_ready, open_stream, end_stream, receive,
}

-- a stream: before its select, in Recv, before its deferred end with what it returns, or ended
pub data Stream : Type 0 where
  unopened selecting receiving ended : Stream
  leaving : Option String → Stream

-- where `main` is: in its select, in GracefulStop, or the process has ended: by the return of `main`
-- after GracefulStop, by a signal, by the benchmark (an exit or a panic), or by a panic of a stream
pub data Main : Type 0 where
  serving draining exited killed failed crashed : Main

-- `started` is the configuration that the benchmark runs with. Beside the program's own state: how
-- many Shutdowns and configuration files the streams received.
pub record Process : Type 0 where
  pub server : Server
  pub streams : ℕ → Stream
  pub main : Main
  pub started : Option BenchctlConfig
  pub closers : ℕ
  pub files : ℕ

-- `main` at its select, with `NewBenchmarkServiceServer`
abbrev pub new_process : Process
new_process = record {
  server = record { keys = []; ctl_config = none; curr_stream = none; term_closed = false };
  streams = λ i. unopened;
  main = serving;
  started = none;
  closers = 0;
  files = 0;
}

-- whether the handler of the stream runs
unfoldable pub is_live : Stream → Bool
is_live unopened = false
is_live selecting = true
is_live receiving = true
is_live ended = false
is_live (leaving e) = true

abbrev pub IsUp : Main → Type 0
IsUp m = (m ≡ serving) ⊎ (m ≡ draining)

abbrev pub moved : ℕ → Stream → (ℕ → Stream) → ℕ → Stream
moved i s f j = ite (ℕ_discrete i j) s (f j)

-- what a stream received, counted
abbrev pub counted : Received → Process → Process
counted eof p = p
counted shutdown p = record p { closers = suc p.closers }
counted other p = p
counted (recv_error e) p = p
counted (config_file b) p = record p { files = suc p.files }

-- the process after a stream dealt with what it received; a panic of a handler ends the process
abbrev pub settled : ℕ → Run (Next × Server) → Process → Process
settled i (ret (continues, s)) p = record p { server = s; streams = moved i selecting p.streams }
settled i (ret (returns e, s)) p = record p { server = s; streams = moved i (leaving e) p.streams }
settled i (fails e) p = p
settled i panics p = record p { main = crashed }
settled i timeout p = p

-- one round of `waitUntilReady`, and `GetConfig` of the benchmark that it lets start
unfoldable pub wait_until_ready : Process → Process
wait_until_ready p = if is_ready p.server then record p { started = p.server.ctl_config } else p

-- One step of one goroutine; `exclusive` tells the runs in which no stream is opened beside another.
module _ (unmarshal : Text → Option BenchctlConfig → Option BenchctlConfig × Option String) where
  pub data Move (exclusive : Bool) (p : Process) : Process → Type 0 where
    open_new :
        (i : ℕ)
        → p.main ≡ serving
        → p.streams i ≡ unopened
        → (exclusive ≡ true → (j : ℕ) → is_live (p.streams j) ≡ false)
        → Move exclusive p
            (record p { server = open_stream i p.server; streams = moved i selecting p.streams })
    take_term :
        (i : ℕ)
        → IsUp p.main
        → p.streams i ≡ selecting
        → p.server.term_closed ≡ true
        → Move exclusive p (record p { streams = moved i (leaving none) p.streams })
    take_default :
        (i : ℕ)
        → IsUp p.main
        → p.streams i ≡ selecting
        → p.server.term_closed ≡ false
        → Move exclusive p (record p { streams = moved i receiving p.streams })
    recv_returns :
        (i : ℕ) (r : Received) (sent : Option String)
        → IsUp p.main
        → p.streams i ≡ receiving
        → Move exclusive p (settled i (receive unmarshal r sent p.server) (counted r p))
    leave :
        (i : ℕ) (e : Option String)
        → IsUp p.main
        → p.streams i ≡ leaving e
        → Move exclusive p
            (record p { server = end_stream p.server; streams = moved i ended p.streams })
    poll : IsUp p.main → p.started ≡ none → Move exclusive p (wait_until_ready p)
    benchmark_fails :
        (c : BenchctlConfig)
        → IsUp p.main
        → p.started ≡ some c
        → Move exclusive p (record p { main = failed })
    interrupt : p.main ≡ serving → Move exclusive p (record p { main = killed })
    drain :
        p.main ≡ serving
        → p.server.term_closed ≡ true
        → Move exclusive p (record p { main = draining })
    drained :
        p.main ≡ draining
        → ((j : ℕ) → is_live (p.streams j) ≡ false)
        → Move exclusive p (record p { main = exited })

  -- the states that can be reached
  pub data Reach (exclusive : Bool) : Process → Type 0 where
    begun : Reach exclusive new_process
    later : {p q : Process} → Reach exclusive p → Move exclusive p q → Reach exclusive q
