-- ===== src/Client/LoadDb.antt =====
-- client/main.go: `load_db`. The main goroutine sends every generated entry to the channel `tasks`,
-- and workers put what they receive into etcd. The goroutines take their steps in any order; which
-- clients can be created, and when a Put returns, is up to the environment.
pub mod Invariant
pub mod Moves
pub mod Ends
pub mod Stored
pub mod Tests
use etcd_cloud_benchmarking.Prelude.{
  ℕ, zero, suc, ◌<◌, ◌≡◌, Bool, true, false, List, [], ◌∷◌, ◌++◌, length, All,
}
use etcd_cloud_benchmarking.Prelude.Text.{Text}
use etcd_cloud_benchmarking.Generator.Data.{Entry}

-- a goroutine of the pool: before its client is there, in `range tasks`, in a Put, or returned
pub data Worker : Type 0 where
  dialing waiting finished : Worker
  putting : Entry → Worker

-- the entries that are still to be sent, in the order of the range over the map; the keys collected;
-- the contents of the channel; the Puts that returned, with an error or not (which is only logged)
pub record Loading : Type 0 where
  pub todo : List Entry
  pub keys : List Text
  pub queue : List Entry
  pub closed : Bool
  pub workers : List Worker
  pub puts : List Entry
  pub loaded : Bool
  pub exited : Bool

abbrev pub crew_of : ℕ → List Worker
crew_of zero = []
crew_of (suc n) = dialing ∷ crew_of n

-- `worker_count` workers, and as much room in the channel
abbrev pub start : ℕ → List Entry → Loading
start worker_count entries = record {
  todo = entries;
  keys = [];
  queue = [];
  closed = false;
  workers = crew_of worker_count;
  puts = [];
  loaded = false;
  exited = false;
}

abbrev pub IsFinished : Worker → Type 0
IsFinished w = w ≡ finished

-- One step of one goroutine. A client that cannot be created ends the program (log.Fatal).
pub data Step (worker_count : ℕ) (s : Loading) : Loading → Type 0 where
  dial :
      (xs ys : List Worker)
      → s.exited ≡ false
      → s.workers ≡ xs ++ dialing ∷ ys
      → Step worker_count s (record s { workers = xs ++ waiting ∷ ys })
  dial_fails :
      (xs ys : List Worker)
      → s.exited ≡ false
      → s.workers ≡ xs ++ dialing ∷ ys
      → Step worker_count s (record s { exited = true })
  send :
      (e : Entry) (rest : List Entry)
      → s.exited ≡ false
      → s.todo ≡ e ∷ rest
      → length s.queue < worker_count
      → Step worker_count s
          (record s { todo = rest; keys = s.keys ++ e.0 ∷ []; queue = s.queue ++ e ∷ [] })
  close_tasks :
      s.exited ≡ false
      → s.todo ≡ []
      → s.closed ≡ false
      → Step worker_count s (record s { closed = true })
  receive :
      (xs ys : List Worker) (e : Entry) (rest : List Entry)
      → s.exited ≡ false
      → s.workers ≡ xs ++ waiting ∷ ys
      → s.queue ≡ e ∷ rest
      → Step worker_count s (record s { workers = xs ++ putting e ∷ ys; queue = rest })
  put_returns :
      (xs ys : List Worker) (e : Entry)
      → s.exited ≡ false
      → s.workers ≡ xs ++ putting e ∷ ys
      → Step worker_count s (record s { workers = xs ++ waiting ∷ ys; puts = s.puts ++ e ∷ [] })
  finish :
      (xs ys : List Worker)
      → s.exited ≡ false
      → s.workers ≡ xs ++ waiting ∷ ys
      → s.queue ≡ []
      → s.closed ≡ true
      → Step worker_count s (record s { workers = xs ++ finished ∷ ys })
  wait_group :
      s.exited ≡ false
      → s.closed ≡ true
      → All IsFinished s.workers
      → s.loaded ≡ false
      → Step worker_count s (record s { loaded = true })

-- the states after a number of steps
pub data Runs (worker_count : ℕ) (entries : List Entry) : ℕ → Loading → Type 0 where
  begun : Runs worker_count entries 0 (start worker_count entries)
  later :
      {n : ℕ} {s t : Loading}
      → Runs worker_count entries n s
      → Step worker_count s t
      → Runs worker_count entries (suc n) t
