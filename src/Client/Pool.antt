-- ===== src/Client/Pool.antt =====
-- client/runner/runner_kv.go and runner_lock.go: the clients and sessions of a runner, created,
-- added and closed. Clients have numbers in the order of the calls that create them, a session that
-- of its client; which calls succeed is an argument.
pub mod Leaks
pub mod Adding
pub mod Closing
pub mod Tests
use etcd_cloud_benchmarking.Prelude.{
  ℕ, zero, suc, ◌==◌, Bool, true, false, List, [], ◌∷◌, ◌++◌, if◌then◌else◌,
}

-- whether the i-th client can be created, and its session
pub record Cluster : Type 0 where
  pub client_ok : ℕ → Bool
  pub session_ok : ℕ → Bool

-- what is open, in the order in which it was opened
pub record Store : Type 0 where
  pub clients : List ℕ
  pub sessions : List ℕ

abbrev pub nothing_open : Store
nothing_open = record { clients = []; sessions = [] }

-- a runner's slices and what is open, or the error
pub data Created : Type 0 where
  created : (clients sessions : List ℕ) → Store → Created
  failed : Store → Created

unfoldable pub remove : ℕ → List ℕ → List ℕ
remove i [] = []
remove i (x ∷ xs) = if x == i then xs else x ∷ remove i xs

-- `clients[j].Close()` and `sessions[j].Close()` for each j
unfoldable pub close_each : List ℕ → List ℕ → List ℕ
unfolding remove
close_each [] open_ones = open_ones
close_each (i ∷ is) open_ones = close_each is (remove i open_ones)

module _ (c : Cluster) where
  -- the loop of `NewBenchmarkRunnerKV` from client i, with `k` clients to go
  unfoldable pub new_clients : ℕ → ℕ → List ℕ → Store → Created
  new_clients zero i cs s = created cs [] s
  new_clients (suc k) i cs s =
      let rest =
        new_clients k (suc i) (cs ++ i ∷ []) (record s { clients = s.clients ++ i ∷ [] }) in
      if c.client_ok i then rest else failed (record s { clients = close_each cs s.clients })

  -- the loop of `NewBenchmarkRunnerLock`: a client that cannot be created closes the clients before
  -- it, a session that cannot be created the sessions and clients before it
  unfoldable pub new_sessions : ℕ → ℕ → List ℕ → Store → Created
  new_sessions zero i cs s = created cs cs s
  new_sessions (suc k) i cs s =
      let rest =
        new_sessions k (suc i) (cs ++ i ∷ [])
          (record { clients = s.clients ++ i ∷ []; sessions = s.sessions ++ i ∷ [] }) in
      if c.client_ok i
      then (if c.session_ok i
          then rest
          else failed (record {
            clients = close_each cs (s.clients ++ i ∷ []);
            sessions = close_each cs s.sessions;
          }))
      else failed (record s { clients = close_each cs s.clients })

-- `Close` of a runner
unfoldable pub close_runner : List ℕ → List ℕ → Store → Store
close_runner cs ss s = record {
  clients = close_each cs s.clients;
  sessions = close_each ss s.sessions;
}
