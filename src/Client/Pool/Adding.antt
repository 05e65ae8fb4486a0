-- ===== src/Client/Pool/Adding.antt =====
-- client/runner/runner_kv.go and runner_lock.go: addClients, which `Run` calls to have more clients,
-- and the Close of a runner after it.
pub mod Laws
pub mod Start
use etcd_cloud_benchmarking.Prelude.{
  ℕ, zero, suc, true, false, List, [], ◌∷◌, ◌++◌, length, if◌then◌else◌,
}
use etcd_cloud_benchmarking.Client.Pool.{Cluster, Store, remove, close_runner}

-- the slices of a runner, and what is open
pub record Pool : Type 0 where
  pub clients : List ℕ
  pub sessions : List ℕ
  pub open_ones : Store

-- what addClients returns: nil, or an error; the runner keeps what was appended before the error
pub data Added : Type 0 where
  grown stopped : Pool → Added

-- the runner after addClients, whatever it returned
abbrev pub pool_of : Added → Pool
pool_of (grown p) = p
pool_of (stopped p) = p

module _ (c : Cluster) where
  -- `addClients` of a key-value runner, with `k` clients to go
  unfoldable pub add_clients : ℕ → Pool → Added
  add_clients zero p = grown p
  add_clients (suc k) p =
      let i = length p.clients in
      let rest = add_clients k (record {
        clients = p.clients ++ i ∷ [];
        sessions = p.sessions;
        open_ones = record {
          clients = p.open_ones.clients ++ i ∷ [];
          sessions = p.open_ones.sessions;
        };
      }) in
      if c.client_ok i then rest else stopped p

  -- `addClients` of a lock runner: a client without a session is closed again
  unfoldable pub add_sessions : ℕ → Pool → Added
  add_sessions zero p = grown p
  add_sessions (suc k) p =
      let i = length p.clients in
      let rest = add_sessions k (record {
        clients = p.clients ++ i ∷ [];
        sessions = p.sessions ++ i ∷ [];
        open_ones = record {
          clients = p.open_ones.clients ++ i ∷ [];
          sessions = p.open_ones.sessions ++ i ∷ [];
        };
      }) in
      let alone = stopped (record p {
        open_ones = record {
          clients = remove i (p.open_ones.clients ++ i ∷ []);
          sessions = p.open_ones.sessions;
        };
      }) in
      if c.client_ok i then (if c.session_ok i then rest else alone) else stopped p

-- `Close` of the runner with this pool
unfoldable pub close_pool : Pool → Store
close_pool p = close_runner p.clients p.sessions p.open_ones
