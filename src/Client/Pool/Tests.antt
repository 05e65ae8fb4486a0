-- ===== src/Client/Pool/Tests.antt =====
-- Runners on a concrete cluster.
use etcd_cloud_benchmarking.Prelude.{
  ◌==◌, ◌≡◌, ◌↔◌, Bool, true, Option, none, some, List, ◌∷◌, All, refl, not, [], ltb,
}
use etcd_cloud_benchmarking.Prelude.Run.{ret}
use etcd_cloud_benchmarking.Client.Pool.{Store, Cluster, nothing_open, new_sessions, close_runner}
use etcd_cloud_benchmarking.Client.Pool.Closing.{
  Call, of_client, of_session, Failure, session_failed, all_closed, close_kv, close_lock, last_err,
  Succeeds, close-close_runner,
}
use etcd_cloud_benchmarking.Client.Pool.Leaks.{LockCreated, new_sessions-LockCreated}

-- five clients can be created, and the session of the third cannot
abbrev small : Cluster
small = record { client_ok = λ i. ltb i 5; session_ok = λ i. not (i == 2) }

new_sessions-LockCreated_example : LockCreated small 8 (new_sessions small 8 0 [] nothing_open)
new_sessions-LockCreated_example = new_sessions-LockCreated small 8

-- the session at place 1 cannot be closed without an error
abbrev stubborn : Call → Bool
stubborn (of_client i) = true
stubborn (of_session i) = not (i == 1)

clients_close : (close_kv stubborn 0 (0 ∷ 1 ∷ 2 ∷ []) none).1 ≡ none
unfolding close_kv last_err
clients_close = refl

fails_at_1 :
    close_lock stubborn 0 (0 ∷ 1 ∷ []) (0 ∷ 1 ∷ []) none
    ≡ ret (of_session 0 ∷ of_client 0 ∷ of_session 1 ∷ of_client 1 ∷ [], some (session_failed 1))
unfolding close_lock last_err
fails_at_1 = refl

abbrev two_open : Store
two_open = record { clients = 0 ∷ 1 ∷ []; sessions = 0 ∷ 1 ∷ [] }

close-close_runner_example :
    (let (calls, e) = close_kv stubborn 0 (0 ∷ 1 ∷ []) none in
      (all_closed calls two_open ≡ close_runner (0 ∷ 1 ∷ []) [] two_open)
      × ((e ≡ none) ↔ All (Succeeds stubborn) calls))
    × (calls : List Call) × (e : Option Failure) × (close_lock stubborn 0
          (0 ∷ 1 ∷ [])
          (0 ∷ 1 ∷ [])
          none
        ≡ ret (calls, e))
    × (all_closed calls two_open ≡ close_runner (0 ∷ 1 ∷ []) (0 ∷ 1 ∷ []) two_open)
    × ((e ≡ none) ↔ All (Succeeds stubborn) calls)
close-close_runner_example = close-close_runner stubborn (0 ∷ 1 ∷ []) (0 ∷ 1 ∷ []) two_open refl
