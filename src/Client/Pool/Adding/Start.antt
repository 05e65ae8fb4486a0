-- ===== src/Client/Pool/Adding/Start.antt =====
-- A new runner's pool is owned by it, and stays so over any calls of addClients.
use etcd_cloud_benchmarking.Prelude.{
  ℕ, zero, suc, ◌+◌, ◌≡◌, inl, inr, refl, List, [], ◌∷◌, ◌++◌, length, subst, Bool-cases, arith,
}
use etcd_cloud_benchmarking.Client.Pool.{
  Cluster, Store, nothing_open, Created, created, failed, new_clients, new_sessions,
}
use etcd_cloud_benchmarking.Client.Pool.Adding.Laws.{
  IsOwned, next_kv, next_lock, next_kv-IsOwned, next_lock-IsOwned, one_longer,
}

-- the slices and what is open after the loop that creates the clients: owned, if it created them
pub data OwnsCreated (n : ℕ) : Created → Type 0 where
  made :
      (cs ss : List ℕ) (s : Store)
      → IsOwned (record { clients = cs; sessions = ss; open_ones = s })
      → length cs ≡ n
      → OwnsCreated n (created cs ss s)
  not_made : (s : Store) → OwnsCreated n (failed s)

empty-IsOwned : IsOwned (record { clients = []; sessions = []; open_ones = nothing_open })
empty-IsOwned = record { open_eq = refl; below = tt }

module _ (c : Cluster) where
  kv_from :
      (k n : ℕ) (cs : List ℕ) (s : Store)
      → IsOwned (record { clients = cs; sessions = []; open_ones = s })
      → length cs + k ≡ n
      → OwnsCreated n (new_clients c k (length cs) cs s)
  unfolding new_clients next_kv
  kv_from zero n cs s w h = made cs [] s w (omega (arith, h))
  kv_from (suc k) n cs s w h = elim (Bool-cases (c.client_ok (length cs))) [
    | inl a ↦
        let t : Store = record s { clients = s.clients ++ length cs ∷ [] } in
        rw (a) (
          subst (λ j. OwnsCreated n (new_clients c k j (cs ++ length cs ∷ []) t))
            (one_longer cs (length cs))
            (kv_from k n (cs ++ length cs ∷ []) t
              (next_kv-IsOwned (record { clients = cs; sessions = []; open_ones = s }) w)
              (omega (arith, h, one_longer cs (length cs)))))
    | inr a ↦ rw (a) (not_made _)
  ]

  lock_from :
      (k n : ℕ) (cs : List ℕ) (s : Store)
      → IsOwned (record { clients = cs; sessions = cs; open_ones = s })
      → length cs + k ≡ n
      → OwnsCreated n (new_sessions c k (length cs) cs s)
  unfolding new_sessions next_lock
  lock_from zero n cs s w h = made cs cs s w (omega (arith, h))
  lock_from (suc k) n cs s w h = elim (Bool-cases (c.client_ok (length cs))) [
    | inl a ↦ elim (Bool-cases (c.session_ok (length cs))) [
      | inl b ↦
          let t : Store = record {
            clients = s.clients ++ length cs ∷ [];
            sessions = s.sessions ++ length cs ∷ [];
          } in
          rw (a, b)
            (subst (λ j. OwnsCreated n (new_sessions c k j (cs ++ length cs ∷ []) t))
              (one_longer cs (length cs))
              (lock_from k n (cs ++ length cs ∷ []) t
                (next_lock-IsOwned (record { clients = cs; sessions = cs; open_ones = s }) w)
                (omega (arith, h, one_longer cs (length cs)))))
      | inr b ↦ rw (a, b) (not_made _)
    ]
    | inr a ↦ rw (a) (not_made _)
  ]

  pub new_clients-OwnsCreated : (n : ℕ) → OwnsCreated n (new_clients c n 0 [] nothing_open)
  new_clients-OwnsCreated n = kv_from n n [] nothing_open empty-IsOwned (omega arith)

  pub new_sessions-OwnsCreated : (n : ℕ) → OwnsCreated n (new_sessions c n 0 [] nothing_open)
  new_sessions-OwnsCreated n = lock_from n n [] nothing_open empty-IsOwned (omega arith)
