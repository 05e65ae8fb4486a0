-- ===== src/Client/Pool/Adding/Laws.antt =====
-- addClients keeps the slices of a runner and what is open the same, so that Close closes everything.
use etcd_cloud_benchmarking.Prelude.{
  ℕ, zero, suc, ◌+◌, ◌<◌, ◌==◌, ◌≡◌, inl, inr, refl, ap, ◌∙◌, false, List, [], ◌∷◌, ◌++◌, length,
  length-append, All, All-map, All-append, Bool-cases, arith,
}
use etcd_cloud_benchmarking.Client.Pool.{Cluster, Store, nothing_open, close_runner, remove}
use etcd_cloud_benchmarking.Client.Pool.Leaks.{closes_all, same}
use etcd_cloud_benchmarking.Client.Pool.Adding.{
  Pool, Added, grown, stopped, add_clients, add_sessions, close_pool,
}

-- the numbers of the clients are those of their creation, and what is open is what the slices hold
pub record IsOwned (p : Pool) : Type 0 where
  pub open_eq : p.open_ones ≡ record { clients = p.clients; sessions = p.sessions }
  pub below : All (λ i. i < length p.clients) p.clients

pub remove-fresh : (i : ℕ) (is : List ℕ) → All (λ j. j < i) is → remove i (is ++ i ∷ []) ≡ is
unfolding remove
remove-fresh i [] h = rw (same i) refl
remove-fresh i (j ∷ is) h = rw (other j h.0, remove-fresh i is h.1) refl
  where
    other : (j : ℕ) → j < i → (j == i) ≡ false
    other j lt = ground (arith, lt)

pub one_longer : (is : List ℕ) (i : ℕ) → length (is ++ i ∷ []) ≡ suc (length is)
one_longer is i = length-append is (i ∷ []) ∙ omega arith

below_next :
    (is : List ℕ)
    → All (λ i. i < length is) is
    → All (λ i. i < length (is ++ length is ∷ [])) (is ++ length is ∷ [])
below_next is h =
    All-append _ is (length is ∷ [])
      (All-map is (λ i lt. omega (arith, lt, one_longer is (length is))) h)
      (omega (arith, one_longer is (length is)), tt)

-- how a call of addClients ends
pub data Ends (n : ℕ) : Added → Type 0 where
  all : (p : Pool) → IsOwned p → length p.clients ≡ n → Ends n (grown p)
  fewer : (p : Pool) → IsOwned p → length p.clients < n → Ends n (stopped p)

-- one more client, with a session or without
unfoldable pub next_kv : Pool → Pool
next_kv p =
    let i = length p.clients in
    record {
      clients = p.clients ++ i ∷ [];
      sessions = p.sessions;
      open_ones = record {
        clients = p.open_ones.clients ++ i ∷ [];
        sessions = p.open_ones.sessions;
      };
    }

unfoldable pub next_lock : Pool → Pool
next_lock p =
    let i = length p.clients in
    record {
      clients = p.clients ++ i ∷ [];
      sessions = p.sessions ++ i ∷ [];
      open_ones = record {
        clients = p.open_ones.clients ++ i ∷ [];
        sessions = p.open_ones.sessions ++ i ∷ [];
      };
    }

pub next_kv-IsOwned : (p : Pool) → IsOwned p → IsOwned (next_kv p)
unfolding next_kv
next_kv-IsOwned p w = record {
  open_eq =
      ap
        (λ (s : Store). record {
          clients = s.clients ++ length p.clients ∷ [];
          sessions = s.sessions;
        })
        w.open_eq;
  below = below_next p.clients w.below;
}

pub next_lock-IsOwned : (p : Pool) → IsOwned p → IsOwned (next_lock p)
unfolding next_lock
next_lock-IsOwned p w = record {
  open_eq =
      ap
        (λ (s : Store). record {
          clients = s.clients ++ length p.clients ∷ [];
          sessions = s.sessions ++ length p.clients ∷ [];
        })
        w.open_eq;
  below = below_next p.clients w.below;
}

-- the client that got no session is closed again
closed_again : Pool → Pool
closed_again p =
    let i = length p.clients in
    record p {
      open_ones = record {
        clients = remove i (p.open_ones.clients ++ i ∷ []);
        sessions = p.open_ones.sessions;
      };
    }

closed_again-IsOwned : (p : Pool) → IsOwned p → IsOwned (closed_again p)
unfolding closed_again
closed_again-IsOwned p w = record {
  open_eq =
      ap
        (λ (s : Store). record {
          clients = remove (length p.clients) (s.clients ++ length p.clients ∷ []);
          sessions = s.sessions;
        })
        w.open_eq
      ∙ ap (λ is. record { clients = is; sessions = p.sessions })
          (remove-fresh (length p.clients) p.clients w.below);
  below = w.below;
}

module _ (c : Cluster) where
  pub add_clients-Ends :
      (k n : ℕ) (p : Pool) → IsOwned p → length p.clients + k ≡ n → Ends n (add_clients c k p)
  unfolding add_clients next_kv
  add_clients-Ends zero n p w e = all p w (omega (arith, e))
  add_clients-Ends (suc k) n p w e = elim (Bool-cases (c.client_ok (length p.clients))) [
    | inl a ↦ rw (a) (
        add_clients-Ends k n (next_kv p) (next_kv-IsOwned p w)
          (omega (arith, e, one_longer p.clients (length p.clients))))
    | inr a ↦ rw (a) (fewer p w (omega (arith, e)))
  ]

  pub add_sessions-Ends :
      (k n : ℕ) (p : Pool) → IsOwned p → length p.clients + k ≡ n → Ends n (add_sessions c k p)
  unfolding add_sessions next_lock closed_again
  add_sessions-Ends zero n p w e = all p w (omega (arith, e))
  add_sessions-Ends (suc k) n p w e = elim (Bool-cases (c.client_ok (length p.clients))) [
    | inl a ↦ elim (Bool-cases (c.session_ok (length p.clients))) [
      | inl b ↦
          rw (a, b)
            (add_sessions-Ends k n (next_lock p) (next_lock-IsOwned p w)
              (omega (arith, e, one_longer p.clients (length p.clients))))
      | inr b ↦ rw (a, b) (fewer (closed_again p) (closed_again-IsOwned p w) (omega (arith, e)))
    ]
    | inr a ↦ rw (a) (fewer p w (omega (arith, e)))
  ]

-- Close of an owned pool closes everything
pub close_pool-IsOwned : (p : Pool) → IsOwned p → close_pool p ≡ nothing_open
unfolding close_pool
close_pool-IsOwned p w =
    ap (close_runner p.clients p.sessions) w.open_eq ∙ closes_all p.clients p.sessions
