-- ===== src/Client/Pool/Leaks.antt =====
-- What stays open when the clients of a runner cannot be created.
use mathlib.Core.List.{append-nil}
use etcd_cloud_benchmarking.Prelude.{
  ℕ, zero, suc, ◌+◌, ◌==◌, ◌≡◌, inl, inr, refl, sym, ap, ◌∙◌, true, false, List, [], ◌∷◌, ◌++◌,
  length, length-append, Bool-cases, arith,
}
use etcd_cloud_benchmarking.Client.Pool.{
  Cluster, nothing_open, Created, created, failed, close_each, new_clients, new_sessions,
  close_runner,
}

pub same : (i : ℕ) → (i == i) ≡ true
same i = ground arith

-- closing what was opened first leaves what was opened after it
close_each-append : (is js : List ℕ) → close_each is (is ++ js) ≡ js
unfolding close_each
close_each-append [] js = refl
close_each-append (i ∷ is) js = rw (same i) (close_each-append is js)

close_each-all : (is : List ℕ) → close_each is is ≡ []
close_each-all is = ap (close_each is) (sym (append-nil is)) ∙ close_each-append is []

pub closes_all :
    (cs ss : List ℕ) → close_runner cs ss (record { clients = cs; sessions = ss }) ≡ nothing_open
unfolding close_runner
closes_all cs ss = cc (close_each-all cs, close_each-all ss)

-- the result of creating the clients of a key-value runner: clients that are open, and are closed
-- by its Close, or an error with nothing open
pub data KvCreated (n : ℕ) : Created → Type 0 where
  all :
      (cs : List ℕ)
      → length cs ≡ n
      → close_runner cs [] (record { clients = cs; sessions = [] }) ≡ nothing_open
      → KvCreated n (created cs [] (record { clients = cs; sessions = [] }))
  nothing : KvCreated n (failed nothing_open)

-- the result of creating the clients of a lock runner: clients and sessions that are open, and are closed by its
-- Close; or an error, with the
-- sessions of the clients before open, when a client cannot be created, or with that client open,
-- when its session cannot be
pub data LockCreated (c : Cluster) (n : ℕ) : Created → Type 0 where
  all :
      (cs : List ℕ)
      → length cs ≡ n
      → close_runner cs cs (record { clients = cs; sessions = cs }) ≡ nothing_open
      → LockCreated c n (created cs cs (record { clients = cs; sessions = cs }))
  no_client :
      (i : ℕ) (cs : List ℕ)
      → c.client_ok i ≡ false
      → length cs ≡ i
      → LockCreated c n (failed (record { clients = []; sessions = cs }))
  no_session :
      (i : ℕ)
      → c.client_ok i ≡ true
      → c.session_ok i ≡ false
      → LockCreated c n (failed (record { clients = i ∷ []; sessions = [] }))

module _ (c : Cluster) where
  one_more : (cs : List ℕ) (i : ℕ) → length cs ≡ i → length (cs ++ i ∷ []) ≡ suc i
  one_more cs i h = length-append cs (i ∷ []) ∙ omega (arith, h)

  clients_from :
      (k i n : ℕ) (cs : List ℕ)
      → length cs ≡ i
      → i + k ≡ n
      → KvCreated n (new_clients c k i cs (record { clients = cs; sessions = [] }))
  unfolding new_clients
  clients_from zero i n cs h e = all cs (omega (arith, h, e)) (closes_all cs [])
  clients_from (suc k) i n cs h e = elim (Bool-cases (c.client_ok i)) [
    | inl a ↦ rw (a) (clients_from k (suc i) n (cs ++ i ∷ []) (one_more cs i h) (omega (arith, e)))
    | inr a ↦ rw (a, close_each-all cs) nothing
  ]

  sessions_from :
      (k i n : ℕ) (cs : List ℕ)
      → length cs ≡ i
      → i + k ≡ n
      → LockCreated c n (new_sessions c k i cs (record { clients = cs; sessions = cs }))
  unfolding new_sessions
  sessions_from zero i n cs h e = all cs (omega (arith, h, e)) (closes_all cs cs)
  sessions_from (suc k) i n cs h e = elim (Bool-cases (c.client_ok i)) [
    | inl a ↦ elim (Bool-cases (c.session_ok i)) [
      | inl b ↦
          rw (a, b) (sessions_from k (suc i) n (cs ++ i ∷ []) (one_more cs i h) (omega (arith, e)))
      | inr b ↦ rw (a, b, close_each-all cs, close_each-append cs (i ∷ [])) (no_session i a b)
    ]
    | inr a ↦ rw (a, close_each-all cs) (no_client i cs a h)
  ]

-- The loop that creates the clients of a key-value runner either opens as many clients as asked for, all of
-- which its Close closes, or fails with no client left open.
pub new_clients-KvCreated : (c : Cluster) (n : ℕ) → KvCreated n (new_clients c n 0 [] nothing_open)
new_clients-KvCreated c n = clients_from c n 0 n [] refl (omega arith)

-- The loop that creates the clients of a lock runner either opens as many clients and sessions as asked for, all of which its
-- Close closes; or fails at a client that cannot be created, with the sessions of all clients before
-- it left open; or fails at a session that cannot be created, with its client left open, alone.
pub new_sessions-LockCreated :
    (c : Cluster) (n : ℕ) → LockCreated c n (new_sessions c n 0 [] nothing_open)
new_sessions-LockCreated c n = sessions_from c n 0 n [] refl (omega arith)
