-- ===== src/Client/Pool/Closing.antt =====
-- client/runner/runner_kv.go and runner_lock.go: Close of a runner call by call, with the errors of
-- its clients and sessions.
use etcd_cloud_benchmarking.Prelude.{
  ℕ, suc, ◌≡◌, ◌↔◌, refl, Bool, Bool-cases, inl, inr, true, Option, none, some, List, [], ◌∷◌,
  length, All, if◌then◌else◌, arith,
}
use etcd_cloud_benchmarking.Prelude.Run.{Run, ret, panics, ◌>>=◌}
use etcd_cloud_benchmarking.Client.Pool.{Store, remove, close_each, close_runner}

-- a Close of a client or of a session
pub data Call : Type 0 where
  of_client of_session : ℕ → Call

-- which place in the slices the error of Close names
pub data Failure : Type 0 where
  client_failed session_failed : ℕ → Failure

-- what is open after a Close, also after one that returns an error
unfoldable pub closed : Call → Store → Store
closed (of_client i) s = record s { clients = remove i s.clients }
closed (of_session i) s = record s { sessions = remove i s.sessions }

unfoldable pub all_closed : List Call → Store → Store
all_closed [] s = s
all_closed (c ∷ cs) s = all_closed cs (closed c s)

-- which of the calls return nil
module _ (closes : Call → Bool) where
  -- `lastErr` after a call
  unfoldable pub last_err : Call → Failure → Option Failure → Option Failure
  last_err c e last = if closes c then last else some e

  -- `Close` of a key-value runner from place i on, with its calls and the error that it returns
  unfoldable pub close_kv : ℕ → List ℕ → Option Failure → List Call × Option Failure
  close_kv i [] last = ([], last)
  close_kv i (c ∷ cs) last =
      let (calls, e) = close_kv (suc i) cs (last_err (of_client c) (client_failed i) last) in
      (of_client c ∷ calls, e)

  -- `Close` of a lock runner; a client without a session at its place panics
  unfoldable pub close_lock :
      ℕ → List ℕ → List ℕ → Option Failure → Run (List Call × Option Failure)
  close_lock i [] ss last = ret ([], last)
  close_lock i (c ∷ cs) [] last = panics
  close_lock i (c ∷ cs) (s ∷ ss) last = do
    (calls, e) ←
        close_lock (suc i) cs ss (
          last_err (of_client c) (client_failed i)
            (last_err (of_session s) (session_failed i) last))
    ret (of_session s ∷ of_client c ∷ calls, e)

  abbrev pub Succeeds : Call → Type 0
  Succeeds c = closes c ≡ true

  -- an error is kept when a call succeeds, and replaced when it does not
  last_err-none :
      (c : Call) (e : Failure) (last : Option Failure)
      → (last_err c e last ≡ none) ↔ (Succeeds c × (last ≡ none))
  unfolding last_err
  last_err-none c e last = elim (Bool-cases (closes c)) [
    | inl h ↦ rw h (λ n. (refl, n), λ n. n.1)
    | inr h ↦ rw h (λ n. cc (n), λ n. cc (n.0))
  ]

  -- a run of Close that was given this error
  pub record Closes (cs ss : List ℕ) (last : Option Failure) (r : List Call × Option Failure)
      : Type 0 where
    pub leaves : (s : Store) → all_closed r.0 s ≡ close_runner cs ss s
    pub nil_iff : (r.1 ≡ none) ↔ (All Succeeds r.0 × (last ≡ none))

  close_kv-Closes :
      (i : ℕ) (cs : List ℕ) (last : Option Failure) → Closes cs [] last (close_kv i cs last)
  unfolding close_kv all_closed closed close_runner close_each
  close_kv-Closes i [] last = record { leaves = λ s. refl; nil_iff = (λ n. (tt, n), λ n. n.1) }
  close_kv-Closes i (c ∷ cs) last =
      let h = close_kv-Closes (suc i) cs (last_err (of_client c) (client_failed i) last) in
      let here = last_err-none (of_client c) (client_failed i) last in
      record {
        leaves = λ s. h.leaves (closed (of_client c) s);
        nil_iff = (
          λ n.
              let (rest, now) = h.nil_iff.0 n in
              let (good, before) = here.0 now in ((good, rest), before),
          λ n. h.nil_iff.1 (n.0.1, here.1 (n.0.0, n.1)),
        );
      }

  pub close_lock-Closes :
      (i : ℕ) (cs ss : List ℕ) (last : Option Failure)
      → length cs ≡ length ss
      → (r : List Call × Option Failure) × (close_lock i cs ss last ≡ ret r) × Closes cs ss last r
  unfolding close_lock all_closed closed close_runner close_each
  close_lock-Closes i [] [] last e =
      (([], last), refl, record { leaves = λ s. refl; nil_iff = (λ n. (tt, n), λ n. n.1) })
  close_lock-Closes i [] (s ∷ ss) last e = absurd (omega (arith, e))
  close_lock-Closes i (c ∷ cs) [] last e = absurd (omega (arith, e))
  close_lock-Closes i (c ∷ cs) (s ∷ ss) last e =
      let first = last_err (of_session s) (session_failed i) last in
      let (r, same, h) =
        close_lock-Closes (suc i) cs ss (last_err (of_client c) (client_failed i) first)
          (omega (arith, e)) in
      let here = last_err-none (of_client c) (client_failed i) first in
      let before = last_err-none (of_session s) (session_failed i) last in
      (
        (of_session s ∷ of_client c ∷ r.0, r.1),
        rw same refl,
        record {
          leaves = λ st. h.leaves (closed (of_client c) (closed (of_session s) st));
          nil_iff = (
            λ n.
                let (rest, now) = h.nil_iff.0 n in
                let (good, then_) = here.0 now in
                let (fine, start) = before.0 then_ in ((fine, (good, rest)), start),
            λ n. h.nil_iff.1 (n.0.1.1, here.1 (n.0.1.0, before.1 (n.0.0, n.1))),
          );
        },
      )

-- Close of a runner, in whatever calls it meets errors: what is open afterwards is what close_runner
-- leaves, for a key-value runner and, with as many sessions as clients, for a lock runner, whose Close
-- does not panic; and it returns nil exactly when every call did.
pub close-close_runner :
    (closes : Call → Bool) (cs ss : List ℕ) (s : Store)
    → length cs ≡ length ss
    → (let (calls, e) = close_kv closes 0 cs none in
        (all_closed calls s ≡ close_runner cs [] s) × ((e ≡ none) ↔ All (Succeeds closes) calls))
      × (calls : List Call) × (e : Option Failure) × (close_lock closes 0 cs ss none
          ≡ ret (calls, e))
      × (all_closed calls s ≡ close_runner cs ss s)
      × ((e ≡ none) ↔ All (Succeeds closes) calls)
close-close_runner closes cs ss s same =
    let kv = close_kv-Closes closes 0 cs none in
    let ((calls, e), eq, lock) = close_lock-Closes closes 0 cs ss none same in
    (
      (kv.leaves s, (λ n. (kv.nil_iff.0 n).0, λ h. kv.nil_iff.1 (h, refl))),
      calls,
      e,
      eq,
      lock.leaves s,
      (λ n. (lock.nil_iff.0 n).0, λ h. lock.nil_iff.1 (h, refl)),
    )
