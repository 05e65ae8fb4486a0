-- ===== src/Client/Program/Laws.antt =====
-- The client's goroutine tells the control program that it finished exactly when it did.
use mathlib.Core.List.{append-nil, append_assoc}
use etcd_cloud_benchmarking.Prelude.{
  sym, ap, ℕ, ◌≡◌, refl, ◌∙◌, inl, inr, Bool, true, false, List, [], ◌∷◌, ◌++◌, map, String, All,
  All-append, Bool-cases, subst, if◌then◌else◌,
}
use etcd_cloud_benchmarking.Prelude.Int.{ℤ, pos, negsuc, pos_part}
use etcd_cloud_benchmarking.Prelude.Run.{Run, ret, fails, panics, timeout, ◌>>=◌ as or_error}
use etcd_cloud_benchmarking.Client.Lock.Select.{lock_names}
use etcd_cloud_benchmarking.Client.Step.{StepResult}
use etcd_cloud_benchmarking.Client.Schedule.{Load, Runner}
use etcd_cloud_benchmarking.Client.Pool.{new_clients, new_sessions, nothing_open, Created}
use etcd_cloud_benchmarking.Prelude.Text.{Text}
use etcd_cloud_benchmarking.Control.Config.{BenchctlConfig}
use etcd_cloud_benchmarking.Generator.Random.{Source}
use etcd_cloud_benchmarking.Generator.Data.{Entry}
use etcd_cloud_benchmarking.Client.Pool.Adding.{
  Pool, Added, grown, stopped, pool_of, close_pool, add_clients, add_sessions,
}
use text.Mathlib.Text.{◌==◌ as str_eq}
use etcd_cloud_benchmarking.Client.Pool.Adding.Laws.{
  IsOwned, Ends, all, fewer, close_pool-IsOwned, add_clients-Ends, add_sessions-Ends,
}
use etcd_cloud_benchmarking.Client.Pool.Adding.Start.{
  OwnsCreated, made, not_made, new_clients-OwnsCreated, new_sessions-OwnsCreated,
}
use etcd_cloud_benchmarking.Client.Program.{
  Event, status, shows, closes, finished, Ending, value, exited, crashed, endless, Program, Action,
  World, new_runner_kv, new_runner_lock, with_locks, ends, sends, or_exit, ◌>>=◌, add_all, new_pool,
  run_runner, run_benchmark_kv, run_benchmark_lock_service, load_db, load_entries, generated,
  run_scenario, client,
}

-- a status message, with a step's result or without
pub data IsReport : Event → Type 0 where
  a_status : (s : _) → IsReport (status s)
  a_result : (r : StepResult) → IsReport (shows r)

-- not a return
abbrev pub IsStopped {ℓ} : {A : Type ℓ} → Ending A → Type 0
IsStopped (value a) = ⊥
IsStopped e = Unit

-- Reports, and at a return `last` after them.
pub data Leaves {ℓ} {A : Type ℓ} (last : List Event) : Program A → Type ℓ where
  returns :
      (es reports : List Event) (a : A)
      → All IsReport reports
      → es ≡ reports ++ last
      → Leaves last (ends es (value a))
  stops : (es : List Event) (e : Ending A) → IsStopped e → All IsReport es → Leaves last (ends es e)

module _ {κ} {B : Type κ} where
  prefixed :
      {last : List Event} (es : List Event) {p : Program B}
      → All IsReport es
      → Leaves last p
      → Leaves last (record p { events = es ++ p.events })
  prefixed {last} es h (returns fs rs b k e) =
      returns (es ++ fs) (es ++ rs) b (All-append IsReport es rs h k)
        (ap (λ x. es ++ x) e ∙ sym (append_assoc es rs last))
  prefixed es h (stops fs e n k) = stops (es ++ fs) e n (All-append IsReport es fs h k)

module _ {ℓ κ} {A : Type ℓ} {B : Type κ} where
  -- reports, and what may follow them
  >>=-Leaves :
      {last : List Event} {p : Program A} (next : A → Program B)
      → Leaves [] p
      → ((a : A) → Leaves last (next a))
      → Leaves last (p >>= next)
  >>=-Leaves {last} next (returns es rs a h e) k =
      subst (λ x. Leaves last (ends x (value a) >>= next)) (sym (e ∙ append-nil rs))
        (prefixed rs h (k a))
  >>=-Leaves next (stops es (value a) n h) k = absurd n
  >>=-Leaves next (stops es exited n h) k = stops es exited tt h
  >>=-Leaves next (stops es crashed n h) k = stops es crashed tt h
  >>=-Leaves next (stops es endless n h) k = stops es endless tt h

-- what is sent last
then_sends :
    {last : List Event} {p : Action} (more : List Event)
    → Leaves last p
    → Leaves (last ++ more) (p >>= λ u. sends more)
then_sends {last} more (returns es rs a h e) =
    returns (es ++ more) rs tt h (ap (λ x. x ++ more) e ∙ append_assoc rs last more)
then_sends more (stops es (value a) n h) = absurd n
then_sends more (stops es exited n h) = stops es exited tt h
then_sends more (stops es crashed n h) = stops es crashed tt h
then_sends more (stops es endless n h) = stops es endless tt h

reports_only : (es : List Event) → All IsReport es → Leaves [] (sends es)
reports_only es h = returns es es tt h (sym (append-nil es))

or_exit-Leaves {ℓ} :
    {A : Type ℓ} (es : List Event) → All IsReport es → (r : Run A) → Leaves [] (or_exit es r)
or_exit-Leaves es h (ret a) = returns [] [] a tt refl
or_exit-Leaves es h (fails e) = stops es exited tt h
or_exit-Leaves es h panics = stops [] crashed tt tt
or_exit-Leaves es h timeout = stops [] endless tt tt

one_status : (s : String) → Leaves [] (sends (status s ∷ []))
one_status s = reports_only (status s ∷ []) (a_status s, tt)

two_statuses : (s t : String) → Leaves [] (sends (status s ∷ status t ∷ []))
two_statuses s t = reports_only (status s ∷ status t ∷ []) (a_status s, (a_status t, tt))

exits_with {ℓ} : {A : Type ℓ} (why : String) (r : Run A) → Leaves [] (or_exit (status why ∷ []) r)
exits_with why r = or_exit-Leaves (status why ∷ []) (a_status why, tt) r

results-IsReport : (rs : List StepResult) → All IsReport (map shows rs)
results-IsReport [] = tt
results-IsReport (r ∷ rs) = (a_result r, results-IsReport rs)

completed :
    (rs : List StepResult)
    → Leaves [] (sends (status "Benchmark completed. Overall results:" ∷ map shows rs))
completed rs = reports_only _ (a_status _, results-IsReport rs)

-- addClients of either runner keeps a pool owned, whatever it returns
abbrev Keeps : (ℕ → Pool → Added) → Type 0
Keeps add = (k : ℕ) (p : Pool) → IsOwned p → IsOwned (pool_of (add k p))

IsOwned-at_end : {n : ℕ} {a : Added} → Ends n a → IsOwned (pool_of a)
IsOwned-at_end (all p w h) = w
IsOwned-at_end (fewer p w h) = w

add_all-Keeps :
    (add : ℕ → Pool → Added)
    → Keeps add
    → (ns : List ℤ) (p : Pool) → IsOwned p
    → IsOwned (pool_of (add_all add ns p))
unfolding add_all
add_all-Keeps add keeps [] p w = w
add_all-Keeps add keeps (n ∷ ns) p w =
    both (add (pos_part n) p) (keeps (pos_part n) p w) (λ q v. add_all-Keeps add keeps ns q v)
  where
    both :
        (a : Added)
        → IsOwned (pool_of a)
        → ((q : Pool) → IsOwned q → IsOwned (pool_of (add_all add ns q)))
        → IsOwned (pool_of (elim a [ grown q ↦ add_all add ns q | stopped q ↦ stopped q ]))
    both (grown q) v rest = rest q v
    both (stopped q) v rest = v

-- a new runner owns its pool
abbrev Owned : Run Pool → Type 0
Owned (ret p) = IsOwned p
Owned r = Unit

new_pool-Owned :
    {n : ℕ} (exporter_ok : Bool) (pool : Created)
    → OwnsCreated n pool
    → Owned (new_pool exporter_ok pool)
unfolding new_pool
new_pool-Owned b _ (not_made s) = tt
new_pool-Owned true _ (made cs ss s own h) = own
new_pool-Owned false _ (made cs ss s own h) = tt

with_locks-Owned :
    (n : ℕ) (keys : List Text) (pool : Run Pool) → Owned pool → Owned (with_locks n keys pool)
unfolding with_locks
with_locks-Owned n keys (fails e) own = tt
with_locks-Owned n keys panics own = tt
with_locks-Owned n keys timeout own = tt
with_locks-Owned n keys (ret p) own = names (lock_names n keys)
  where
    names : (m : Run (List Text)) → Owned (or_error m λ ns. ret p)
    names (ret ns) = own
    names (fails e) = tt
    names panics = tt
    names timeout = tt

module _ (R : Source) (c : BenchctlConfig) (w : World R) (fuel : ℕ) where
  closes_all_clients :
      (add : ℕ → Pool → Added) (run_load_step : Runner → Load → Run StepResult) (made : Run Pool)
      → Keeps add
      → Owned made
      → Leaves (closes nothing_open ∷ []) (run_runner R c w fuel add run_load_step made)
  unfolding run_runner
  closes_all_clients add run_load_step (fails e) keeps own = stops _ exited tt (a_status _, tt)
  closes_all_clients add run_load_step panics keeps own = stops _ crashed tt tt
  closes_all_clients add run_load_step timeout keeps own = stops _ endless tt tt
  closes_all_clients add run_load_step (ret p) keeps own =
      >>=-Leaves _ (exits_with "Benchmark failed" _) λ r.
        >>=-Leaves _ (completed r.results) λ u. ending r (add_all-Keeps add keeps r.added p own)
    where
      ending :
          {q : Pool} (r : Runner)
          → IsOwned q
          → Leaves (closes nothing_open ∷ []) (sends (closes (close_pool q) ∷ []))
      ending {q} r v = returns _ [] tt tt (ap (λ x. closes x ∷ []) (close_pool-IsOwned q v))

  new_runner_kv-Owned : Owned (new_runner_kv R c w fuel)
  unfolding new_runner_kv
  new_runner_kv-Owned = of_count c.initial_clients
    where
      of_count :
          (z : ℤ)
          → Owned (elim z [
            | pos n ↦ new_pool w.exporter_ok (new_clients w.cluster n 0 [] nothing_open)
            | negsuc n ↦ panics
          ])
      of_count (pos n) = new_pool-Owned w.exporter_ok _ (new_clients-OwnsCreated w.cluster n)
      of_count (negsuc n) = tt

  new_runner_lock-Owned : (keys : List Text) → Owned (new_runner_lock R c w fuel keys)
  unfolding new_runner_lock
  new_runner_lock-Owned keys =
      with_locks-Owned (pos_part c.num_keys) keys _ (of_count c.initial_clients)
    where
      of_count :
          (z : ℤ)
          → Owned (elim z [
            | pos n ↦ new_pool w.exporter_ok (new_sessions w.cluster n 0 [] nothing_open)
            | negsuc n ↦ panics
          ])
      of_count (pos n) = new_pool-Owned w.exporter_ok _ (new_sessions-OwnsCreated w.cluster n)
      of_count (negsuc n) = tt

  run_benchmark_kv-Leaves :
      (keys : List Text) → Leaves (closes nothing_open ∷ []) (run_benchmark_kv R c w fuel keys)
  unfolding run_benchmark_kv
  run_benchmark_kv-Leaves keys = >>=-Leaves _ (or_exit-Leaves [] tt _) λ shares.
      closes_all_clients (add_clients w.cluster) (w.kv_step shares keys) (new_runner_kv R c w fuel)
        (λ k p v. IsOwned-at_end (add_clients-Ends w.cluster k _ p v refl)) new_runner_kv-Owned

  run_benchmark_lock_service-Leaves :
      (keys : List Text)
      → Leaves (closes nothing_open ∷ []) (run_benchmark_lock_service R c w fuel keys)
  unfolding run_benchmark_lock_service
  run_benchmark_lock_service-Leaves keys =
      closes_all_clients (add_sessions w.cluster) (w.lock_step keys)
        (new_runner_lock R c w fuel keys)
        (λ k p v. IsOwned-at_end (add_sessions-Ends w.cluster k _ p v refl))
        (new_runner_lock-Owned keys)

  load_entries-Leaves : (entries : List Entry) → Leaves [] (load_entries R c w fuel entries)
  unfolding load_entries
  load_entries-Leaves entries = >>=-Leaves _ (two_statuses _ _) λ u.
      >>=-Leaves _ (dialed w.dials) λ u.
        >>=-Leaves _ (one_status "Synthetic data generated and loaded successfully")
          λ u. returns [] [] (map (λ e. e.0) (w.range entries)) tt refl
    where
      dialed : (b : Bool) → Leaves [] (if b then sends [] else ends {A = Unit {0}} [] exited)
      dialed true = reports_only [] tt
      dialed false = stops [] exited tt tt

  load_db-Leaves : Leaves [] (load_db R c w fuel)
  unfolding load_db
  load_db-Leaves = >>=-Leaves _ (one_status _) λ u.
      >>=-Leaves _
        (or_exit-Leaves (status "Number of key-value pairs generated" ∷ []) (a_status _, tt)
          (generated R c w fuel))
        λ b. load_entries-Leaves b.0

  run_scenario-Leaves :
      (keys : List Text) → Leaves (closes nothing_open ∷ []) (run_scenario R c w fuel keys)
  unfolding run_scenario
  run_scenario-Leaves keys = elim (Bool-cases (str_eq c.scenario "kv-store")) [
    | inl k ↦ rw (k) (>>=-Leaves _ (one_status _) λ u. run_benchmark_kv-Leaves keys)
    | inr k ↦ rw (k) (>>=-Leaves _ (one_status _) λ u. run_benchmark_lock_service-Leaves keys)
  ]

  -- On the side of the client program, BenchmarkFinished is sent once, last, exactly when loading
  -- and the benchmark returned; just before it the runner was closed, which left no client or
  -- session open, those added during the benchmark included; before that, and whenever the program
  -- exits, panics or does not end, there are only status messages. What deferred calls do on a panic
  -- is left out.
  pub client-Leaves : Leaves (closes nothing_open ∷ finished ∷ []) (client R c w fuel)
  unfolding client
  client-Leaves =
      >>=-Leaves _ (one_status _) λ u.
        >>=-Leaves _ load_db-Leaves λ keys. then_sends (finished ∷ []) (run_scenario-Leaves keys)
