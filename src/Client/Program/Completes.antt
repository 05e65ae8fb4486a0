-- ===== src/Client/Program/Completes.antt =====
-- From a configuration that validates to BenchmarkFinished.
use text.Mathlib.Text.{◌==◌ as str_eq}
use etcd_cloud_benchmarking.Prelude.{
  ℕ, zero, suc, ◌+◌, ◌*◌, ◌≤◌, ◌<◌, ◌≡◌, inl, inr, refl, sym, ap, ◌∙◌, Bool, true, false, none,
  some, List, [], ◌∷◌, ◌++◌, map, length, length-map, String, subst, count_if, count_if-append,
  Bool-cases, arith,
}
use etcd_cloud_benchmarking.Prelude.Int.{ℤ, pos_part}
use etcd_cloud_benchmarking.Prelude.Text.{Text}
use etcd_cloud_benchmarking.Prelude.Run.{Run, ret}
use etcd_cloud_benchmarking.Control.Config.{BenchctlConfig}
use etcd_cloud_benchmarking.Control.Config.Validate.{
  Validator, Net, validate_config, get_rw_percentages,
}
use etcd_cloud_benchmarking.Control.Config.Laws.{validate_config-workload}
use etcd_cloud_benchmarking.Generator.Random.{Source}
use etcd_cloud_benchmarking.Generator.{Generator}
use etcd_cloud_benchmarking.Generator.Data.{Entry, generate_data-AreEntries}
use etcd_cloud_benchmarking.Client.Lock.Select.{lock_name, lock_names}
use etcd_cloud_benchmarking.Client.Step.{StepResult}
use etcd_cloud_benchmarking.Client.Schedule.{Load, Runner}
use etcd_cloud_benchmarking.Client.Schedule.Plan.{IsPlan}
use etcd_cloud_benchmarking.Client.Schedule.Laws.{run-planned}
use etcd_cloud_benchmarking.Client.Pool.{
  nothing_open, Cluster, Store, Created, created, new_clients, new_sessions,
}
use etcd_cloud_benchmarking.Client.Pool.Adding.{Pool, Added, grown, add_clients, add_sessions}
use etcd_cloud_benchmarking.Client.Program.{
  Event, status, shows, closes, finished, value, Program, Action, World, new_runner_kv,
  new_runner_lock, with_locks, ends, sends, or_exit, or_fail, ◌>>=◌, add_all, add_more, new_pool,
  run_runner, run_benchmark_kv, run_benchmark_lock_service, load_db, load_entries, generated,
  run_scenario, client,
}

-- a status message with the result of a step
pub is_result : Event → Bool
is_result (shows r) = true
is_result (status s) = false
is_result (closes s) = false
is_result finished = false

-- the function returned, after showing this many results
record Returns {ℓ} {A : Type ℓ} (k : ℕ) (a : A) (p : Program A) : Type ℓ where
  ends_eq : p.ending ≡ value a
  shown : count_if is_result p.events ≡ k

module _ {ℓ κ} {A : Type ℓ} {B : Type κ} where
  >>=-Returns :
      {j k : ℕ} {a : A} {b : B} {p : Program A} (next : A → Program B)
      → Returns j a p
      → Returns k b (next a)
      → Returns (j + k) b (p >>= next)
  >>=-Returns {j} {k} {a} {b} {p} next h t =
      subst (λ e. Returns (j + k) b (ends p.events e >>= next)) (sym h.ends_eq)
        record {
          ends_eq = t.ends_eq;
          shown = count_if-append is_result p.events (next a).events ∙ cc (h.shown, t.shown);
        }

  -- of two in a row, only one shows results
  after_none :
      {k : ℕ} {a : A} {b : B} {p : Program A} (next : A → Program B)
      → Returns 0 a p
      → Returns k b (next a)
      → Returns k b (p >>= next)
  after_none {k} {a} {b} {p} next h t =
      subst (λ m. Returns m b (p >>= next)) (omega arith) (>>=-Returns next h t)

  then_none :
      {k : ℕ} {a : A} {b : B} {p : Program A} (next : A → Program B)
      → Returns k a p
      → Returns 0 b (next a)
      → Returns k b (p >>= next)
  then_none {k} {a} {b} {p} next h t =
      subst (λ m. Returns m b (p >>= next)) (omega arith) (>>=-Returns next h t)

sends_results : (rs : List StepResult) → count_if is_result (map shows rs) ≡ length rs
unfolding is_result
sends_results [] = refl
sends_results (r ∷ rs) = omega (arith, sends_results rs)

says : (s : String) → Returns 0 tt (sends (status s ∷ []))
unfolding is_result
says s = record { ends_eq = refl; shown = refl }

-- the results, and Close
shows_all :
    (rs : List StepResult) (s : Store) {k : ℕ}
    → length rs ≡ k
    → Returns k tt (
        sends (status "Benchmark completed. Overall results:" ∷ map shows rs) >>= λ u.
        sends (closes s ∷ []))
unfolding is_result
shows_all rs s {k} h =
    let results : Returns k tt
        (sends (status "Benchmark completed. Overall results:" ∷ map shows rs)) =
      record { ends_eq = refl; shown = omega (arith, sends_results rs, h) } in
    then_none (λ u. sends (closes s ∷ [])) results record { ends_eq = refl; shown = refl }

finishing : Returns 0 tt (sends (finished ∷ []))
unfolding is_result
finishing = record { ends_eq = refl; shown = refl }

or_exit-Returns {ℓ} :
    {A : Type ℓ} {a : A} {r : Run A} (es : List Event) → r ≡ ret a → Returns 0 a (or_exit es r)
or_exit-Returns es e = rw (e) record { ends_eq = refl; shown = refl }

-- a cluster that takes every client and session
pub record TakesAll (c : Cluster) : Type 0 where
  pub clients_ok : (i : ℕ) → c.client_ok i ≡ true
  pub sessions_ok : (i : ℕ) → c.session_ok i ≡ true

-- addClients succeeds
abbrev Grows : (ℕ → Pool → Added) → Type 0
Grows add = (k : ℕ) (p : Pool) → (q : Pool) × (add k p ≡ grown q)

abbrev Creates : Created → Type 0
Creates made = (cs ss : List ℕ) × (s : Store) × (made ≡ created cs ss s)

module _ (c : Cluster) (ok : TakesAll c) where
  clients_grow : Grows (add_clients c)
  unfolding add_clients
  clients_grow zero p = (p, refl)
  clients_grow (suc k) p = rw (ok.clients_ok (length p.clients)) (clients_grow k _)

  sessions_grow : Grows (add_sessions c)
  unfolding add_sessions
  sessions_grow zero p = (p, refl)
  sessions_grow (suc k) p =
      rw (ok.clients_ok (length p.clients), ok.sessions_ok (length p.clients)) (sessions_grow k _)

  clients_created : (k i : ℕ) (cs : List ℕ) (s : Store) → Creates (new_clients c k i cs s)
  unfolding new_clients
  clients_created zero i cs s = (cs, [], s, refl)
  clients_created (suc k) i cs s = rw (ok.clients_ok i) (clients_created k (suc i) _ _)

  sessions_created : (k i : ℕ) (cs : List ℕ) (s : Store) → Creates (new_sessions c k i cs s)
  unfolding new_sessions
  sessions_created zero i cs s = (cs, cs, s, refl)
  sessions_created (suc k) i cs s =
      rw (ok.clients_ok i, ok.sessions_ok i) (sessions_created k (suc i) _ _)

all_grow :
    (add : ℕ → Pool → Added)
    → Grows add
    → (ns : List ℤ) (p : Pool) → (q : Pool) × (add_all add ns p ≡ grown q)
unfolding add_all
all_grow add g [] p = (p, refl)
all_grow add g (n ∷ ns) p =
    let (q, e) = g (pos_part n) p in let (r, d) = all_grow add g ns q in (r, rw (e, add_all) d)

more_grow :
    (add : ℕ → Pool → Added)
    → Grows add
    → (p : Pool) (r : Runner) (n : ℤ) → add_more add p r n ≡ none
unfolding add_more
more_grow add g p r n = let (q, e) = all_grow add g (r.added ++ n ∷ []) p in rw (e, add_more) refl

lock_names-enough :
    (n : ℕ) (keys : List Text) → n ≤ length keys → (ns : List Text) × (lock_names n keys ≡ ret ns)
unfolding lock_names
lock_names-enough zero keys h = ([], refl)
lock_names-enough (suc n) [] h = absurd (omega (arith, h))
lock_names-enough (suc n) (k ∷ keys) h =
    let (ns, e) = lock_names-enough n keys (omega (arith, h)) in (lock_name k ∷ ns, rw e)

locks_named :
    (n : ℕ) (keys : List Text) (made : Run Pool) {p : Pool} {ns : List Text}
    → made ≡ ret p
    → lock_names n keys ≡ ret ns
    → with_locks n keys made ≡ ret p
unfolding with_locks
locks_named n keys made e h = rw (e, h) refl

count_all : (es : List Entry) → count_if (λ e. true) es ≡ length es
count_all [] = refl
count_all (e ∷ es) = omega (arith, count_all es)

-- load steps that return
abbrev pub Steps : (Runner → Load → Run StepResult) → Type 0
Steps f = (r : Runner) (l : Load) → (x : StepResult) × (f r l ≡ ret x)

-- a world in which no call of other code fails, for these steps
pub record IsSound {R : Source} (w : World R) : Type 0 where
  pub dials_ok : w.dials ≡ true
  pub exporter : w.exporter_ok ≡ true
  pub takes_all : TakesAll w.cluster
  pub kv_steps : (shares : ℕ × ℕ) (keys : List Text) → Steps (w.kv_step shares keys)
  pub lock_steps : (keys : List Text) → Steps (w.lock_step keys)

module _ {R : Source} (c : BenchctlConfig) (w : World R) (total step initial more most n fuel : ℕ)
    (plan : IsPlan c total step initial more most) (ok : IsSound w) (long_enough : total ≤ n * step)
    (not_longer : n * step < total + step) (enough : n < fuel) where
  runner-Returns :
      (add : ℕ → Pool → Added) (f : Runner → Load → Run StepResult) (p : Pool) (made : Run Pool)
      → Grows add
      → Steps f
      → made ≡ ret p
      → Returns n tt (run_runner R c w fuel add f made)
  unfolding run_runner is_result
  runner-Returns add f p made g steps made_eq =
      let (r, run_eq, _, _, counted) =
        run-planned c total step initial more most n fuel f (add_more add p) plan steps
          (more_grow add g p) long_enough not_longer enough in
      after_none _ (or_exit-Returns _ made_eq)
        (after_none _ (or_exit-Returns _ run_eq) (shows_all r.results _ counted))

  pool_created :
      (made : Created) → Creates made → (p : Pool) × (new_pool w.exporter_ok made ≡ ret p)
  unfolding new_pool
  pool_created made (cs, ss, s, e) =
      (record { clients = cs; sessions = ss; open_ones = s }, rw (e, ok.exporter) refl)

  new_runner_kv_made : (p : Pool) × (new_runner_kv R c w fuel ≡ ret p)
  unfolding new_runner_kv
  new_runner_kv_made =
      rw (plan.initial_eq) (pool_created _ (clients_created w.cluster ok.takes_all _ _ _ _))

  new_runner_lock_made :
      (keys : List Text)
      → pos_part c.num_keys ≤ length keys
      → (p : Pool) × (new_runner_lock R c w fuel keys ≡ ret p)
  unfolding new_runner_lock
  new_runner_lock_made keys h =
      let (p, made) =
        pool_created _ (sessions_created w.cluster ok.takes_all initial 0 [] nothing_open) in
      let (names, named) = lock_names-enough (pos_part c.num_keys) keys h in
      (p, rw (plan.initial_eq) (locks_named (pos_part c.num_keys) keys _ made named))

  kv-Returns :
      (keys : List Text) (shares : ℕ × ℕ)
      → get_rw_percentages c.workload_type ≡ some shares
      → Returns n tt (run_benchmark_kv R c w fuel keys)
  unfolding run_benchmark_kv
  kv-Returns keys shares e =
      let (p, made) = new_runner_kv_made in
      after_none _ (or_exit-Returns {a = shares} [] (ap or_fail e)) (
        runner-Returns (add_clients w.cluster) (w.kv_step shares keys) p _
          (clients_grow w.cluster ok.takes_all) (ok.kv_steps shares keys) made)

  lock-Returns :
      (keys : List Text)
      → pos_part c.num_keys ≤ length keys
      → Returns n tt (run_benchmark_lock_service R c w fuel keys)
  unfolding run_benchmark_lock_service
  lock-Returns keys h =
      let (p, made) = new_runner_lock_made keys h in
      runner-Returns (add_sessions w.cluster) (w.lock_step keys) p _
        (sessions_grow w.cluster ok.takes_all) (ok.lock_steps keys) made

  lock_is_kv : {x : String} → x ≡ "lock-service" → str_eq x "kv-store" ≡ true → ⊥
  lock_is_kv {x} l k = lit (subst (λ y. str_eq y "kv-store" ≡ true) l k)
    where
      lit : str_eq "lock-service" "kv-store" ≡ true → ⊥
      lit e = cc e

  scenario-Returns :
      (v : Validator) (net : Net) (keys : List Text)
      → validate_config v net c ≡ true
      → pos_part c.num_keys ≤ length keys
      → Returns n tt (run_scenario R c w fuel keys)
  unfolding run_scenario
  scenario-Returns v net keys h many = elim (Bool-cases (str_eq c.scenario "kv-store")) [
    | inl k ↦ elim (validate_config-workload v net c h) [
      | inl (_, (reads, writes, e, _)) ↦ rw (k) (
          after_none (λ u. run_benchmark_kv R c w fuel keys) (says _)
            (kv-Returns keys (reads, writes) e))
      | inr (l, _) ↦ absurd (lock_is_kv l k)
    ]
    | inr k ↦ rw (k) (
        after_none (λ u. run_benchmark_lock_service R c w fuel keys) (says _)
          (lock-Returns keys many))
  ]

  keys_of : List Entry → List Text
  keys_of entries = map (λ e. e.0) (w.range entries)

  -- the generated keys are as many as asked for, in whatever order the range meets them
  enough_keys :
      (entries : List Entry) (g : Generator R)
      → generated R c w fuel ≡ ret (entries, g)
      → pos_part c.num_keys ≤ length (keys_of entries)
  unfolding generated keys_of
  enough_keys entries g e =
      let (m, asked, are) =
        generate_data-AreEntries R fuel c.num_keys c.key_size c.value_size _ entries g e in
      omega (
        arith,
        ap pos_part asked,
        are.as_many,
        count_all entries,
        count_all (w.range entries),
        w.range_counts entries (λ x. true),
        length-map (λ (x : Entry). x.0) (w.range entries),
      )

  entries_return :
      (entries : List Entry) → Returns 0 (keys_of entries) (load_entries R c w fuel entries)
  unfolding load_entries is_result keys_of
  entries_return entries = rw (ok.dials_ok) record { ends_eq = refl; shown = refl }

  db-Returns :
      (entries : List Entry) (g : Generator R)
      → generated R c w fuel ≡ ret (entries, g)
      → Returns 0 (keys_of entries) (load_db R c w fuel)
  unfolding load_db
  db-Returns entries g e =
      let load : List Entry × Generator R → Program (List Text) =
        λ x. load_entries R c w fuel x.0 in
      after_none
        (λ u.
          or_exit (status "Number of key-value pairs generated" ∷ []) (generated R c w fuel)
          >>= load)
        (says _) (after_none load (or_exit-Returns {a = (entries, g)} _ e) (entries_return entries))

  client-Returns :
      (keys : List Text)
      → Returns 0 keys (load_db R c w fuel)
      → Returns n tt (run_scenario R c w fuel keys)
      → Returns n tt (client R c w fuel)
  unfolding client
  client-Returns keys db bench =
      let last : Unit → Action = λ u. sends (finished ∷ []) in
      let benchmark : List Text → Action = λ ks. run_scenario R c w fuel ks >>= last in
      after_none (λ u. load_db R c w fuel >>= benchmark) (says _)
        (after_none benchmark db (then_none last bench finishing))

  -- With a configuration that validates, whose numbers are below 2^62 and whose steps take time, in a
  -- world where the data is generated, no call of other code fails and load steps return, the client
  -- program gets to its end, with fuel above n, the total duration over the step duration, rounded
  -- up; and it shows n results, one for each step.
  pub client-completes :
      (v : Validator) (net : Net) (entries : List Entry) (g : Generator R)
      → validate_config v net c ≡ true
      → generated R c w fuel ≡ ret (entries, g)
      → ((client R c w fuel).ending ≡ value tt)
        × (count_if is_result (client R c w fuel).events ≡ n)
  client-completes v net entries g h e =
      let all =
        client-Returns (keys_of entries) (db-Returns entries g e)
          (scenario-Returns v net (keys_of entries) h (enough_keys entries g e)) in
      (all.ends_eq, all.shown)
