-- ===== src/Control/Session/Ends.antt =====
-- How a benchmark ends for the control program.
use etcd_cloud_benchmarking.Prelude.{
  ℕ, suc, ◌≡◌, refl, ap, Bool, true, false, none, some, List, [], ◌∷◌, String, if◌then◌else◌,
}
use etcd_cloud_benchmarking.Prelude.Run.{ret, panics}
use etcd_cloud_benchmarking.Control.Session.{
  Reply, eof, status, config_response, finished, unknown, recv_error, Session, Next, continues,
  returns, new_session, close_term, terminate, handle, run_benchmark,
}

-- the first reply that ends a benchmark decides: what runBenchmark returns, and how often it sent
-- Shutdown
abbrev pub ending : List Reply → Next × ℕ
ending [] = (continues, 0)
ending (eof ∷ rs) = (returns none, 0)
ending (recv_error e ∷ rs) = (returns (some e), 0)
ending (finished ∷ rs) = (returns none, 1)
ending (status ∷ rs) = ending rs
ending (config_response ∷ rs) = ending rs
ending (unknown ∷ rs) = ending rs

closed :
    (rs : List Reply)
    → run_benchmark rs (record { shutdowns = 1; term_closed = true })
      ≡ ret (returns none, record { shutdowns = 1; term_closed = true })
unfolding run_benchmark
closed [] = refl
closed (r ∷ rs) = refl

-- With no interrupt, and a configuration that can be sent, runBenchmark never panics, whatever it
-- receives. The first end of the stream, error or Finished decides: it returns nil, that error, or
-- nil after sending Shutdown, exactly once; with none of them it still waits and sent nothing.
pub run_benchmark-ending :
    (rs : List Reply)
    → (s : Session) × (run_benchmark rs new_session ≡ ret ((ending rs).0, s))
      × (s.shutdowns ≡ (ending rs).1)
unfolding run_benchmark handle close_term terminate
run_benchmark-ending [] = (new_session, refl, refl)
run_benchmark-ending (eof ∷ rs) = (record { shutdowns = 0; term_closed = true }, refl, refl)
run_benchmark-ending (recv_error e ∷ rs) =
    (record { shutdowns = 0; term_closed = true }, refl, refl)
run_benchmark-ending (finished ∷ rs) =
    (record { shutdowns = 1; term_closed = true }, closed rs, refl)
run_benchmark-ending (status ∷ rs) = run_benchmark-ending rs
run_benchmark-ending (config_response ∷ rs) = run_benchmark-ending rs
run_benchmark-ending (unknown ∷ rs) = run_benchmark-ending rs

-- terminate succeeds while the channel is open; after it, what a Recv already under way returns, the
-- end of the stream or an error, makes runBenchmark panic, and so does another terminate.
pub terminate_then_panics :
    (s : Session) (e : String)
    → s.term_closed ≡ false
    → (s' : Session) × (terminate s ≡ ret s')
      × (handle eof s' ≡ panics)
      × (handle (recv_error e) s' ≡ panics)
      × (terminate s' ≡ panics)
unfolding terminate close_term handle
terminate_then_panics s e h =
    let s' : Session = record { shutdowns = suc s.shutdowns; term_closed = true } in
    (s', ap (λ (b : Bool). if b then panics else ret s') h, refl, refl, refl)
