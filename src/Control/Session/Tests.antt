-- ===== src/Control/Session/Tests.antt =====
-- The end of a concrete session.
use etcd_cloud_benchmarking.Prelude.{◌≡◌, refl, true, none, List, [], ◌∷◌}
use etcd_cloud_benchmarking.Prelude.Run.{ret}
use etcd_cloud_benchmarking.Control.Session.{
  Reply, eof, status, config_response, finished, Next, new_session, run_benchmark, handle,
  terminate, close_term,
}

abbrev replies : List Reply
replies = config_response ∷ status ∷ finished ∷ eof ∷ []

finishes_once :
    run_benchmark replies new_session
    ≡ ret (Next.returns none, record { shutdowns = 1; term_closed = true })
unfolding run_benchmark handle terminate close_term new_session
finishes_once = refl
