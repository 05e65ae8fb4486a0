-- ===== src/Client/LoadStep/Race.antt =====
-- The collector and the counters are not awaited.
use etcd_cloud_benchmarking.Prelude.{ℕ, ◌<◌, ◌≡◌, refl, true, Option, some, [], ◌∷◌}
use etcd_cloud_benchmarking.Prelude.Int.{ℤ, pos}
use etcd_cloud_benchmarking.Prelude.Run.{ret}
use etcd_cloud_benchmarking.Client.Errors.{GoError}
use etcd_cloud_benchmarking.Client.Step.{StepResult, new_result, calculate_p99_latency}
use etcd_cloud_benchmarking.Client.LoadStep.{
  stopped, Operation, LoadStep, expire, operate, stop, send, spawn, close_channel, report, Reach,
  begun, later,
}

-- the report of a step of one client, with its only latency still in the channel
abbrev early : Operation → ℤ → LoadStep
early o x = record {
  clients = stopped ∷ [];
  queue = x ∷ [];
  pending = o.0 ∷ [];
  result = new_result (pos 1);
  expired = true;
  closed = true;
  reported = some (new_result (pos 1));
  made = o ∷ [];
}

early-Reach :
    (room : ℕ) (x : ℤ) (err : Option GoError) → 0 < room → Reach true room 1 (early (err, x ∷ []) x)
early-Reach room x err h =
    later
      (later
        (later
          (later
            (later
              (later (later begun (operate [] [] (err, x ∷ []) refl refl))
                (send [] [] x [] err refl h))
              (spawn [] [] err refl refl))
            (expire refl))
          (stop [] [] refl refl))
        (close_channel (refl, tt) refl))
      (report refl refl)

-- In the key-value benchmark, with room in the channel, a step may report before anything was
-- collected or counted: for every latency and every outcome of an operation there is a run in which
-- that operation is made, its client returns, and the result of which the percentile is taken has no
-- latencies, operations or errors, so that the percentile is 0.
pub load_step_reports_early :
    (room : ℕ) (x : ℤ) (err : Option GoError) (ceil_99 : ℕ → ℕ)
    → 0 < room
    → (s : LoadStep) × (r : StepResult) × Reach true room 1 s
      × (s.made ≡ (err, x ∷ []) ∷ [])
      × (s.reported ≡ some r)
      × (r.latencies ≡ [])
      × (r.operations ≡ pos 0)
      × (r.errors ≡ pos 0)
      × (calculate_p99_latency ceil_99 r ≡ ret r)
      × (r.p99_latency ≡ pos 0)
unfolding new_result calculate_p99_latency
load_step_reports_early room x err ceil_99 h = (
  early (err, x ∷ []) x,
  new_result (pos 1),
  early-Reach room x err h,
  refl,
  refl,
  refl,
  refl,
  refl,
  refl,
  refl,
)
