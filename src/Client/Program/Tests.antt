-- ===== src/Client/Program/Tests.antt =====
-- The client's goroutine on a concrete configuration, with an etcd that takes everything.
use etcd_cloud_benchmarking.Prelude.{◌*◌, ◌≡◌, refl, true, [], ◌∷◌, map, arith}
use etcd_cloud_benchmarking.Prelude.Run.{ret}
use etcd_cloud_benchmarking.Control.Config.Validate.{minute}
use etcd_cloud_benchmarking.Control.Tests.{small}
use etcd_cloud_benchmarking.Generator.Tests.{counting, sample, two_keys_left, generate_data_runs}
use etcd_cloud_benchmarking.Client.Step.{new_result}
use etcd_cloud_benchmarking.Client.Schedule.Plan.{IsPlan}
use etcd_cloud_benchmarking.Client.Pool.{nothing_open}
use etcd_cloud_benchmarking.Client.Program.{
  World, closes, finished, value, generated, load_db, client,
}
use etcd_cloud_benchmarking.Client.Program.Laws.{Leaves, client-Leaves}
use etcd_cloud_benchmarking.Client.LoadDb.Tests.{all_put}
use etcd_cloud_benchmarking.Client.Program.Filled.{Filled, load_db-Filled}
use etcd_cloud_benchmarking.Client.Program.Completes.{IsSound}

abbrev pub takes_everything : World counting
takes_everything = record {
  seeded = λ seed. 0;
  dials = true;
  range = λ es. es;
  range_counts = λ es test. refl;
  cluster = record { client_ok = λ i. true; session_ok = λ i. true };
  exporter_ok = true;
  kv_step = λ shares keys r l. ret (new_result l.clients);
  lock_step = λ keys r l. ret (new_result l.clients);
}

pub takes_everything-IsSound : IsSound takes_everything
takes_everything-IsSound = record {
  dials_ok = refl;
  exporter = refl;
  takes_all = record { clients_ok = λ i. refl; sessions_ok = λ i. refl };
  kv_steps = λ shares keys r l. (new_result l.clients, refl);
  lock_steps = λ keys r l. (new_result l.clients, refl);
}

pub small-IsPlan : IsPlan small (30 * minute) minute 5 5 100
small-IsPlan = record {
  total_eq = refl;
  step_eq = refl;
  initial_eq = refl;
  more_eq = refl;
  most_eq = refl;
  step_pos = omega arith;
  total-lt = omega arith;
  step-lt = omega arith;
  initial-lt = omega arith;
  more-lt = omega arith;
  most-lt = omega arith;
}

pub small-generated : generated counting small takes_everything 40 ≡ ret (sample, two_keys_left)
unfolding generated
small-generated = generate_data_runs

client-Leaves_example :
    Leaves (closes nothing_open ∷ finished ∷ []) (client counting small takes_everything 40)
client-Leaves_example = client-Leaves counting small takes_everything 40

-- one worker that puts both entries
load_db-Filled_example :
    ((load_db counting small takes_everything 40).ending ≡ value (map (λ e. e.0) sample))
    × Filled small sample (map (λ e. e.0) sample) sample
load_db-Filled_example =
    load_db-Filled counting small takes_everything 40 small-generated refl (all_put _ _)
      (omega arith) refl
