-- ===== src/Client/Tests.antt =====
-- The theorems about the client at concrete runs.
use etcd_cloud_benchmarking.Prelude.{
  ◌/◌, ◌≤◌, ◌<◌, length, ℕ, zero, suc, ◌+◌, ◌≡◌, ◌⊎◌, refl, Bool, true, false, none, some, List, [],
  ◌∷◌, map, get_elem?, count_if, arith,
}
use etcd_cloud_benchmarking.Prelude.Int.{ℤ, pos, negsuc}
use etcd_cloud_benchmarking.Prelude.Run.{ret, panics}
use etcd_cloud_benchmarking.Prelude.Text.{Text, codes}
use etcd_cloud_benchmarking.Generator.Tests.{counting}
use etcd_cloud_benchmarking.Client.Errors.{GoError}
use etcd_cloud_benchmarking.Client.Lock.Select.{
  lock_name, contention_level, intn_checked, select_lock, select_lock-contended,
}
use etcd_cloud_benchmarking.Client.Kv.{
  Chance, Setup, Answer, Outcome as KvOutcome, request, kv_operation,
}
use etcd_cloud_benchmarking.Client.Step.{new_result}
use etcd_cloud_benchmarking.Client.LoadStep.{
  stopped, LoadStep, collect_latency, add_counters, expire, operate, stop, hand_over, spawn,
  count_spawned, close_channel, Reach, begun, later,
}
use etcd_cloud_benchmarking.Client.LoadStep.Rounds.{
  operation_of, is_failed_row, IsRound, kv_step-Counts,
}

abbrev lost : GoError
lost = record {
  is_canceled = false;
  is_deadline_exceeded = true;
  etcd_error = none;
  grpc_status = none;
  is_conn_canceled = false;
  message = "deadline exceeded";
}

abbrev three_keys : List Text
three_keys = codes "/usr/na1/007ab" ∷ codes "/sys/eu2/010xy" ∷ codes "/var/ap1/999q0" ∷ []

select_lock-contended_example :
    ((2 ≤ 5)
      × (5 / 2 ≤ length three_keys)
      × (i : ℕ) × (k : Text) × (s' : ℕ) × (get_elem? three_keys i ≡ some k)
      × (select_lock counting true (contention_level (pos 5)) (map lock_name three_keys) 7
          ≡ ret (lock_name k, k, s')))
    ⊎ (((5 < 2) ⊎ (length three_keys < 5 / 2))
        × (select_lock counting true (contention_level (pos 5)) (map lock_name three_keys) 7
            ≡ panics))
select_lock-contended_example =
    select_lock-contended counting three_keys 5 7 (omega arith) (omega arith)

-- reads until the counter reaches the share
abbrev alternating : Chance counting
alternating = record {
  below = λ p s. (share p, s + 1);
  below_all = λ s. refl;
  below_none = λ s. refl;
}
  where
    share : ℤ → Bool
    share (pos zero) = false
    share (pos (suc n)) = true
    share (negsuc n) = false

abbrev read_only : Setup
read_only = record {
  read_percent = pos 100;
  value_size = 2;
  keys = three_keys;
  num_clients = pos 4;
  client_id = pos 1;
  run_phase = "main";
}

abbrev refused : Answer
refused = record { failure = some lost; time = pos 12; now = pos 900 }

abbrev read_once : KvOutcome
read_once = request read_only refused true (codes "/usr/na1/007ab") (7 ∷ 7 ∷ [])

read_once_runs : kv_operation counting alternating read_only refused 5 ≡ ret (read_once, 7)
unfolding kv_operation intn_checked
read_once_runs = refl

-- a load step of one client that made this round
abbrev after_read : LoadStep
after_read = record {
  clients = stopped ∷ [];
  queue = [];
  pending = [];
  result = add_counters (some lost) (collect_latency (pos 12) (new_result (pos 1)));
  expired = true;
  closed = true;
  reported = none;
  made = operation_of read_once ∷ [];
}

after_read-Reach : Reach true 60 1 after_read
unfolding request
after_read-Reach =
    later
      (later
        (later
          (later
            (later
              (later (later begun (operate [] [] (operation_of read_once) refl refl))
                (hand_over [] [] (pos 12) [] (some lost) refl refl))
              (spawn [] [] (some lost) refl refl))
            (count_spawned [] [] (some lost) refl))
          (expire refl))
        (stop [] [] refl refl))
      (close_channel (refl, tt) refl)

read_once-IsRound : IsRound counting alternating read_once
read_once-IsRound = record {
  setup = read_only;
  answer = refused;
  before = 5;
  after = 7;
  returns = read_once_runs;
}

kv_step-Counts_example :
    (after_read.result.operations ≡ pos 1)
    × (after_read.result.errors ≡ pos (count_if is_failed_row (read_once ∷ [])))
    × ((p : ℤ → Bool)
        → count_if p after_read.result.latencies
          ≡ count_if (λ o. p o.metric.latency) (read_once ∷ []))
kv_step-Counts_example =
    kv_step-Counts counting alternating after_read-Reach (read_once ∷ []) (read_once-IsRound, tt)
      refl (omega arith) refl refl refl
