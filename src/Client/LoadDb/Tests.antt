-- ===== src/Client/LoadDb/Tests.antt =====
-- Loading two entries by one worker.
use etcd_cloud_benchmarking.Prelude.{
  ◌+◌, ◌*◌, ◌≤◌, ◌≡◌, ◌⊎◌, refl, true, false, List, [], ◌∷◌, length, arith,
}
use etcd_cloud_benchmarking.Prelude.Text.{codes}
use etcd_cloud_benchmarking.Generator.Data.{Entry}
use etcd_cloud_benchmarking.Client.LoadDb.{
  finished, Loading, Step, dial, send, close_tasks, receive, put_returns, finish, wait_group, Runs,
  begun, later,
}
use etcd_cloud_benchmarking.Client.LoadDb.Ends.{load_db-ends}

-- after a worker that waits, receives and puts, with the entries sent in between
abbrev pub done : Entry → Entry → Loading
done first second = record {
  todo = [];
  keys = first.0 ∷ second.0 ∷ [];
  queue = [];
  closed = true;
  workers = finished ∷ [];
  puts = first ∷ second ∷ [];
  loaded = true;
  exited = false;
}

pub all_put : (first second : Entry) → Runs 1 (first ∷ second ∷ []) 10 (done first second)
all_put first second =
    later
      (later
        (later
          (later
            (later
              (later
                (later
                  (later
                    (later (later begun (dial [] [] refl refl))
                      (send first (second ∷ []) refl refl (omega arith)))
                    (receive [] [] first [] refl refl refl))
                  (send second [] refl refl (omega arith)))
                (put_returns [] [] first refl refl))
              (receive [] [] second [] refl refl refl))
            (close_tasks refl refl refl))
          (put_returns [] [] second refl refl))
        (finish [] [] refl refl refl refl))
      (wait_group refl refl (refl, tt) refl)

abbrev a_entry : Entry
a_entry = (codes "a", 1 ∷ [])

abbrev b_entry : Entry
b_entry = (codes "b", 2 ∷ [])

abbrev two : List Entry
two = a_entry ∷ b_entry ∷ []

abbrev two_done : Loading
two_done = done a_entry b_entry

load_db-ends_example :
    (10 ≤ 4 * length two + 2 * 1 + 3)
    × ((two_done.loaded ≡ true) ⊎ (two_done.exited ≡ true) ⊎ ((t : Loading) × Step 1 two_done t))
load_db-ends_example = load_db-ends (all_put a_entry b_entry) (omega arith)
