-- ===== src/Client/Logger/Tests.antt =====
-- A line that does not fit into the buffer.
use etcd_cloud_benchmarking.Prelude.{◌≡◌, ◌≤◌, ◌++◌, refl, true, false, [], ◌∷◌, length, arith}
use etcd_cloud_benchmarking.Prelude.Text.{codes}
use etcd_cloud_benchmarking.Client.Logger.{
  Outputs, Logger, log_all, exit, write, flush, write_rest, printf,
}
use etcd_cloud_benchmarking.Client.Logger.Laws.{content, concat, exit-log_all}

abbrev sound : Outputs
sound = record { stdout_ok = λ n. true; write_ok = λ n. true; close_ok = true }

-- a logger with a small buffer, and a line in it
abbrev begun : Logger
begun = record {
  file = codes "start ";
  buffer = codes "load";
  size = 6;
  broken = false;
  is_open = true;
  writes = 1;
  stdouts = 2;
}

-- the end of the second line is lost when the process ends without `exit`
cut_off : (log_all sound (codes "ing" ∷ codes "!" ∷ []) begun).file ≡ codes "start loadin"
unfolding log_all printf write flush write_rest
cut_off = refl

exit-log_all_example :
    (let l' = log_all sound (codes "ing the data" ∷ codes "done" ∷ []) begun in
      (content l' ≡ content begun ++ concat (codes "ing the data" ∷ codes "done" ∷ []))
      × (length l'.buffer ≤ l'.size)
      × ((exit sound 1 l').0 ≡ 1)
      × ((exit sound 1 l').1.file
          ≡ content begun ++ concat (codes "ing the data" ∷ codes "done" ∷ []))
      × ((exit sound 1 l').1.is_open ≡ false))
exit-log_all_example =
    exit-log_all sound (codes "ing the data" ∷ codes "done" ∷ []) begun 1
      (record { stdouts_ok = λ n. refl; writes_ok = λ n. refl })
      (record { unbroken = refl; fits = omega arith })
