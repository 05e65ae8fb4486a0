-- ===== src/Client/Exporter/Tests.antt =====
-- The theorems about the exporter at concrete exporters.
use etcd_cloud_benchmarking.Prelude.{◌≡◌, refl, Bool, true, false, [], ◌∷◌, arith}
use etcd_cloud_benchmarking.Prelude.Text.{codes}
use etcd_cloud_benchmarking.Client.Exporter.{Row, Disk, MetricsExporter, done, close, add_metrics}
use etcd_cloud_benchmarking.Client.Exporter.Laws.{IsReady, close-add_metrics}

abbrev sound : Disk
sound = record { write_ok = λ n. true; flush_ok = λ n. true }

abbrev row : Row
row = codes "17" ∷ codes "read" ∷ []

abbrev header_only : Bool → MetricsExporter
header_only b = record {
  file = record {
    rows = (codes "Timestamp" ∷ codes "Operation" ∷ []) ∷ [];
    writes = 1;
    flushes = 1;
    is_open = b;
  };
  batch_size = 2;
  metrics = [];
}

close-add_metrics_example :
    IsReady (add_metrics sound (header_only true) (row ∷ row ∷ row ∷ []))
    × ((close sound (add_metrics sound (header_only true) (row ∷ row ∷ row ∷ []))).0 ≡ done)
    × ((close sound (add_metrics sound (header_only true) (row ∷ row ∷ row ∷ []))).1.file.rows
        ≡ (codes "Timestamp" ∷ codes "Operation" ∷ []) ∷ row ∷ row ∷ row ∷ [])
    × ((close sound (add_metrics sound (header_only true) (row ∷ row ∷ row ∷ []))).1.file.is_open
        ≡ false)
close-add_metrics_example =
    close-add_metrics sound (header_only true) (row ∷ row ∷ row ∷ [])
      (record { writes = λ n. refl; flushes = λ n. refl })
      (record { is_open = refl; batch_pos = omega arith; below = omega arith })

abbrev full : Disk
full = record { write_ok = λ n. true; flush_ok = λ n. false }
