-- ===== src/Client/Exporter.antt =====
-- client/runner/metrics.go: the CSV rows of metrics and the exporter that writes them in batches.
-- encoding/csv writes through a buffer, whose rows reach the file when it is flushed; which writes
-- and flushes fail is up to a `Disk`.
pub mod Laws
pub mod Tests
use etcd_cloud_benchmarking.Prelude.{
  ℕ, zero, suc, ◌≡◌, Bool, true, false, Option, none, some, List, [], ◌∷◌, ◌++◌, map, length, leb,
  if◌then◌else◌,
}
use etcd_cloud_benchmarking.Prelude.Text.{Text}

abbrev pub Row : Type 0
Row = List Text

-- whether the n-th write of a row, and the n-th flush of a writer, succeeds
pub record Disk : Type 0 where
  pub write_ok : ℕ → Bool
  pub flush_ok : ℕ → Bool

-- an open file: the rows that reached it, and how often it was written and flushed
pub record File : Type 0 where
  pub rows : List Row
  pub writes : ℕ
  pub flushes : ℕ
  pub is_open : Bool

-- `MetricsExporter`
pub record MetricsExporter : Type 0 where
  pub file : File
  pub batch_size : ℕ
  pub metrics : List Row

-- whether a call returned nil
pub data Result : Type 0 where
  done failed : Result

module _ (d : Disk) where
  -- the loop of `flush`, over a new csv.Writer whose buffer starts empty: `none` if a Write failed
  unfoldable pub write_all : List Row → ℕ → List Row → Option (List Row) × ℕ
  write_all [] n buffer = (some buffer, n)
  write_all (r ∷ rs) n buffer =
      let rest = write_all rs (suc n) (buffer ++ r ∷ []) in
      if d.write_ok n then rest else (none, suc n)

  -- `writer.Flush()` and `writer.Error()`: the buffer reaches an open file or the flush fails
  unfoldable pub flush_buffer : File → List Row → Result × File
  flush_buffer f buffer =
      if d.flush_ok f.flushes
      then (if f.is_open
          then (done, record f { rows = f.rows ++ buffer; flushes = suc f.flushes })
          else (failed, record f { flushes = suc f.flushes }))
      else (failed, record f { flushes = suc f.flushes })

  unfoldable pub flush_written : MetricsExporter → Option (List Row) × ℕ → Result × MetricsExporter
  flush_written e (none, n) = (failed, record e { file = record e.file { writes = n } })
  flush_written e (some buffer, n) =
      let (res, f) = flush_buffer (record e.file { writes = n }) buffer in
      (res, record e { file = f; metrics = [] })

  -- `flush`: a Write that fails leaves the batch as it was; after the loop the batch is dropped
  unfoldable pub flush : MetricsExporter → Result × MetricsExporter
  unfolding flush_written
  flush e = flush_written e (write_all e.metrics e.file.writes [])

  headed : ℕ → Option (List Row) × ℕ → Option MetricsExporter
  headed size (none, n) = none
  headed size (some buffer, n) = some (record {
    file = (flush_buffer (record { rows = []; writes = n; flushes = 0; is_open = true }) buffer).1;
    batch_size = size;
    metrics = [];
  })

  -- `NewMetricsExporter` on a file that can be created or not: a flush of the header that fails is
  -- not noticed
  unfoldable pub new_metrics_exporter : Bool → ℕ → Row → Option MetricsExporter
  unfolding headed
  new_metrics_exporter false size header = none
  new_metrics_exporter true size header = headed size (write_all (header ∷ []) 0 [])

  -- `AddMetric`, of a metric's row
  unfoldable pub add_metric : MetricsExporter → Row → Result × MetricsExporter
  add_metric e r =
      let e' = record e { metrics = e.metrics ++ r ∷ [] } in
      if leb e.batch_size (length e'.metrics) then flush e' else (done, e')

  close_file : MetricsExporter → Result × MetricsExporter
  close_file e =
      if e.file.is_open
      then (done, record e { file = record e.file { is_open = false } })
      else (failed, e)

  -- `Close`
  unfoldable pub close : MetricsExporter → Result × MetricsExporter
  unfolding close_file
  close e = elim e.metrics [
    | [] ↦ close_file e
    | r ∷ rs ↦ let (res, e') = flush e in elim res [ done ↦ close_file e' | failed ↦ (failed, e') ]
  ]

  -- metrics added one after the other, each error only logged
  unfoldable pub add_metrics : MetricsExporter → List Row → MetricsExporter
  add_metrics e [] = e
  add_metrics e (r ∷ rs) = add_metrics (add_metric e r).1 rs
