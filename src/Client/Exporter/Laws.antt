-- ===== src/Client/Exporter/Laws.antt =====
-- Where the rows of the metrics are.
use etcd_cloud_benchmarking.Prelude.{
  ℕ, suc, ◌<◌, ◌≡◌, refl, sym, ap, ◌∙◌, true, false, Option, none, some, List, [], ◌∷◌, ◌++◌,
  length, leb, arith, Bool-cases, inl, inr,
}
use mathlib.Core.List.{append_assoc, append-nil}
use mathlib.Core.Path.{ap₂}
use etcd_cloud_benchmarking.Client.Exporter.{
  Row, Disk, MetricsExporter, done, write_all, flush_buffer, flush_written, flush,
  new_metrics_exporter, add_metric, close, add_metrics,
}

-- a disk that takes every write
pub record IsSound (d : Disk) : Type 0 where
  pub writes : (n : ℕ) → d.write_ok n ≡ true
  pub flushes : (n : ℕ) → d.flush_ok n ≡ true

-- the exporter is open, and its batch is not full
pub record IsReady (e : MetricsExporter) : Type 0 where
  pub is_open : e.file.is_open ≡ true
  pub batch_pos : 0 < e.batch_size
  pub below : length e.metrics < e.batch_size

-- all the rows taken in so far, written or waiting, in order
abbrev pub taken : MetricsExporter → List Row
taken e = e.file.rows ++ e.metrics

module _ (d : Disk) (ok : IsSound d) where
  write_all-all :
      (rs : List Row) (n : ℕ) (b : List Row) → (m : ℕ) × (write_all d rs n b ≡ (some (b ++ rs), m))
  unfolding write_all
  write_all-all [] n b = (n, ap (λ x. (some x, n)) (sym (append-nil b)))
  write_all-all (r ∷ rs) n b =
      let (m, e) = write_all-all rs (suc n) (b ++ r ∷ []) in
      (m, rw (ok.writes n) (e ∙ ap (λ x. (some x, m)) (append_assoc b (r ∷ []) rs)))

  -- a flush writes the whole batch and empties it
  flush-all :
      (e : MetricsExporter)
      → e.file.is_open ≡ true
      → ((flush d e).0 ≡ done)
        × ((flush d e).1.file.rows ≡ e.file.rows ++ e.metrics)
        × ((flush d e).1.metrics ≡ [])
        × ((flush d e).1.file.is_open ≡ true)
        × ((flush d e).1.batch_size ≡ e.batch_size)
  unfolding flush flush_buffer
  flush-all e o =
      let (m, w) = write_all-all e.metrics e.file.writes [] in
      rw (w, flush, ok.flushes e.file.flushes, o) (refl, refl, refl, refl, refl)

  add_metric-all :
      (e : MetricsExporter) (r : Row)
      → IsReady e
      → ((add_metric d e r).0 ≡ done)
        × IsReady (add_metric d e r).1
        × (taken (add_metric d e r).1 ≡ taken e ++ r ∷ [])
        × ((add_metric d e r).1.batch_size ≡ e.batch_size)
  unfolding add_metric
  add_metric-all e r v = elim (Bool-cases (leb e.batch_size (length (e.metrics ++ r ∷ [])))) [
    | inl full ↦
        let e' : MetricsExporter = record e { metrics = e.metrics ++ r ∷ [] } in
        let (x, rows, empty, still, same) = flush-all e' v.is_open in
        rw (full, add_metric)
          (
            x,
            record {
              is_open = still;
              batch_pos = omega (arith, same, v.batch_pos);
              below = omega (arith, same, v.batch_pos, ap length empty);
            },
            ap₂ (λ (a b : List Row). a ++ b) rows empty
                ∙ append-nil (e.file.rows ++ (e.metrics ++ r ∷ []))
                ∙ sym (append_assoc e.file.rows e.metrics (r ∷ [])),
            same,
          )
    | inr room ↦
        rw (room, add_metric)
          (
            refl,
            record { is_open = v.is_open; batch_pos = v.batch_pos; below = ground (arith, room) },
            sym (append_assoc e.file.rows e.metrics (r ∷ [])),
            refl,
          )
  ]

  add_metrics-all :
      (e : MetricsExporter) (rs : List Row)
      → IsReady e
      → IsReady (add_metrics d e rs) × (taken (add_metrics d e rs) ≡ taken e ++ rs)
  unfolding add_metrics
  add_metrics-all e [] v = (v, sym (append-nil (taken e)))
  add_metrics-all e (r ∷ rs) v =
      let (_, v', t, _) = add_metric-all e r v in
      let (v'', t') = add_metrics-all (add_metric d e r).1 rs v' in
      (v'', t' ∙ ap (λ x. x ++ rs) t ∙ append_assoc (taken e) (r ∷ []) rs)

  close-all :
      (e : MetricsExporter) (ms : List Row)
      → e.metrics ≡ ms
      → e.file.is_open ≡ true
      → ((close d e).0 ≡ done)
        × ((close d e).1.file.rows ≡ e.file.rows ++ ms)
        × ((close d e).1.file.is_open ≡ false)
  unfolding close
  close-all e [] em o = rw (em, close, o) (refl, sym (append-nil e.file.rows), refl)
  close-all e (r ∷ rs) em o =
      let (x, rows, empty, still, same) = flush-all e o in
      rw (em, close, x, still) (refl, rows ∙ ap (λ m. e.file.rows ++ m) em, refl)

shut_flush :
    (d : Disk) (e : MetricsExporter) (w : Option (List Row) × ℕ)
    → e.file.is_open ≡ false
    → ((flush_written d e w).1.file.rows ≡ e.file.rows)
      × ((flush_written d e w).1.file.is_open ≡ false)
unfolding flush_written flush_buffer
shut_flush d e (none, n) h = (refl, h)
shut_flush d e (some b, n) h = ground arith

late :
    (d : Disk) (e : MetricsExporter) (r : Row)
    → e.file.is_open ≡ false
    → ((add_metric d e r).1.file.rows ≡ e.file.rows) × ((add_metric d e r).1.file.is_open ≡ false)
unfolding add_metric flush
late d e r h = elim (Bool-cases (leb e.batch_size (length (e.metrics ++ r ∷ [])))) [
  | inl full ↦
      let e' : MetricsExporter = record e { metrics = e.metrics ++ r ∷ [] } in
      rw (full, add_metric) (shut_flush d e' (write_all d e'.metrics e'.file.writes []) h)
  | inr room ↦ rw (room, add_metric) (refl, h)
]

-- On a disk that takes every write, an exporter with a positive batch size that is open loses no
-- metric: whatever rows are added, the batch never reaches its size, and after Close the file holds
-- the rows that it had, the waiting ones and those added, in this order, and is closed.
pub close-add_metrics :
    (d : Disk) (e : MetricsExporter) (rs : List Row)
    → IsSound d
    → IsReady e
    → IsReady (add_metrics d e rs)
      × ((close d (add_metrics d e rs)).0 ≡ done)
      × ((close d (add_metrics d e rs)).1.file.rows ≡ e.file.rows ++ e.metrics ++ rs)
      × ((close d (add_metrics d e rs)).1.file.is_open ≡ false)
close-add_metrics d e rs ok v =
    let (v', t) = add_metrics-all d ok e rs v in
    let (x, rows, shut) =
      close-all d ok (add_metrics d e rs) (add_metrics d e rs).metrics refl v'.is_open in
    (v', x, rows ∙ t, shut)

-- Once its file is closed, an exporter writes no row any more, whatever is added: the metrics of
-- operations whose goroutines are late are lost.
pub add_metrics_late :
    (d : Disk) (e : MetricsExporter) (rs : List Row)
    → e.file.is_open ≡ false
    → ((add_metrics d e rs).file.rows ≡ e.file.rows) × ((add_metrics d e rs).file.is_open ≡ false)
unfolding add_metrics
add_metrics_late d e [] h = (refl, h)
add_metrics_late d e (r ∷ rs) h =
    let (a, b) = late d e r h in
    let (a', b') = add_metrics_late d (add_metric d e r).1 rs b in (a' ∙ a, b')

-- On a disk that takes every write, a file that can be created becomes, after any metrics are added
-- to a new exporter with a positive batch size and it is closed, the header and below it their rows.
pub new-close-add_metrics :
    (d : Disk) (size : ℕ) (header : Row) (rs : List Row)
    → IsSound d
    → 0 < size
    → (e : MetricsExporter) × (new_metrics_exporter d true size header ≡ some e)
      × ((close d (add_metrics d e rs)).0 ≡ done)
      × ((close d (add_metrics d e rs)).1.file.rows ≡ header ∷ rs)
unfolding new_metrics_exporter write_all flush_buffer
new-close-add_metrics d size header rs ok h =
    let e : MetricsExporter = record {
      file = record { rows = header ∷ []; writes = 1; flushes = 1; is_open = true };
      batch_size = size;
      metrics = [];
    } in
    let (v, x, rows, shut) =
      close-add_metrics d e rs ok (record { is_open = refl; batch_pos = h; below = h }) in
    (e, rw (ok.writes 0, ok.flushes 0) refl, x, rows)

-- When the flush of the header fails, the new exporter is returned all the same, over an empty file.
pub new_metrics_exporter_headless :
    (d : Disk) (size : ℕ) (header : Row)
    → d.write_ok 0 ≡ true
    → d.flush_ok 0 ≡ false
    → (e : MetricsExporter) × (new_metrics_exporter d true size header ≡ some e)
      × (e.file.rows ≡ [])
unfolding new_metrics_exporter write_all flush_buffer
new_metrics_exporter_headless d size header w f = (
  record {
    file = record { rows = []; writes = 1; flushes = 1; is_open = true };
    batch_size = size;
    metrics = [];
  },
  rw (w, f) refl,
  refl,
)
