-- ===== src/Control/Launch/Connection.antt =====
-- The connection of runBenchmark: opened at most once, closed when the function returns.
use etcd_cloud_benchmarking.Prelude.{
  ℕ, ◌≡◌, ◌≢◌, ◌↔◌, ◌≤◌, refl, sym, ap, ◌∙◌, inl, inr, Bool, Bool-cases, Option-cases, true, false,
  Option, none, some, List, [], ◌∷◌, String, count_if, count_if-append, if◌then◌else◌, arith,
}
use etcd_cloud_benchmarking.Control.Session.{Next, continues, returns}
use etcd_cloud_benchmarking.Control.Launch.{
  Dial, Act, connects, closes, wait_ready, with_stream, with_client, run_benchmark_at,
}

abbrev pub is_connect : Act → Bool
is_connect connects = true
is_connect a = false

abbrev pub is_close : Act → Bool
is_close closes = true
is_close a = false

-- looking at the state of a connection neither opens nor closes one
waits_only :
    (rs : List Bool)
    → (count_if is_connect (wait_ready rs).0 ≡ 0) × (count_if is_close (wait_ready rs).0 ≡ 0)
unfolding wait_ready
waits_only [] = (refl, refl)
waits_only (true ∷ rs) = (refl, refl)
waits_only (false ∷ rs) = (omega (arith, (waits_only rs).0), omega (arith, (waits_only rs).1))

-- what was done with a number of open connections when a function came to its end
record Settles (open_before : ℕ) (r : List Act × Option Next) : Type 0 where
  no_more : count_if is_connect r.0 ≡ 0
  closed : (e : Option String) → r.1 ≡ some (returns e) → count_if is_close r.0 ≡ open_before

with_stream-Settles : (rs : List Bool) (inner : Option Next) → Settles 1 (with_stream rs inner)
unfolding with_stream
with_stream-Settles rs none = elim (Bool-cases (wait_ready rs).1) [
  | inl b ↦ rw b (record { no_more = (waits_only rs).0; closed = λ e h. cc })
  | inr b ↦ rw b (record { no_more = (waits_only rs).0; closed = λ e h. cc })
]
with_stream-Settles rs (some continues) = elim (Bool-cases (wait_ready rs).1) [
  | inl b ↦ rw b (record { no_more = (waits_only rs).0; closed = λ e h. cc })
  | inr b ↦ rw b (record { no_more = (waits_only rs).0; closed = λ e h. cc })
]
with_stream-Settles rs (some (returns w)) = elim (Bool-cases (wait_ready rs).1) [
  | inl b ↦ rw b (record {
    no_more =
        count_if-append is_connect (wait_ready rs).0 (closes ∷ []) ∙ omega (arith, waits_only rs);
    closed = λ e h.
        count_if-append is_close (wait_ready rs).0 (closes ∷ []) ∙ omega (arith, waits_only rs);
  })
  | inr b ↦ rw b (record { no_more = (waits_only rs).0; closed = λ e h. cc })
]

with_client-Settles : (d : Dial) (inner : Option Next) → Settles 1 (with_client d inner)
unfolding with_client
with_client-Settles d inner = elim (Option-cases d.stream_err) [
  | inl e ↦
      let s = with_stream-Settles d.ready_at inner in
      rw (e, with_client)
        (record { no_more = omega (arith, s.no_more); closed = λ w h. omega (arith, s.closed w h) })
  | inr (x, e) ↦ rw (e, with_client) (record { no_more = refl; closed = λ w h. refl })
]

-- the connection is ready in the end
abbrev pub IsConnected : Dial → Type 0
IsConnected d = (d.client_err ≡ none) × (d.stream_err ≡ none) × ((wait_ready d.ready_at).1 ≡ true)

with_stream_result :
    (rs : List Bool) (inner : Option Next)
    → (with_stream rs inner).1 ≡ (if (wait_ready rs).1 then inner else some continues)
unfolding with_stream
with_stream_result rs none = elim (Bool-cases (wait_ready rs).1) [
  | inl b ↦ rw b refl
  | inr b ↦ rw b refl
]
with_stream_result rs (some continues) = elim (Bool-cases (wait_ready rs).1) [
  | inl b ↦ rw b refl
  | inr b ↦ rw b refl
]
with_stream_result rs (some (returns e)) = elim (Bool-cases (wait_ready rs).1) [
  | inl b ↦ rw b refl
  | inr b ↦ rw b refl
]

-- a result that is neither an error nor a wait is the loop's, over a ready connection
pub ready_result :
    (d : Dial) (inner : Option Next) (n : Option Next)
    → n ≢ some continues
    → ((e : String) → n ≢ some (returns (some e)))
    → ((run_benchmark_at d inner).1 ≡ n) ↔ (IsConnected d × (inner ≡ n))
unfolding run_benchmark_at with_client
ready_result d inner n c w = elim (Option-cases d.client_err) [
  | inr (x, e) ↦ rw (e, run_benchmark_at) (λ h. absurd (w x (sym h)), λ h. cc (h.0.0))
  | inl e ↦ elim (Option-cases d.stream_err) [
    | inr (x, f) ↦ rw (e, f, run_benchmark_at) (λ h. absurd (w x (sym h)), λ h. cc (h.0.1))
    | inl f ↦ elim (Bool-cases (wait_ready d.ready_at).1) [
      | inl b ↦
          let same = with_stream_result d.ready_at inner in
          rw (e, f, run_benchmark_at)
            (
              λ h. (
                (refl, refl, b),
                sym (same ∙ ap (λ (t : Bool). if t then inner else some continues) b) ∙ h,
              ),
              λ h. same ∙ ap (λ (t : Bool). if t then inner else some continues) b ∙ h.1,
            )
      | inr b ↦
          let same = with_stream_result d.ready_at inner in
          rw (e, f, run_benchmark_at)
            (
              λ h.
                  absurd
                    (c (sym h ∙ same ∙ ap (λ (t : Bool). if t then inner else some continues) b)),
              λ h. cc (h.0.2),
            )
    ]
  ]
]

pub run_benchmark_at-closed :
    (d : Dial) (inner : Option Next)
    → (count_if is_connect (run_benchmark_at d inner).0 ≤ 1)
      × ((e : Option String)
          → (run_benchmark_at d inner).1 ≡ some (returns e)
          → count_if is_close (run_benchmark_at d inner).0
            ≡ count_if is_connect (run_benchmark_at d inner).0)
unfolding run_benchmark_at
run_benchmark_at-closed d inner = elim (Option-cases d.client_err) [
  | inl e ↦
      let s = with_client-Settles d inner in
      rw (e, run_benchmark_at)
        (omega (arith, s.no_more), λ w h. omega (arith, s.closed w h, s.no_more))
  | inr (x, e) ↦ rw (e, run_benchmark_at) (omega arith, λ w h. refl)
]
