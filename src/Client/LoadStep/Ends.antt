-- ===== src/Client/LoadStep/Ends.antt =====
-- A load step ends once its context expired: it reports, in whatever order the goroutines go on.
use etcd_cloud_benchmarking.Prelude.{
  ℕ, ◌+◌, ◌*◌, ◌≤◌, ◌<◌, ◌≡◌, ◌⊎◌, inl, inr, refl, ap, Bool, true, Option, none, some, List, [],
  ◌∷◌, ◌++◌, length, length-append, All-or_other, total, total-moved, Bool-cases, Option-cases,
  if◌then◌else◌, arith,
}
use etcd_cloud_benchmarking.Prelude.Int.{ℤ}
use etcd_cloud_benchmarking.Client.Errors.{GoError}
use etcd_cloud_benchmarking.Client.Step.{StepResult}
use etcd_cloud_benchmarking.Client.LoadStep.{
  Client, ready, stopped, sending, LoadStep, IsStopped, Move, expire, operate, stop, send,
  hand_over, collect, spawn, count_spawned, count_here, close_channel, report, Continues, rest,
  more,
}

-- the moves that a client has still to make, with those of the collector and the counters for it
abbrev pub chores : Client → ℕ
chores stopped = 0
chores ready = 1
chores (sending ls err) = 2 * length ls + 3

abbrev unreported : Option StepResult → ℕ
unreported none = 1
unreported (some r) = 0

-- the moves that are left once the context expired
abbrev pub work : LoadStep → ℕ
work s =
    total chores s.clients
    + length s.queue
    + length s.pending
    + (if s.closed then 0 else 1)
    + unreported s.reported

module _ {spawns : Bool} {room : ℕ} where
  Move-work :
      {s t : LoadStep}
      → Move spawns room s t
      → s.expired ≡ true
      → (t.expired ≡ true) × (work t < work s)
  Move-work {s} (expire x) e = absurd (ground (arith, x, e))
  Move-work {s} (operate xs ys o w x) e = absurd (ground (arith, x, e))
  Move-work {s} (stop xs ys w x) e =
      (e, omega (arith, total-moved chores xs ys s.clients ready stopped w))
  Move-work {s} (send xs ys l ls err w r) e = (
    e,
    omega (
      arith,
      total-moved chores xs ys s.clients (sending (l ∷ ls) err) (sending ls err) w,
      length-append s.queue (l ∷ []),
    ),
  )
  Move-work {s} (hand_over xs ys l ls err w q) e = (
    e,
    omega (arith, total-moved chores xs ys s.clients (sending (l ∷ ls) err) (sending ls err) w),
  )
  Move-work {s} (collect l ls q) e = (e, omega (arith, ap length q))
  Move-work {s} (spawn xs ys err m w) e = (
    e,
    omega (
      arith,
      total-moved chores xs ys s.clients (sending [] err) ready w,
      length-append s.pending (err ∷ []),
    ),
  )
  Move-work {s} (count_spawned es fs err p) e =
      (e, omega (arith, ap length p, length-append es fs, length-append es (err ∷ fs)))
  Move-work {s} (count_here xs ys err m w) e =
      (e, omega (arith, total-moved chores xs ys s.clients (sending [] err) ready w))
  Move-work {s} (close_channel a c) e = (e, ground (arith, c))
  Move-work {s} (report c r) e = (e, omega (arith, ap unreported r))

  Continues-work :
      {s : LoadStep} {m : ℕ} {t : LoadStep}
      → Continues spawns room s m t
      → s.expired ≡ true
      → (t.expired ≡ true) × (m + work t ≤ work s)
  Continues-work rest e = (e, omega arith)
  Continues-work (more ms mv) e =
      let (e', w) = Continues-work ms e in
      let (e'', w') = Move-work mv e' in (e'', omega (arith, w, w'))

module _ (spawns : Bool) (room : ℕ) where
  abbrev CanMove : LoadStep → Type 0
  CanMove s = (t : LoadStep) × Move spawns room s t

  queue_moves :
      (s : LoadStep) (xs ys : List Client) (l : ℤ) (ls : List ℤ) (err : Option GoError) (q : List ℤ)
      → s.clients ≡ xs ++ sending (l ∷ ls) err ∷ ys
      → s.queue ≡ q
      → CanMove s
  queue_moves s xs ys l ls err [] w e = (_, hand_over xs ys l ls err w e)
  queue_moves s xs ys l ls err (x ∷ q) w e = (_, collect x q e)

  client_moves :
      (s : LoadStep) (xs ys : List Client) (c : Client)
      → s.clients ≡ xs ++ c ∷ ys
      → (IsStopped c → ⊥)
      → CanMove s
  client_moves s xs ys stopped w n = absurd (n refl)
  client_moves s xs ys ready w n = elim (Bool-cases s.expired) [
    | inl e ↦ (_, stop xs ys w e)
    | inr e ↦ (_, expire e)
  ]
  client_moves s xs ys (sending (l ∷ ls) err) w n = queue_moves s xs ys l ls err s.queue w refl
  client_moves s xs ys (sending [] err) w n = elim (Bool-cases spawns) [
    | inl m ↦ (_, spawn xs ys err m w)
    | inr m ↦ (_, count_here xs ys err m w)
  ]

Client-cases : (c : Client) → IsStopped c ⊎ (IsStopped c → ⊥)
Client-cases stopped = inl refl
Client-cases ready = inr (λ e. cc e)
Client-cases (sending ls err) = inr (λ e. cc e)

-- A load step never blocks before it reported, whatever the capacity of the channel: from every
-- state that has no report some goroutine can make a move. And once its context expired, no run
-- makes more moves than the chores that are left, so that every run of it gets to the report.
pub load_step-ends :
    {spawns : Bool} {room : ℕ} (s : LoadStep)
    → (((r : StepResult) × (s.reported ≡ some r)) ⊎ ((t : LoadStep) × Move spawns room s t))
      × ((m : ℕ) (t : LoadStep) → Continues spawns room s m t → s.expired ≡ true → m ≤ work s)
load_step-ends {spawns} {room} s = (
  elim (All-or_other IsStopped Client-cases s.clients) [
    | inr (xs, c, ys, w, n) ↦ inr (client_moves spawns room s xs ys c w n)
    | inl a ↦ elim (Option-cases s.reported) [
      | inr (r, e) ↦ inl (r, e)
      | inl e ↦ elim (Bool-cases s.closed) [
        | inl c ↦ inr (_, report c e)
        | inr c ↦ inr (_, close_channel a c)
      ]
    ]
  ],
  λ m t ms e. omega (arith, (Continues-work ms e).1),
)
