-- ===== src/Client/LoadDb/Ends.antt =====
-- Loading ends, with every entry put once.
use mathlib.Core.List.{append-nil}
use etcd_cloud_benchmarking.Prelude.{
  ℕ, zero, suc, ◌+◌, ◌*◌, ◌≤◌, ◌<◌, ◌≡◌, ◌⊎◌, inl, inr, refl, sym, ap, ◌∙◌, Bool, true, false, List,
  [], ◌∷◌, ◌++◌, map, length, length-append, All, All-or_other, count_if, total, total-moved,
  Bool-cases, if◌then◌else◌, arith,
}
use etcd_cloud_benchmarking.Generator.Data.{Entry}
use etcd_cloud_benchmarking.Client.LoadDb.{
  Worker, dialing, waiting, finished, putting, Loading, crew_of, IsFinished, Step, dial, dial_fails,
  send, close_tasks, receive, put_returns, finish, wait_group, Runs, begun, later,
}
use etcd_cloud_benchmarking.Client.LoadDb.Invariant.{key_of, held, effort, gone, one, Inv}
use etcd_cloud_benchmarking.Client.LoadDb.Moves.{Runs-Inv}

held-le-effort : (p : Entry → Bool) (ws : List Worker) → total (held p) ws ≤ total effort ws
held-le-effort p [] = omega arith
held-le-effort p (dialing ∷ ws) = omega (arith, held-le-effort p ws)
held-le-effort p (waiting ∷ ws) = omega (arith, held-le-effort p ws)
held-le-effort p (finished ∷ ws) = omega (arith, held-le-effort p ws)
held-le-effort p (putting e ∷ ws) = ground (arith, held-le-effort p ws)

idle-gone : (ws : List Worker) → total effort ws ≡ 0 → total gone ws ≡ total one ws
idle-gone [] h = refl
idle-gone (finished ∷ ws) h = omega (arith, idle-gone ws (omega (arith, h)))
idle-gone (dialing ∷ ws) h = absurd (omega (arith, h))
idle-gone (waiting ∷ ws) h = absurd (omega (arith, h))
idle-gone (putting e ∷ ws) h = absurd (omega (arith, h))

-- When `load_db` passes the wait for its workers, at least one, the key of every entry was collected,
-- in the order of the range, and the Puts are the entries, each as often as it was generated: every
-- test holds of as many Puts as entries.
pub load_db-puts :
    {worker_count n : ℕ} {entries : List Entry} {s : Loading}
    → Runs worker_count entries n s
    → 0 < worker_count
    → s.loaded ≡ true
    → (s.keys ≡ map key_of entries) × ((p : Entry → Bool) → count_if p s.puts ≡ count_if p entries)
load_db-puts {s = s} r pos l =
    let i = Runs-Inv r in
    let none_left = i.shut (i.after l).0 in
    let empty = (i.over (omega (arith, pos, i.crew, idle-gone s.workers (i.after l).1))).1 in
    (
      sym (append-nil s.keys) ∙ ap (λ z. s.keys ++ map key_of z) (sym none_left) ∙ i.named,
      λ p. omega (
        arith,
        i.kept p,
        ap (count_if p) none_left,
        ap (count_if p) empty,
        held-le-effort p s.workers,
        (i.after l).1,
      ),
    )

-- the steps that are left
abbrev pub work : Loading → ℕ
work s =
    4 * length s.todo
    + 3 * length s.queue
    + total effort s.workers
    + (if s.closed then 0 else 1)
    + (if s.loaded then 0 else 1)
    + (if s.exited then 0 else 1)

Step-work : {worker_count : ℕ} {s t : Loading} → Step worker_count s t → work t < work s
Step-work {s = s} (dial xs ys x e) =
    omega (arith, total-moved effort xs ys s.workers dialing waiting e)
Step-work (dial_fails xs ys x e) = ground (arith, x)
Step-work {s = s} (send e rest x t r) = omega (arith, ap length t, length-append s.queue (e ∷ []))
Step-work (close_tasks x t c) = ground (arith, c)
Step-work {s = s} (receive xs ys e rest x w q) =
    omega (arith, ap length q, total-moved effort xs ys s.workers waiting (putting e) w)
Step-work {s = s} (put_returns xs ys e x w) =
    omega (arith, total-moved effort xs ys s.workers (putting e) waiting w)
Step-work {s = s} (finish xs ys x w q c) =
    omega (arith, total-moved effort xs ys s.workers waiting finished w)
Step-work (wait_group x c a l) = ground (arith, l)

Worker-cases : (w : Worker) → IsFinished w ⊎ (IsFinished w → ⊥)
Worker-cases dialing = inr (λ e. cc e)
Worker-cases waiting = inr (λ e. cc e)
Worker-cases (putting e) = inr (λ h. cc h)
Worker-cases finished = inl refl

List-cases : (es : List Entry) → (es ≡ []) ⊎ ((e : Entry) × (rest : List Entry) × (es ≡ e ∷ rest))
List-cases [] = inl refl
List-cases (e ∷ es) = inr (e, es, refl)

gone-all : (ws : List Worker) → All IsFinished ws → total gone ws ≡ total one ws
gone-all [] h = refl
gone-all (w ∷ ws) h = omega (arith, ap gone h.0, gone-all ws h.1)

-- what a waiting worker, or the main goroutine, can do
go_on :
    {worker_count : ℕ} (s : Loading) (xs ys : List Worker)
    → 0 < worker_count
    → s.exited ≡ false
    → s.workers ≡ xs ++ waiting ∷ ys
    → (t : Loading) × Step worker_count s t
go_on s xs ys pos x w = elim (List-cases s.queue) [
  | inr (e, rest, q) ↦ (_, receive xs ys e rest x w q)
  | inl q ↦ elim (List-cases s.todo) [
    | inr (e, rest, t) ↦ (_, send e rest x t (omega (arith, pos, ap length q)))
    | inl t ↦ elim (Bool-cases s.closed) [
      | inl c ↦ (_, finish xs ys x w q c)
      | inr c ↦ (_, close_tasks x t c)
    ]
  ]
]

-- what a worker that has not returned can do
worker_steps :
    {worker_count : ℕ} (s : Loading) (xs ys : List Worker) (w : Worker)
    → 0 < worker_count
    → s.exited ≡ false
    → s.workers ≡ xs ++ w ∷ ys
    → (IsFinished w → ⊥)
    → (t : Loading) × Step worker_count s t
worker_steps s xs ys dialing pos x e n = (_, dial xs ys x e)
worker_steps s xs ys waiting pos x e n = go_on s xs ys pos x e
worker_steps s xs ys (putting entry) pos x e n = (_, put_returns xs ys entry x e)
worker_steps s xs ys finished pos x e n = absurd (n refl)

progress :
    {worker_count : ℕ} {entries : List Entry} (s : Loading)
    → Inv worker_count entries s
    → 0 < worker_count
    → s.loaded ≡ false
    → s.exited ≡ false
    → (t : Loading) × Step worker_count s t
progress s i pos l x = elim (All-or_other IsFinished Worker-cases s.workers) [
  | inl a ↦ (_, wait_group x (i.over (omega (arith, pos, i.crew, gone-all s.workers a))).0 a l)
  | inr (xs, w, ys, e, n) ↦ worker_steps s xs ys w pos x e n
]

effort-crew_of : (n : ℕ) → total effort (crew_of n) ≡ 2 * n
effort-crew_of zero = refl
effort-crew_of (suc n) = omega (arith, effort-crew_of n)

Runs-work :
    {worker_count : ℕ} {entries : List Entry} {n : ℕ} {s : Loading}
    → Runs worker_count entries n s
    → n + work s ≤ 4 * length entries + 2 * worker_count + 3
Runs-work {worker_count} begun = omega (arith, effort-crew_of worker_count)
Runs-work (later r st) = omega (arith, Runs-work r, Step-work st)

-- Loading with at least one worker always ends: no run has more than 4 steps for each entry, 2 for
-- each worker and 3 more, and as long as neither the wait for the workers is over nor the program
-- has exited, some goroutine can take a step.
pub load_db-ends :
    {worker_count n : ℕ} {entries : List Entry} {s : Loading}
    → Runs worker_count entries n s
    → 0 < worker_count
    → (n ≤ 4 * length entries + 2 * worker_count + 3)
      × ((s.loaded ≡ true) ⊎ (s.exited ≡ true) ⊎ ((t : Loading) × Step worker_count s t))
load_db-ends {s = s} r pos = (
  omega (arith, Runs-work r),
  elim (Bool-cases s.loaded) [
    | inl l ↦ inl l
    | inr l ↦ elim (Bool-cases s.exited) [
      | inl x ↦ inr (inl x)
      | inr x ↦ inr (inr (progress s (Runs-Inv r) pos l x))
    ]
  ],
)
