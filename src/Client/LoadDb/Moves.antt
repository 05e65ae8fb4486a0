-- ===== src/Client/LoadDb/Moves.antt =====
-- A step of any goroutine keeps every part of the invariant.
use mathlib.Core.List.{append_assoc}
use etcd_cloud_benchmarking.Prelude.{
  ℕ, zero, suc, ◌<◌, ◌≡◌, refl, sym, ap, ◌∙◌, Bool, List, [], ◌∷◌, ◌++◌, map, length, length-append,
  All, count_if, count_if-append, total, total-moved, arith,
}
use etcd_cloud_benchmarking.Generator.Data.{Entry}
use etcd_cloud_benchmarking.Client.LoadDb.{
  Worker, dialing, waiting, finished, putting, Loading, crew_of, start, IsFinished, Step, dial,
  dial_fails, send, close_tasks, receive, put_returns, finish, wait_group, Runs, begun, later,
}
use etcd_cloud_benchmarking.Client.LoadDb.Invariant.{key_of, held, effort, gone, one, Inv}

pub effort-all : (ws : List Worker) → All IsFinished ws → total effort ws ≡ 0
effort-all [] h = refl
effort-all (w ∷ ws) h = omega (arith, ap effort h.0, effort-all ws h.1)

module _ {worker_count : ℕ} {entries : List Entry} {s : Loading}
    (inv : Inv worker_count entries s) where
  open inv use {kept, named, room, crew, shut, over, after}

  -- a worker goes from `v` to `w` and takes nothing, with the queue as it is
  worker_moves :
      (xs ys : List Worker) (v w : Worker)
      → s.workers ≡ xs ++ v ∷ ys
      → ((p : Entry → Bool) → held p v ≡ held p w)
      → gone v ≡ gone w
      → 0 < effort v
      → Inv worker_count entries (record s { workers = xs ++ w ∷ ys })
  worker_moves xs ys v w e h g f = record {
    kept = λ p. omega (arith, kept p, total-moved (held p) xs ys s.workers v w e, h p);
    named = named;
    room = room;
    crew = omega (arith, crew, total-moved one xs ys s.workers v w e);
    shut = shut;
    over = λ k. over (omega (arith, total-moved gone xs ys s.workers v w e));
    after =
        λ l. absurd (omega (arith, (after l).1, total-moved effort xs ys s.workers v finished e));
  }

  Step-Inv : {t : Loading} → Step worker_count s t → Inv worker_count entries t
  Step-Inv (dial xs ys x e) = worker_moves xs ys dialing waiting e (λ p. refl) refl (omega arith)
  Step-Inv (dial_fails xs ys x e) = record {
    kept = kept;
    named = named;
    room = room;
    crew = crew;
    shut = shut;
    over = over;
    after = after;
  }
  Step-Inv (send e rest x t r) = record {
    kept = λ p. omega (arith, kept p, ap (count_if p) t, count_if-append p s.queue (e ∷ []));
    named =
        append_assoc s.keys (key_of e ∷ []) (map key_of rest)
        ∙ ap (λ z. s.keys ++ map key_of z) (sym t)
        ∙ named;
    room = omega (arith, r, length-append s.queue (e ∷ []));
    crew = crew;
    shut = λ c. absurd (omega (arith, ap length t, ap length (shut c)));
    over = λ g. absurd (omega (arith, ap length t, ap length (shut (over g).0)));
    after = after;
  }
  Step-Inv (close_tasks x t c) = record {
    kept = kept;
    named = named;
    room = room;
    crew = crew;
    shut = λ _. t;
    over = λ g. (refl, (over g).1);
    after = λ l. (refl, (after l).1);
  }
  Step-Inv (receive xs ys e rest x w q) = record {
    kept = λ p. omega (
      arith,
      kept p,
      total-moved (held p) xs ys s.workers waiting (putting e) w,
      ap (count_if p) q,
    );
    named = named;
    room = omega (arith, room, ap length q);
    crew = omega (arith, crew, total-moved one xs ys s.workers waiting (putting e) w);
    shut = shut;
    over = λ g. absurd (
        omega (
          arith,
          ap length q,
          ap length
              (over (omega (arith, total-moved gone xs ys s.workers waiting (putting e) w))).1,
        ));
    after = λ l.
        absurd (omega (arith, (after l).1, total-moved effort xs ys s.workers waiting finished w));
  }
  Step-Inv (put_returns xs ys e x w) = record {
    kept = λ p. omega (
      arith,
      kept p,
      total-moved (held p) xs ys s.workers (putting e) waiting w,
      count_if-append p s.puts (e ∷ []),
    );
    named = named;
    room = room;
    crew = omega (arith, crew, total-moved one xs ys s.workers (putting e) waiting w);
    shut = shut;
    over = λ g. over (omega (arith, total-moved gone xs ys s.workers (putting e) waiting w));
    after = λ l.
        absurd
          (omega (arith, (after l).1, total-moved effort xs ys s.workers (putting e) finished w));
  }
  Step-Inv (finish xs ys x w q c) = record {
    kept = λ p. omega (arith, kept p, total-moved (held p) xs ys s.workers waiting finished w);
    named = named;
    room = room;
    crew = omega (arith, crew, total-moved one xs ys s.workers waiting finished w);
    shut = shut;
    over = λ g. (c, q);
    after = λ l.
        absurd (omega (arith, (after l).1, total-moved effort xs ys s.workers waiting finished w));
  }
  Step-Inv (wait_group x c a l) = record {
    kept = kept;
    named = named;
    room = room;
    crew = crew;
    shut = shut;
    over = over;
    after = λ _. (c, effort-all s.workers a);
  }

-- at the beginning all workers are dialing
total-crew_of : (f : Worker → ℕ) (n : ℕ) → f dialing ≡ 0 → total f (crew_of n) ≡ 0
total-crew_of f zero h = refl
total-crew_of f (suc n) h = omega (arith, h, total-crew_of f n h)

one-crew_of : (n : ℕ) → total one (crew_of n) ≡ n
one-crew_of zero = refl
one-crew_of (suc n) = omega (arith, one-crew_of n)

Inv-start : (n : ℕ) (entries : List Entry) → Inv n entries (start n entries)
Inv-start n entries = record {
  kept = λ p. omega (arith, total-crew_of (held p) n refl);
  named = refl;
  room = omega arith;
  crew = one-crew_of n;
  shut = λ c. cc;
  over = λ g. absurd (omega (arith, total-crew_of gone n refl));
  after = λ l. cc;
}

-- Every reachable state has the invariant.
pub Runs-Inv :
    {worker_count : ℕ} {entries : List Entry} {n : ℕ} {s : Loading}
    → Runs worker_count entries n s
    → Inv worker_count entries s
Runs-Inv {worker_count} {entries} begun = Inv-start worker_count entries
Runs-Inv (later r st) = Step-Inv (Runs-Inv r) st
