-- ===== src/Client/LoadStep.antt =====
-- client/runner/runner_kv.go and runner_lock.go: the goroutines of `runLoadStep`. Clients make their
-- operations and send the latencies to a channel, a goroutine collects them into the result, and the
-- counters are added by the client (runner_lock.go) or by a goroutine of their own (runner_kv.go).
-- What an operation returns and which latencies it sends is up to the environment, as is the order
-- of the steps.
pub mod Invariant
pub mod Moves
pub mod Refines
pub mod Race
pub mod Accounts
pub mod Mixed
pub mod LockOnly
pub mod Rounds
pub mod Ends
pub mod Tests
use etcd_cloud_benchmarking.Prelude.{
  ℕ, zero, suc, ◌<◌, ◌≡◌, Bool, true, false, Option, none, some, List, [], ◌∷◌, ◌++◌, length, All,
  if◌then◌else◌,
}
use etcd_cloud_benchmarking.Prelude.Int.{ℤ, pos, ◌+ℤ◌, wrap64}
use etcd_cloud_benchmarking.Client.Errors.{GoError}
use etcd_cloud_benchmarking.Client.Lock.{is_nil}
use etcd_cloud_benchmarking.Client.Step.{StepResult, new_result}

-- a client's goroutine: at the head of its loop, with latencies still to send, or returned
pub data Client : Type 0 where
  ready stopped : Client
  sending : List ℤ → Option GoError → Client

-- an operation: the error that it returns and the latencies that it sends
abbrev pub Operation : Type 0
Operation = Option GoError × List ℤ

-- the operations made so far are noted beside the program's own state
pub record LoadStep : Type 0 where
  pub clients : List Client
  pub queue : List ℤ
  pub pending : List (Option GoError)
  pub result : StepResult
  pub expired : Bool
  pub closed : Bool
  pub reported : Option StepResult
  pub made : List Operation

abbrev pub all_ready : ℕ → List Client
all_ready zero = []
all_ready (suc n) = ready ∷ all_ready n

abbrev pub begin : ℕ → LoadStep
begin n = record {
  clients = all_ready n;
  queue = [];
  pending = [];
  result = new_result (pos n);
  expired = false;
  closed = false;
  reported = none;
  made = [];
}

-- `result.Latencies = append(result.Latencies, latency)`
unfoldable pub collect_latency : ℤ → StepResult → StepResult
collect_latency l r = record r { latencies = r.latencies ++ l ∷ [] }

-- the two atomic additions
unfoldable pub add_counters : Option GoError → StepResult → StepResult
unfolding is_nil
add_counters err r = record r {
  operations = wrap64 (r.operations +ℤ pos 1);
  errors = if is_nil err then r.errors else wrap64 (r.errors +ℤ pos 1);
}

abbrev pub IsStopped : Client → Type 0
IsStopped c = c ≡ stopped

-- One step of one goroutine; `spawns` tells runner_kv.go, and `room` is the capacity of the channel.
pub data Move (spawns : Bool) (room : ℕ) (s : LoadStep) : LoadStep → Type 0 where
  expire : s.expired ≡ false → Move spawns room s (record s { expired = true })
  operate :
      (xs ys : List Client) (o : Operation)
      → s.clients ≡ xs ++ ready ∷ ys
      → s.expired ≡ false
      → Move spawns room s
          (record s { clients = xs ++ sending o.1 o.0 ∷ ys; made = s.made ++ o ∷ [] })
  stop :
      (xs ys : List Client)
      → s.clients ≡ xs ++ ready ∷ ys
      → s.expired ≡ true
      → Move spawns room s (record s { clients = xs ++ stopped ∷ ys })
  send :
      (xs ys : List Client) (l : ℤ) (ls : List ℤ) (err : Option GoError)
      → s.clients ≡ xs ++ sending (l ∷ ls) err ∷ ys
      → length s.queue < room
      → Move spawns room s
          (record s { clients = xs ++ sending ls err ∷ ys; queue = s.queue ++ l ∷ [] })
  hand_over :
      (xs ys : List Client) (l : ℤ) (ls : List ℤ) (err : Option GoError)
      → s.clients ≡ xs ++ sending (l ∷ ls) err ∷ ys
      → s.queue ≡ []
      → Move spawns room s
          (record s { clients = xs ++ sending ls err ∷ ys; result = collect_latency l s.result })
  collect :
      (l : ℤ) (ls : List ℤ)
      → s.queue ≡ l ∷ ls
      → Move spawns room s (record s { queue = ls; result = collect_latency l s.result })
  spawn :
      (xs ys : List Client) (err : Option GoError)
      → spawns ≡ true
      → s.clients ≡ xs ++ sending [] err ∷ ys
      → Move spawns room s
          (record s { clients = xs ++ ready ∷ ys; pending = s.pending ++ err ∷ [] })
  count_spawned :
      (es fs : List (Option GoError)) (err : Option GoError)
      → s.pending ≡ es ++ err ∷ fs
      → Move spawns room s (record s { pending = es ++ fs; result = add_counters err s.result })
  count_here :
      (xs ys : List Client) (err : Option GoError)
      → spawns ≡ false
      → s.clients ≡ xs ++ sending [] err ∷ ys
      → Move spawns room s
          (record s { clients = xs ++ ready ∷ ys; result = add_counters err s.result })
  close_channel :
      All IsStopped s.clients → s.closed ≡ false → Move spawns room s (record s { closed = true })
  report :
      s.closed ≡ true
      → s.reported ≡ none
      → Move spawns room s (record s { reported = some s.result })

-- the states that the goroutines of n clients can reach
pub data Reach (spawns : Bool) (room n : ℕ) : LoadStep → Type 0 where
  begun : Reach spawns room n (begin n)
  later : {s t : LoadStep} → Reach spawns room n s → Move spawns room s t → Reach spawns room n t

-- a number of moves from a state
pub data Continues (spawns : Bool) (room : ℕ) (s : LoadStep) : ℕ → LoadStep → Type 0 where
  rest : Continues spawns room s 0 s
  more :
      {m : ℕ} {t u : LoadStep}
      → Continues spawns room s m t
      → Move spawns room t u
      → Continues spawns room s (suc m) u
