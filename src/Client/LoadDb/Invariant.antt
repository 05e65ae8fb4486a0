-- ===== src/Client/LoadDb/Invariant.antt =====
-- Every entry is in one place: still to be sent, in the channel, with a worker, or put.
use etcd_cloud_benchmarking.Prelude.{
  ℕ, ◌+◌, ◌≤◌, ◌<◌, ◌≡◌, Bool, true, List, [], ◌++◌, map, length, count_if, total, if◌then◌else◌,
}
use etcd_cloud_benchmarking.Prelude.Text.{Text}
use etcd_cloud_benchmarking.Generator.Data.{Entry}
use etcd_cloud_benchmarking.Client.LoadDb.{Worker, dialing, waiting, finished, putting, Loading}

abbrev pub key_of : Entry → Text
key_of e = e.0

abbrev pub held : (Entry → Bool) → Worker → ℕ
held p (putting e) = if p e then 1 else 0
held p w = 0

-- what a worker has still to do, in steps
abbrev pub effort : Worker → ℕ
effort dialing = 2
effort waiting = 1
effort finished = 0
effort (putting e) = 2

-- one for a worker that returned
abbrev pub gone : Worker → ℕ
gone finished = 1
gone w = 0

abbrev pub one : Worker → ℕ
one w = 1

pub record Inv (worker_count : ℕ) (entries : List Entry) (s : Loading) : Type 0 where
  pub kept :
      (p : Entry → Bool)
      → count_if p s.puts + total (held p) s.workers + count_if p s.queue + count_if p s.todo
        ≡ count_if p entries
  pub named : s.keys ++ map key_of s.todo ≡ map key_of entries
  pub room : length s.queue ≤ worker_count
  pub crew : total one s.workers ≡ worker_count
  pub shut : s.closed ≡ true → s.todo ≡ []
  pub over : 0 < total gone s.workers → (s.closed ≡ true) × (s.queue ≡ [])
  pub after : s.loaded ≡ true → (s.closed ≡ true) × (total effort s.workers ≡ 0)
