-- ===== src/Client/Step/Laws.antt =====
-- What a step result says of the operations of the step.
use etcd_cloud_benchmarking.Prelude.{
  ℕ, zero, suc, ◌+◌, ◌-◌, ◌*◌, ◌^◌, ◌≤◌, ◌<◌, ◌≡◌, refl, sym, ap, ◌∙◌, subst, Option, none, some,
  List, [], ◌∷◌, ◌++◌, length, get_elem?, All, if◌then◌else◌, arith,
}
use mathlib.Core.List.{append_assoc, append-nil, Mem, mem-cons_self, mem-cons_of_mem}
use mathlib.Core.List.Perm
use etcd_cloud_benchmarking.Client.Lock.Select.{some_elem}
use etcd_cloud_benchmarking.Prelude.Int.{ℤ, pos, ltb_ℤ, leb_ℤ, ◌≤ℤ◌, ◌+ℤ◌, ◌-ℤ◌, wrap64}
use etcd_cloud_benchmarking.Prelude.Run.{ret}
use etcd_cloud_benchmarking.Prelude.Sort.{
  insert, sort_slice, length-sort_slice, sort_slice-perm, sort_slice-Sorted, Sorted,
}
use etcd_cloud_benchmarking.Client.Errors.{GoError}
use etcd_cloud_benchmarking.Client.Lock.{is_nil}
use etcd_cloud_benchmarking.Client.Step.{
  StepResult, new_result, count_operation, count_operations, index_ℤ, calculate_p99_latency,
}

-- how many of the operations returned an error
abbrev pub failed : List (Option GoError × List ℤ) → ℕ
failed [] = 0
failed ((none, _) ∷ os) = failed os
failed ((some e, _) ∷ os) = suc (failed os)

-- all that they sent to the latency channel
abbrev pub sent : List (Option GoError × List ℤ) → List ℤ
sent [] = []
sent ((_, ls) ∷ os) = ls ++ sent os

pub plus_one : (n : ℕ) → n < 2 ^ 63 - 1 → wrap64 (pos n +ℤ pos 1) ≡ pos (n + 1)
unfolding wrap64 ◌+ℤ◌
plus_one n h = ground arith

counted :
    (r : StepResult) (os : List (Option GoError × List ℤ)) (n m : ℕ)
    → r.operations ≡ pos n
    → r.errors ≡ pos m
    → n + length os < 2 ^ 63
    → m + length os < 2 ^ 63
    → ((count_operations r os).operations ≡ pos (n + length os))
      × ((count_operations r os).errors ≡ pos (m + failed os))
      × ((count_operations r os).latencies ≡ r.latencies ++ sent os)
unfolding count_operations count_operation is_nil
counted r [] n m h k b c =
    (h ∙ ap pos (omega arith), k ∙ ap pos (omega arith), sym (append-nil r.latencies))
counted r ((none, ls) ∷ os) n m h k b c =
    let ih =
      counted (count_operation r (none, ls)) os (n + 1) m
        (ap (λ z. wrap64 (z +ℤ pos 1)) h ∙ plus_one n (omega arith)) k (omega arith)
        (omega arith) in
    (ih.0 ∙ ap pos (omega arith), ih.1, ih.2 ∙ append_assoc r.latencies ls (sent os))
counted r ((some e, ls) ∷ os) n m h k b c =
    let ih =
      counted (count_operation r (some e, ls)) os (n + 1) (m + 1)
        (ap (λ z. wrap64 (z +ℤ pos 1)) h ∙ plus_one n (omega arith))
        (ap (λ z. wrap64 (z +ℤ pos 1)) k ∙ plus_one m (omega arith)) (omega arith) (omega arith) in
    (
      ih.0 ∙ ap pos (omega arith),
      ih.1 ∙ ap pos (omega arith),
      ih.2 ∙ append_assoc r.latencies ls (sent os),
    )

-- A step that counts its operations, fewer than 2^63, has their number, the number of those that
-- returned an error, and every latency that was sent, in the order in which the operations ended.
pub step_counts :
    (clients : ℤ) (os : List (Option GoError × List ℤ))
    → length os < 2 ^ 63
    → ((count_operations (new_result clients) os).operations ≡ pos (length os))
      × ((count_operations (new_result clients) os).errors ≡ pos (failed os))
      × ((count_operations (new_result clients) os).latencies ≡ sent os)
unfolding new_result
step_counts clients os h =
    let c = counted (new_result clients) os 0 0 refl refl (omega arith) (omega arith) in
    (c.0 ∙ ap pos (omega arith), c.1 ∙ ap pos (omega arith), c.2)

-- how many of the numbers are at most `v`
abbrev pub at_most : ℤ → List ℤ → ℕ
at_most v [] = 0
at_most v (x ∷ xs) = if leb_ℤ x v then suc (at_most v xs) else at_most v xs

some_inj : {a b : ℤ} → some a ≡ some b → a ≡ b
some_inj e = cc

all_at : (x : ℤ) (xs : List ℤ) (i : ℕ) (v : ℤ) → All (◌≤ℤ◌ x) xs → get_elem? xs i ≡ some v → x ≤ℤ v
all_at x [] i v h e = absurd (ground (arith, e))
all_at x (y ∷ ys) zero v h e = subst (λ z. x ≤ℤ z) (some_inj e) h.0
all_at x (y ∷ ys) (suc i) v h e = all_at x ys i v h.1 e

at_most-insert : (v x : ℤ) (ys : List ℤ) → at_most v (insert ltb_ℤ x ys) ≡ at_most v (x ∷ ys)
unfolding insert
at_most-insert v x [] = refl
at_most-insert v x (y ∷ ys) = ground (arith, at_most-insert v x ys)

at_most-sort_slice : (v : ℤ) (xs : List ℤ) → at_most v (sort_slice ltb_ℤ xs) ≡ at_most v xs
unfolding sort_slice
at_most-sort_slice v [] = refl
at_most-sort_slice v (x ∷ xs) =
    ground (arith, at_most-insert v x (sort_slice ltb_ℤ xs), at_most-sort_slice v xs)

Sorted-sort_slice : (xs : List ℤ) → Sorted ◌≤ℤ◌ (sort_slice ltb_ℤ xs)
Sorted-sort_slice =
    sort_slice-Sorted ltb_ℤ ◌≤ℤ◌ (λ a b h. ground arith) (λ a b h. ground arith)
      (λ a b c h k. omega arith)

get_elem?-Mem : (xs : List ℤ) (i : ℕ) (v : ℤ) → get_elem? xs i ≡ some v → Mem v xs
get_elem?-Mem [] i v e = absurd (ground (arith, e))
get_elem?-Mem (x ∷ xs) zero v e = subst (λ z. Mem z (x ∷ xs)) (some_inj e) mem-cons_self
get_elem?-Mem (x ∷ xs) (suc i) v e = mem-cons_of_mem x (get_elem?-Mem xs i v e)

-- in a sorted list, the element at place i has i + 1 elements that are at most it
at_most-Sorted :
    (xs : List ℤ) (i : ℕ) (v : ℤ) → Sorted ◌≤ℤ◌ xs → get_elem? xs i ≡ some v → i < at_most v xs
at_most-Sorted [] i v s e = cc
at_most-Sorted (x ∷ xs) zero v s e = ground arith
at_most-Sorted (x ∷ xs) (suc i) v s e =
    ground (arith, at_most-Sorted xs i v s.1 e, all_at x xs i v s.0 e)

-- the index as the code computes it
index_of : (n c : ℕ) → 0 < c → c ≤ n → n < 2 ^ 63 → wrap64 (pos c -ℤ pos 1) ≡ pos (c - 1)
unfolding wrap64 ◌-ℤ◌
index_of n c h k b = ground arith

elem_at : (xs : List ℤ) (i : ℕ) → i < length xs → (v : ℤ) × (get_elem? xs i ≡ some v)
elem_at xs i h = some_elem xs i h

index_total :
    (ls : List ℤ) (c : ℕ)
    → 0 < length ls
    → length ls < 2 ^ 63
    → 99 * length ls ≤ 100 * c
    → c ≤ length ls
    → (v : ℤ) × (index_ℤ (sort_slice ltb_ℤ ls) (wrap64 (pos c -ℤ pos 1)) ≡ ret v)
      × Mem v ls
      × (99 * length ls ≤ 100 * at_most v ls)
unfolding index_ℤ
index_total ls c h b lo hi =
    let sorted : List ℤ = sort_slice ltb_ℤ ls in
    let len : length sorted ≡ length ls = length-sort_slice ltb_ℤ ls in
    let (v, ev) = elem_at sorted (c - 1) (omega (arith, len, lo, hi, h)) in
    let idx = index_of (length ls) c (omega (arith, lo, h)) hi b in
    let below = at_most-Sorted sorted (c - 1) v (Sorted-sort_slice ls) ev in
    (
      v,
      rw (idx, ev) refl,
      (Perm.mem_iff (sort_slice-perm ltb_ℤ ls)).0 (get_elem?-Mem sorted (c - 1) v ev),
      omega (arith, lo, below, at_most-sort_slice v ls),
    )

calculated :
    (ceil_99 : ℕ → ℕ) (r : StepResult) (ls : List ℤ) (v : ℤ)
    → r.latencies ≡ ls
    → 0 < length ls
    → index_ℤ (sort_slice ltb_ℤ ls) (wrap64 (pos (ceil_99 (length ls)) -ℤ pos 1)) ≡ ret v
    → calculate_p99_latency ceil_99 r ≡ ret (record r { p99_latency = v })
unfolding calculate_p99_latency
calculated ceil_99 r [] v e h k = absurd (omega arith)
calculated ceil_99 r (x ∷ xs) v e h k =
    rw (e, calculate_p99_latency, length-sort_slice ltb_ℤ (x ∷ xs), k)
      (ap (λ (l : List ℤ). ret (record r { latencies = l; p99_latency = v })) e)

-- Where the rounded-up product is at least 0.99 times the number of latencies and at most that
-- number, the 99th percentile is one of the latencies, and at least 99 in a hundred of them are at
-- most it; nothing else of the result changes, and the index is never out of range.
pub p99_covers :
    (ceil_99 : ℕ → ℕ) (r : StepResult)
    → 0 < length r.latencies
    → length r.latencies < 2 ^ 63
    → 99 * length r.latencies ≤ 100 * ceil_99 (length r.latencies)
    → ceil_99 (length r.latencies) ≤ length r.latencies
    → (v : ℤ) × (calculate_p99_latency ceil_99 r ≡ ret (record r { p99_latency = v }))
      × Mem v r.latencies
      × (99 * length r.latencies ≤ 100 * at_most v r.latencies)
p99_covers ceil_99 r h b lo hi =
    let (v, e, m, c) = index_total r.latencies (ceil_99 (length r.latencies)) h b lo hi in
    (v, calculated ceil_99 r r.latencies v refl h e, m, c)
