-- ===== src/Client/Lock/Select.antt =====
-- client/runner/runner_lock.go: the lock names, and the choice of a lock for the next operation.
use etcd_cloud_benchmarking.Prelude.{
  ℕ, zero, suc, ◌+◌, ◌-◌, ◌/◌, ◌^◌, ◌≤◌, ◌<◌, ◌≡◌, refl, ◌⊎◌, inl, inr, Bool, true, some, List, [],
  ◌∷◌, ◌++◌, length, get_elem?, drop, ltb, ltb→lt, Bool-cases, if◌then◌else◌, arith, map,
  length-map,
}
use etcd_cloud_benchmarking.Prelude.Int.{ℤ, pos, negsuc, ◌+ℤ◌, ◌-ℤ◌, wrap64}
use etcd_cloud_benchmarking.Prelude.Run.{Run, ret, panics, or_panic, ◌>>=◌}
use etcd_cloud_benchmarking.Prelude.Text.{Text, codes}
use etcd_cloud_benchmarking.Generator.Random.{Source}

-- `fmt.Sprintf("/lock%s", key)`
abbrev pub lock_name : Text → Text
lock_name key = codes "/lock" ++ key

-- the loop of `NewBenchmarkRunnerLock` over the first NumKeys keys; a key that is missing panics
unfoldable pub lock_names : ℕ → List Text → Run (List Text)
lock_names zero keys = ret []
lock_names (suc n) [] = panics
lock_names (suc n) (key ∷ keys) = do names ← lock_names n keys; ret (lock_name key ∷ names)

-- `numClients / 2`, which rounds towards zero
unfoldable pub contention_level : ℤ → ℤ
contention_level (pos n) = pos (n / 2)
contention_level (negsuc n) = pos 0 -ℤ pos (suc n / 2)

-- `lockName[5:]`
unfoldable pub key_of : Text → Run Text
key_of name = if ltb (length name) 5 then panics else ret (drop 5 name)

pub some_elem {ℓ} :
    {A : Type ℓ} (xs : List A) (i : ℕ) → i < length xs → (a : A) × (get_elem? xs i ≡ some a)
some_elem [] i h = elim h [ ]
some_elem (x ∷ xs) zero h = (x, refl)
some_elem (x ∷ xs) (suc i) h = some_elem xs i (omega arith)

module _ (R : Source) where
  open R use {State, intn, intn-lt}

  -- `rg.Intn(n)`, which panics unless n is positive
  unfoldable pub intn_checked : ℤ → State → Run (ℕ × State)
  intn_checked (pos zero) s = panics
  intn_checked (pos (suc n)) s = ret (intn (suc n) s)
  intn_checked (negsuc n) s = panics

  -- the choice for lock-contention: one of `level` neighbours from a random start
  unfoldable pub select_contended : ℤ → List Text → State → Run (Text × State)
  select_contended level names s = do
    (start, s₁) ← intn_checked (wrap64 (wrap64 (pos (length names) -ℤ level) +ℤ pos 1)) s
    (i, s₂) ← intn_checked level s₁
    name ← or_panic (get_elem? names (start + i))
    ret (name, s₂)

  -- the choice for the other workloads
  unfoldable pub select_any : List Text → State → Run (Text × State)
  select_any names s = do
    (i, s₁) ← intn_checked (pos (length names)) s
    name ← or_panic (get_elem? names i)
    ret (name, s₁)

  -- the lock of the next operation, and the key that it guards
  unfoldable pub select_lock : Bool → ℤ → List Text → State → Run (Text × Text × State)
  select_lock contention level names s = do
    (name, s') ← if contention then select_contended level names s else select_any names s
    key ← key_of name
    ret (name, key, s')

  pub intn_checked_pos :
      (n : ℕ) (s : State)
      → 0 < n
      → (i : ℕ) × (s' : State) × (intn_checked (pos n) s ≡ ret (i, s')) × (i < n)
  unfolding intn_checked
  intn_checked_pos zero s h = elim h [ ]
  intn_checked_pos (suc n) s h = ((intn (suc n) s).0, (intn (suc n) s).1, refl, intn-lt (suc n) s h)

  -- the names of the keys, in order
  named :
      (keys : List Text) (i : ℕ)
      → i < length keys
      → (k : Text) × (get_elem? keys i ≡ some k)
        × (get_elem? (map lock_name keys) i ≡ some (lock_name k))
  named [] i h = elim h [ ]
  named (k ∷ ks) zero h = (k, refl, refl)
  named (k ∷ ks) (suc i) h = named ks i (omega arith)

  span :
      (n l : ℕ)
      → l ≤ n
      → n < 2 ^ 63 - 1
      → wrap64 (wrap64 (pos n -ℤ pos l) +ℤ pos 1) ≡ pos (n - l + 1)
  unfolding wrap64 ◌-ℤ◌ ◌+ℤ◌
  span n l h b = ground arith

  key_of-lock_name : (k : Text) → key_of (lock_name k) ≡ ret k
  unfolding key_of
  key_of-lock_name k = ground arith

  -- With the lock names of fewer than 2^63 - 1 keys, and at least one client competing, but no more
  -- than there are keys, the choice gives the name of one of the keys, together with that key.
  select_contended_lock :
      (keys : List Text) (level : ℕ) (s : State)
      → 0 < level
      → level ≤ length keys
      → length keys < 2 ^ 63 - 1
      → (i : ℕ) × (k : Text) × (s' : State) × (get_elem? keys i ≡ some k)
        × (select_lock true (pos level) (map lock_name keys) s ≡ ret (lock_name k, k, s'))
  unfolding select_lock select_contended
  select_contended_lock keys level s h₀ h₁ h₂ =
      let (start, s₁, e₁, lt₁) = intn_checked_pos (length keys - level + 1) s (omega arith) in
      let (i, s₂, e₂, lt₂) = intn_checked_pos level s₁ h₀ in
      let (k, e₃, e₄) = named keys (start + i) (omega (arith, lt₁, lt₂, h₁)) in
      (
        start + i,
        k,
        s₂,
        e₃,
        rw
            (
              length-map lock_name keys,
              span (length keys) level h₁ h₂,
              e₁,
              e₂,
              e₄,
              key_of-lock_name k,
            )
            refl,
      )

  intn_checked_below :
      (n l : ℕ) (s : State)
      → n < l
      → l < 2 ^ 63
      → intn_checked (wrap64 (wrap64 (pos n -ℤ pos l) +ℤ pos 1)) s ≡ panics
  unfolding intn_checked wrap64 ◌-ℤ◌ ◌+ℤ◌
  intn_checked_below n l s h b = ground arith

  -- With numbers of clients and of locks that an int holds, the choice panics whenever a step of
  -- lock-contention has fewer than two clients, or half of its clients is more than there are locks.
  select_contended_panics :
      (names : List Text) (n : ℕ) (s : State)
      → n < 2 ^ 63
      → length names < 2 ^ 63 - 1
      → (n < 2) ⊎ (length names < n / 2)
      → select_lock true (contention_level (pos n)) names s ≡ panics
  unfolding select_lock select_contended contention_level
  select_contended_panics names n s b b' (inl h) =
      let e : n / 2 ≡ 0 = omega arith in
      let (start, s₁, e₁, _) = intn_checked_pos (length names - 0 + 1) s (omega arith) in
      rw (e, span (length names) 0 (omega arith) b', e₁) (unfold intn_checked in refl)
  select_contended_panics names n s b b' (inr h) =
      rw (intn_checked_below (length names) (n / 2) s h (omega arith)) refl

  -- The choice of a lock in a step of lock-contention, with numbers of clients and of keys that an int
  -- holds: with at least two clients, half of whom are no more than the keys, it gives the name of one
  -- of the locks together with the key that the lock guards; otherwise it panics.
  pub select_lock-contended :
      (keys : List Text) (n : ℕ) (s : State)
      → n < 2 ^ 63
      → length keys < 2 ^ 63 - 1
      → ((2 ≤ n)
          × (n / 2 ≤ length keys)
          × (i : ℕ) × (k : Text) × (s' : State) × (get_elem? keys i ≡ some k)
          × (select_lock true (contention_level (pos n)) (map lock_name keys) s
              ≡ ret (lock_name k, k, s')))
        ⊎ (((n < 2) ⊎ (length keys < n / 2))
            × (select_lock true (contention_level (pos n)) (map lock_name keys) s ≡ panics))
  unfolding contention_level
  select_lock-contended keys n s b b' = elim (Bool-cases (ltb n 2)) [
    | inl few ↦ inr (
      inl (ltb→lt n 2 few),
      select_contended_panics (map lock_name keys) n s b (omega (arith, length-map lock_name keys))
          (inl (ltb→lt n 2 few)),
    )
    | inr more ↦ elim (Bool-cases (ltb (length keys) (n / 2))) [
      | inl many ↦ inr (
        inr (ltb→lt (length keys) (n / 2) many),
        select_contended_panics (map lock_name keys) n s b
            (omega (arith, length-map lock_name keys))
            (inr (omega (arith, length-map lock_name keys, ltb→lt (length keys) (n / 2) many))),
      )
      | inr fine ↦
          let (i, k, s', there, chosen) =
            select_contended_lock keys (n / 2) s (ground arith) (ground arith) b' in
          inl (ground arith, ground arith, i, k, s', there, chosen)
    ]
  ]
