-- ===== src/Generator/Exhaust.antt =====
-- Keys of the least size have no padding, so that there are only as many as prefixes.
use etcd_cloud_benchmarking.Prelude.{
  ℕ, suc, ◌+◌, ◌*◌, ◌≤◌, ◌<◌, ◌≡◌, ◌≢◌, refl, sym, ap, ◌∙◌, List, [], ◌∷◌, length, All, All-map,
  take, arith, subst,
}
use etcd_cloud_benchmarking.Prelude.Int.{ℤ, pos, pos_part}
use etcd_cloud_benchmarking.Prelude.Pigeonhole.{Distinct, pigeonhole}
use etcd_cloud_benchmarking.Prelude.Text.{Text}
use etcd_cloud_benchmarking.Generator.Random.{Source}
use etcd_cloud_benchmarking.Generator.Keys.{IsDrawable}
use etcd_cloud_benchmarking.Prelude.Run.{ret}
use etcd_cloud_benchmarking.Generator.Data.{
  Entry, DistinctKeys, AreEntries, generate_data-AreEntries,
}
use etcd_cloud_benchmarking.Generator.{Generator, generate_data}

-- the number of a prefix
code_of : {t : Text} → IsDrawable t → ℕ
code_of w = w.i * 29000 + w.j * 1000 + w.shard

code_of-lt : {t : Text} (w : IsDrawable t) → code_of w < 232000
unfolding code_of
code_of-lt w = omega (arith, w.i-lt, w.j-lt, w.shard-lt)

-- prefixes of one number are equal
code_of-injective :
    {t t' : Text} (w : IsDrawable t) (w' : IsDrawable t') → code_of w ≡ code_of w' → t ≡ t'
unfolding code_of
code_of-injective w w' e =
    let ei : w.i ≡ w'.i = omega (arith, e, w.j-lt, w.shard-lt, w'.j-lt, w'.shard-lt) in
    let ej : w.j ≡ w'.j = omega (arith, e, w.j-lt, w.shard-lt, w'.j-lt, w'.shard-lt) in
    let es : w.shard ≡ w'.shard = omega (arith, e, w.j-lt, w.shard-lt, w'.j-lt, w'.shard-lt) in
    let ed : w.domain ≡ w'.domain = cc (w.at_domain, w'.at_domain, ei) in
    let er : w.region ≡ w'.region = cc (w.at_region, w'.at_region, ej) in
    w.made ∙ cc (ed, er, es) ∙ sym w'.made

take-length {ℓ} : {A : Type ℓ} (xs : List A) → take (length xs) xs ≡ xs
take-length [] = refl
take-length (x ∷ xs) = ap (λ r. x ∷ r) (take-length xs)

take_all : (k : Text) → length k ≡ 12 → take 12 k ≡ k
take_all k e = subst (λ (n : ℕ). take n k ≡ k) e (take-length k)

-- an entry of the least key size
abbrev IsLeast : Entry → Type 0
IsLeast e = length e.0 ≡ 12

code_list : (es : List Entry) → All (λ e. IsDrawable (take 12 e.0)) es → List ℕ
code_list [] w = []
code_list (e ∷ es) w = code_of w.0 ∷ code_list es w.1

module _ where
  length-code_list :
      (es : List Entry) (w : All (λ e. IsDrawable (take 12 e.0)) es)
      → length (code_list es w) ≡ length es
  unfolding code_list
  length-code_list [] w = refl
  length-code_list (e ∷ es) w = ap suc (length-code_list es w.1)

  code_list-lt :
      (es : List Entry) (w : All (λ e. IsDrawable (take 12 e.0)) es)
      → All (λ c. c < 232000) (code_list es w)
  unfolding code_list
  code_list-lt [] w = tt
  code_list-lt (e ∷ es) w = (code_of-lt w.0, code_list-lt es w.1)

  code_list-ne :
      (x : Entry) (v : IsDrawable (take 12 x.0)) (es : List Entry)
      (w : All (λ e. IsDrawable (take 12 e.0)) es)
      → IsLeast x
      → All IsLeast es
      → All (λ e. x.0 ≢ e.0) es
      → All (λ c. code_of v ≢ c) (code_list es w)
  unfolding code_list
  code_list-ne x v [] w l ls d = tt
  code_list-ne x v (e ∷ es) w l ls d = (
    λ eq. d.0 (sym (take_all x.0 l) ∙ code_of-injective v w.0 eq ∙ take_all e.0 ls.0),
    code_list-ne x v es w.1 l ls.1 d.1,
  )

  code_list-Distinct :
      (es : List Entry) (w : All (λ e. IsDrawable (take 12 e.0)) es)
      → All IsLeast es
      → DistinctKeys es
      → Distinct (code_list es w)
  unfolding code_list
  code_list-Distinct [] w l d = tt
  code_list-Distinct (e ∷ es) w l d =
      (code_list-ne e w.0 es w.1 l.0 l.1 d.0, code_list-Distinct es w.1 l.1 d.1)

-- there are at most 232000 entries with keys of the least size
pub AreEntries-le :
    (R : Source) (n : ℕ) (vs : ℤ) (es : List Entry) → AreEntries R n (pos 12) vs es → n ≤ 232000
AreEntries-le R n vs es a =
    let least = All-map es (λ e h. ap pos_part h.0) a.sized in
    omega (
      arith,
      a.as_many,
      length-code_list es a.drawable,
      pigeonhole 232000 (code_list es a.drawable)
          (code_list-Distinct es a.drawable least a.distinct) (code_list-lt es a.drawable),
    )

-- With keys of 12 bytes, the least size that a configuration may have, GenerateData does not return
-- when more than 232000 keys are asked for, whatever the random source and however long it runs:
-- there are no more prefixes, and once all are taken GenerateKey calls itself for ever.
pub generate_data_exhausted :
    (R : Source) (fuel n : ℕ) (vs : ℤ) (g : Generator R) (m : List Entry) (g' : Generator R)
    → 232000 < n
    → generate_data R fuel (pos n) (pos 12) vs g ≢ ret (m, g')
generate_data_exhausted R fuel n vs g m g' big h =
    let (k, e, a) = generate_data-AreEntries R fuel (pos n) (pos 12) vs g m g' h in
    omega (arith, AreEntries-le R k vs m a, ap pos_part e)
