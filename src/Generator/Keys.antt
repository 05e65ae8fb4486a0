-- ===== src/Generator/Keys.antt =====
-- The shape of keys: every prefix is twelve bytes, and isUsedPadding reads back what it is made of.
use etcd_cloud_benchmarking.Prelude.{
  ℕ, ◌<◌, ◌==◌, ◌≡◌, refl, Bool, true, false, ◌&&◌, not, some, List, [], ◌∷◌, ◌++◌, length,
  get_elem?, All-map, every-All, take, drop, get_elem?-All, arith,
}
use etcd_cloud_benchmarking.Prelude.Lists.{every}
use etcd_cloud_benchmarking.Prelude.Int.{pos}
use etcd_cloud_benchmarking.Prelude.Run.{ret}
use etcd_cloud_benchmarking.Prelude.Text.{
  Text, split, trim, sprintf_03d, sscanf_d, holds_under, holds_under-lt,
}
use etcd_cloud_benchmarking.Generator.Random.{Source}
use etcd_cloud_benchmarking.Generator.Tables.{domains, regions}
use etcd_cloud_benchmarking.Generator.{combination, shard_num, draw_parts}

-- three bytes, none a slash
is_part : Text → Bool
is_part (a ∷ b ∷ c ∷ []) = not (a == b'/') && not (b == b'/') && not (c == b'/')
is_part s = false

reads_back : ℕ → Bool
unfolding is_part
reads_back n =
    is_part (sprintf_03d n) && elim (sscanf_d (sprintf_03d n)) [ some (pos m) ↦ m == n | _ ↦ false ]

shards_read_back : holds_under reads_back 1000 ≡ true
unfolding holds_under reads_back sprintf_03d sscanf_d
shards_read_back = refl

domains_are_parts : every is_part domains ≡ true
unfolding every is_part domains
domains_are_parts = refl

regions_are_parts : every is_part regions ≡ true
unfolding every is_part regions
regions_are_parts = refl

abbrev pub IsByte : ℕ → Type 0
IsByte a = (a == b'/') ≡ false

pub data IsPart : Text → Type 0 where
  part : (a b c : ℕ) → IsByte a → IsByte b → IsByte c → IsPart (a ∷ b ∷ c ∷ [])

is_part-IsPart : (w : Text) → is_part w ≡ true → IsPart w
unfolding is_part
is_part-IsPart [] h = cc
is_part-IsPart (a ∷ []) h = cc
is_part-IsPart (a ∷ b ∷ []) h = cc
is_part-IsPart (a ∷ b ∷ c ∷ []) h = part a b c (ground arith) (ground arith) (ground arith)
is_part-IsPart (a ∷ b ∷ c ∷ d ∷ s) h = cc

pub IsPart-length : {w : Text} → IsPart w → length w ≡ 3
IsPart-length (part a b c ha hb hc) = refl

member_IsPart :
    (ws : List Text) (i : ℕ)
    → every is_part ws ≡ true
    → i < length ws
    → (w : Text) × (get_elem? ws i ≡ some w) × IsPart w
member_IsPart ws i h lt = get_elem?-All ws i (All-map ws is_part-IsPart (every-All is_part ws h)) lt

pub shard_IsPart :
    (n : ℕ) → n < 1000 → IsPart (sprintf_03d n) × (sscanf_d (sprintf_03d n) ≡ some (pos n))
unfolding reads_back
shard_IsPart n lt =
    let h = holds_under-lt reads_back 1000 n lt shards_read_back in
    (is_part-IsPart (sprintf_03d n) (ground arith), ground arith)

-- isUsedPadding recovers from a prefix the three parts that GenerateKey made it of.
pub combination_prefix :
    (d r s p : Text)
    → IsPart d
    → IsPart r
    → IsPart s
    → combination (b'/' ∷ d ++ (b'/' ∷ r ++ b'/' ∷ s)) p
      ≡ ret (record { domain = d; region = r; shard = shard_num (sscanf_d s); padding = p })
unfolding combination trim split
combination_prefix d r s p (part a b c ha hb hc) (part a' b' c' ha' hb' hc')
      (part a'' b'' c'' ha'' hb'' hc'') =
    simp (ha, hc'', hb'', ha'', hc', hb', ha', hc, hb)

-- a prefix is the first twelve bytes of a key
pub key_parts :
    (d r s p : Text)
    → IsPart d
    → IsPart r
    → IsPart s
    → (take 12 ((b'/' ∷ d ++ (b'/' ∷ r ++ b'/' ∷ s)) ++ p) ≡ b'/' ∷ d ++ (b'/' ∷ r ++ b'/' ∷ s))
      × (drop 12 ((b'/' ∷ d ++ (b'/' ∷ r ++ b'/' ∷ s)) ++ p) ≡ p)
key_parts d r s p (part a b c ha hb hc) (part a' b' c' ha' hb' hc')
      (part a'' b'' c'' ha'' hb'' hc'') =
    (refl, refl)

-- a prefix that the draws can make, with the places in the tables
pub record IsDrawable (t : Text) : Type 0 where
  pub domain : Text
  pub region : Text
  pub i : ℕ
  pub j : ℕ
  pub shard : ℕ
  pub at_domain : get_elem? domains i ≡ some domain
  pub at_region : get_elem? regions j ≡ some region
  pub i-lt : i < 8
  pub j-lt : j < 29
  pub shard-lt : shard < 1000
  pub made : t ≡ b'/' ∷ domain ++ (b'/' ∷ region ++ b'/' ∷ sprintf_03d shard)

-- The three draws never panic, and what they give are three parts of three bytes.
module _ (R : Source) where
  open R use {State, intn, intn-lt}

  pub record Drawn (s : State) : Type 0 where
    pub domain : Text
    pub region : Text
    pub shard : ℕ
    pub next : State
    pub is_domain : IsPart domain
    pub is_region : IsPart region
    pub is_shard : IsPart (sprintf_03d shard)
    pub shard_back : sscanf_d (sprintf_03d shard) ≡ some (pos shard)
    pub drawable : IsDrawable (b'/' ∷ domain ++ (b'/' ∷ region ++ b'/' ∷ sprintf_03d shard))
    pub drawn : draw_parts R s ≡ ret (domain, region, sprintf_03d shard, next)

  pub draw_parts_total : (s : State) → Drawn s
  unfolding draw_parts domains regions
  draw_parts_total s =
      let (i, s₁) = intn (length domains) s in
      let (d, ed, pd) =
        member_IsPart domains i domains_are_parts (intn-lt (length domains) s (omega arith)) in
      let (j, s₂) = intn (length regions) s₁ in
      let (r, er, pr) =
        member_IsPart regions j regions_are_parts (intn-lt (length regions) s₁ (omega arith)) in
      let (n, s₃) = intn 1000 s₂ in
      let (ps, es) = shard_IsPart n (intn-lt 1000 s₂ (omega arith)) in
      record {
        domain = d;
        region = r;
        shard = n;
        next = s₃;
        is_domain = pd;
        is_region = pr;
        is_shard = ps;
        shard_back = es;
        drawable = record {
          domain = d;
          region = r;
          i = i;
          j = j;
          shard = n;
          at_domain = ed;
          at_region = er;
          i-lt = intn-lt 8 s (omega arith);
          j-lt = intn-lt 29 s₁ (omega arith);
          shard-lt = intn-lt 1000 s₂ (omega arith);
          made = refl;
        };
        drawn = rw (ed, er) refl;
      }
