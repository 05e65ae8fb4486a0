-- ===== src/Control/Names/Words.antt =====
-- Names that are made of words, between their two forms: KeySize and key_size.
use etcd_cloud_benchmarking.Prelude.{
  ℕ, ◌==◌, ◌≡◌, refl, ap, ◌∙◌, true, false, List, [], ◌∷◌, ◌++◌, map, All, arith,
}
use etcd_cloud_benchmarking.Prelude.Text.{
  Text, split, split_parts, split_cons, is_upper, is_lower, to_lower, to_upper,
}
use etcd_cloud_benchmarking.Control.Names.{
  is_acronym, snake_from, to_snake_case, camel_part, camel_rest, camel_parts, to_camel_case,
}

-- a word of at least two letters
pub record Word : Type 0 where
  pub first : ℕ
  pub second : ℕ
  pub others : Text

abbrev pub lower : Word → Text
lower w = w.first ∷ w.second ∷ w.others

abbrev pub capital : Word → Text
capital w = to_upper w.first ∷ w.second ∷ w.others

-- words that start with a capital, one after the other
abbrev pub capitals : List Word → Text
capitals [] = []
capitals (w ∷ ws) = capital w ++ capitals ws

-- words in lower case, an underscore before each
abbrev pub underscored : List Word → Text
underscored [] = []
underscored (w ∷ ws) = b'_' ∷ lower w ++ underscored ws

abbrev pub IsLower : Text → Type 0
IsLower s = All (λ c. is_lower c ≡ true) s

-- all letters in lower case, and not the acronym
pub record IsWord (w : Word) : Type 0 where
  pub lowered : IsLower (lower w)
  pub no_acronym : is_acronym (lower w) ≡ false

upper_upper : (c : ℕ) → is_lower c ≡ true → is_upper (to_upper c) ≡ true
unfolding is_lower is_upper to_upper
upper_upper c h = ground (arith, h)

lower_upper : (c : ℕ) → is_lower c ≡ true → to_lower (to_upper c) ≡ c
unfolding is_lower is_upper to_upper to_lower
lower_upper c h = ground (arith, h)

lower_same : (c : ℕ) → is_lower c ≡ true → to_lower c ≡ c
unfolding is_lower is_upper to_lower
lower_same c h = ground (arith, h)

lower_not_upper : (c : ℕ) → is_lower c ≡ true → is_upper c ≡ false
unfolding is_lower is_upper
lower_not_upper c h = ground (arith, h)

lower_no_underscore : (c : ℕ) → is_lower c ≡ true → (c == b'_') ≡ false
unfolding is_lower
lower_no_underscore c h = ground (arith, h)

-- a letter in lower case stays, with no underscore before it
snake_from-lower :
    (prev c : ℕ) (s : Text) → is_lower c ≡ true → snake_from prev (c ∷ s) ≡ c ∷ snake_from c s
unfolding snake_from
snake_from-lower prev c s h = rw (lower_not_upper c h, lower_same c h) refl

-- a capital after a letter in lower case gets one
snake_from-capital :
    (prev c : ℕ) (s : Text)
    → is_lower prev ≡ true
    → is_lower c ≡ true
    → snake_from prev (to_upper c ∷ s) ≡ b'_' ∷ c ∷ snake_from (to_upper c) s
unfolding snake_from
snake_from-capital prev c s l h = rw (upper_upper c h, lower_upper c h, l) refl

snake_from-words :
    (prev : ℕ) (t : Text) (ws : List Word)
    → is_lower prev ≡ true
    → IsLower t
    → All IsWord ws
    → snake_from prev (t ++ capitals ws) ≡ t ++ underscored ws
unfolding snake_from
snake_from-words prev [] [] l h k = refl
snake_from-words prev [] (w ∷ ws) l h (k, ks) =
    let (first, (second, others)) = k.lowered in
    snake_from-capital prev w.first (w.second ∷ w.others ++ capitals ws) l first
    ∙ ap (λ r. b'_' ∷ w.first ∷ r)
        (snake_from-lower (to_upper w.first) w.second (w.others ++ capitals ws) second
          ∙ ap (λ r. w.second ∷ r) (snake_from-words w.second w.others ws second others ks))
snake_from-words prev (c ∷ t) ws l (h, hs) ks =
    snake_from-lower prev c (t ++ capitals ws) h ∙ ap (λ r. c ∷ r) (snake_from-words c t ws h hs ks)

-- the parts between the underscores are the words
split_parts-words :
    (t : Text) (ws : List Word)
    → IsLower t
    → All IsWord ws
    → split_parts b'_' (t ++ underscored ws) ≡ (t, map lower ws)
unfolding split_parts split_cons
split_parts-words [] [] h k = refl
split_parts-words [] (w ∷ ws) h (k, ks) =
    ap (λ p. ([], p.0 ∷ p.1)) (split_parts-words (lower w) ws k.lowered ks)
split_parts-words (c ∷ t) ws (h, hs) ks =
    rw (lower_no_underscore c h) (ap (λ p. split_cons c p) (split_parts-words t ws hs ks))

camel_rest-words : (ws : List Word) → All IsWord ws → camel_rest (map lower ws) ≡ capitals ws
unfolding camel_rest camel_part
camel_rest-words [] k = refl
camel_rest-words (w ∷ ws) (k, ks) =
    rw (k.no_acronym) (ap (λ r. capital w ++ r) (camel_rest-words ws ks))

-- For a name of words, each of at least two letters and none the acronym SLA: the snake-case form of
-- the words with a capital each, as the fields of the configuration are called, is the words in lower
-- case with an underscore between them; the camel-case form of that is the words with a capital each
-- but the first; and the snake-case form of this is again the words with underscores.
pub to_camel_case-to_snake_case :
    (w : Word) (ws : List Word)
    → IsWord w
    → All IsWord ws
    → (to_snake_case (capitals (w ∷ ws)) ≡ lower w ++ underscored ws)
      × (to_camel_case (lower w ++ underscored ws) ≡ lower w ++ capitals ws)
      × (to_snake_case (lower w ++ capitals ws) ≡ lower w ++ underscored ws)
unfolding to_snake_case to_camel_case camel_parts camel_part split
to_camel_case-to_snake_case w ws k ks =
    let (first, (second, others)) = k.lowered in
    let from : (prev : ℕ)
        → snake_from prev (w.second ∷ w.others ++ capitals ws)
          ≡ w.second ∷ w.others ++ underscored ws =
      λ prev.
        snake_from-lower prev w.second (w.others ++ capitals ws) second
        ∙ ap (λ r. w.second ∷ r) (snake_from-words w.second w.others ws second others ks) in
    (
      rw (lower_upper w.first first) (ap (λ r. w.first ∷ r) (from (to_upper w.first))),
      rw (split_parts-words (lower w) ws k.lowered ks, k.no_acronym)
          (ap (λ r. lower w ++ r) (camel_rest-words ws ks)),
      rw (lower_same w.first first) (ap (λ r. w.first ∷ r) (from w.first)),
    )
