-- ===== src/Control/Names.antt =====
-- control/cmd/config.go: field names of the configuration in snake case and in camel case. The range
-- over a string gives bytes, for ASCII.
pub mod Words
use etcd_cloud_benchmarking.Prelude.{
  ℕ, Bool, true, false, ◌&&◌, ◌||◌, List, [], ◌∷◌, ◌++◌, map, if◌then◌else◌,
}
use etcd_cloud_benchmarking.Prelude.Text.{
  Text, codes, text_eq, split, is_upper, is_lower, to_lower, to_upper,
}

next_is_lower : Text → Bool
next_is_lower [] = false
next_is_lower (c ∷ s) = is_lower c

-- the loop of `toSnakeCase` after the first character, with the character before
unfoldable pub snake_from : ℕ → Text → Text
unfolding next_is_lower
snake_from prev [] = []
snake_from prev (c ∷ s) =
    let rest = to_lower c ∷ snake_from c s in
    if is_upper c && (is_lower prev || next_is_lower s) then b'_' ∷ rest else rest

-- `toSnakeCase`
unfoldable pub to_snake_case : Text → Text
to_snake_case [] = []
to_snake_case (c ∷ s) = to_lower c ∷ snake_from c s

-- the known acronyms
unfoldable pub is_acronym : Text → Bool
is_acronym part = text_eq (map to_lower part) (codes "sla")

capitalise : Text → Text
capitalise [] = []
capitalise (c ∷ s) = to_upper c ∷ s

-- one part of `toCamelCase`; the first keeps its first letter
unfoldable pub camel_part : Bool → Text → Text
unfolding is_acronym capitalise
camel_part is_first [] = []
camel_part is_first (c ∷ s) =
    if is_acronym (c ∷ s)
    then map to_upper (c ∷ s)
    else if is_first
    then c ∷ s
    else capitalise (c ∷ s)

unfoldable pub camel_rest : List Text → Text
camel_rest [] = []
camel_rest (p ∷ ps) = camel_part false p ++ camel_rest ps

unfoldable pub camel_parts : List Text → Text
camel_parts [] = []
camel_parts (p ∷ ps) = camel_part true p ++ camel_rest ps

-- `toCamelCase`
unfoldable pub to_camel_case : Text → Text
to_camel_case s = camel_parts (split b'_' s)
