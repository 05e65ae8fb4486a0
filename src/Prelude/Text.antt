-- ===== src/Prelude/Text.antt =====
-- Go strings that the program takes apart, as their bytes, and what it uses of the packages
-- strings, strconv, fmt and unicode on them. The texts are ASCII.
use Prim.Native.Nat.{ℕ, zero, suc, ◌+◌, ◌-◌, ◌*◌, ◌/◌, ◌%◌, ◌^◌, ◌<◌}
use Prim.Native.Char.{code}
use Prim.Native.String.{String}
use mathlib.Core.Path.{◌≡◌, refl}
use mathlib.Core.Bool.{Bool, true, false, ◌&&◌, ◌||◌}
use mathlib.Core.Option.{Option, none, some}
use mathlib.Core.List.{List, [], ◌∷◌, reverse, map}
use native.Mathlib.Omega.{arith}
use etcd_cloud_benchmarking.Prelude.Tests.{ltb, leb, ◌==◌, if◌then◌else◌}
use etcd_cloud_benchmarking.Prelude.Int.{ℤ, pos, negsuc}

abbrev pub Text : Type 0
Text = List ℕ

abbrev pub codes : String → Text
codes String.[] = []
codes (String.◌∷◌ c s) = code c ∷ codes s

unfoldable pub text_eq : Text → Text → Bool
text_eq [] [] = true
text_eq [] (y ∷ ys) = false
text_eq (x ∷ xs) [] = false
text_eq (x ∷ xs) (y ∷ ys) = x == y && text_eq xs ys

pub text_eq_refl : (s : Text) → text_eq s s ≡ true
unfolding text_eq
text_eq_refl [] = refl
text_eq_refl (x ∷ xs) = ground (arith, text_eq_refl xs)

pub eq_of_text_eq : (s t : Text) → text_eq s t ≡ true → s ≡ t
unfolding text_eq
eq_of_text_eq [] [] h = refl
eq_of_text_eq [] (y ∷ ys) h = cc
eq_of_text_eq (x ∷ xs) [] h = cc
eq_of_text_eq (x ∷ xs) (y ∷ ys) h = ground (arith, eq_of_text_eq xs ys)

-- strings.Split by a separator of one byte
unfoldable pub split_cons : ℕ → Text × List Text → Text × List Text
split_cons c (w, ws) = (c ∷ w, ws)

unfoldable pub split_parts : ℕ → Text → Text × List Text
unfolding split_cons
split_parts sep [] = ([], [])
split_parts sep (c ∷ s) =
    let (w, ws) = split_parts sep s in if c == sep then ([], w ∷ ws) else split_cons c (w, ws)

unfoldable pub split : ℕ → Text → List Text
unfolding split_parts
split sep s = let (w, ws) = split_parts sep s in w ∷ ws

-- strings.Trim with a cut set of one byte
unfoldable pub trim_left : ℕ → Text → Text
trim_left cut [] = []
trim_left cut (c ∷ s) = if c == cut then trim_left cut s else c ∷ s

unfoldable pub trim : ℕ → Text → Text
unfolding trim_left
trim cut s = reverse (trim_left cut (reverse (trim_left cut s)))

-- strings.TrimSpace
unfoldable pub is_space : ℕ → Bool
is_space c = leb 9 c && leb c 13 || c == 32

drop_space : Text → Text
unfolding is_space
drop_space [] = []
drop_space (c ∷ s) = if is_space c then drop_space s else c ∷ s

unfoldable pub trim_space : Text → Text
unfolding drop_space
trim_space s = reverse (drop_space (reverse (drop_space s)))

-- unicode.IsUpper, IsLower, ToLower and ToUpper on ASCII
unfoldable pub is_upper : ℕ → Bool
is_upper c = leb b'A' c && leb c b'Z'

unfoldable pub is_lower : ℕ → Bool
is_lower c = leb b'a' c && leb c b'z'

unfoldable pub to_lower : ℕ → ℕ
unfolding is_upper
to_lower c = if is_upper c then c + 32 else c

unfoldable pub to_upper : ℕ → ℕ
unfolding is_lower
to_upper c = if is_lower c then c - 32 else c

-- strings.EqualFold on ASCII
unfoldable pub equal_fold : Text → Text → Bool
equal_fold s t = text_eq (map to_lower s) (map to_lower t)

-- strconv.Itoa of a number that is not negative; `k` bounds the number of digits
unfoldable pub digits_of : ℕ → ℕ → Text → Text
digits_of zero n acc = acc
digits_of (suc k) n acc =
    let d = 48 + n % 10 in
    let rest = digits_of k (n / 10) (d ∷ acc) in if n / 10 == 0 then d ∷ acc else rest

unfoldable pub itoa_ℕ : ℕ → Text
unfolding digits_of
itoa_ℕ n = digits_of (suc n) n []

-- strconv.Itoa, strconv.FormatInt in base 10
unfoldable pub itoa : ℤ → Text
unfolding itoa_ℕ
itoa (pos n) = itoa_ℕ n
itoa (negsuc n) = b'-' ∷ itoa_ℕ (suc n)

-- fmt.Sprintf("%03d", n): zeros up to three bytes
unfoldable pub zero_pad : Text → Text
zero_pad [] = b'0' ∷ b'0' ∷ b'0' ∷ []
zero_pad (a ∷ []) = b'0' ∷ b'0' ∷ a ∷ []
zero_pad (a ∷ b ∷ []) = b'0' ∷ a ∷ b ∷ []
zero_pad s = s

unfoldable pub sprintf_03d : ℕ → Text
unfolding itoa_ℕ zero_pad
sprintf_03d n = zero_pad (itoa_ℕ n)

-- fmt.Sscanf(s, "%d", &v): blanks, a sign, digits up to the first other byte; `none` is the error,
-- of no digit or of a number outside int64, which stores nothing
is_digit : ℕ → Bool
is_digit c = leb b'0' c && leb c b'9'

is_blank : ℕ → Bool
is_blank c = c == 32 || c == 9 || c == 11 || c == 12 || c == 13

scan_digits : ℕ → Text → ℕ
unfolding is_digit
scan_digits n [] = n
scan_digits n (c ∷ s) =
    let rest = scan_digits (n * 10 + (c - 48)) s in if is_digit c then rest else n

scan_number : Text → Option ℕ
unfolding is_digit scan_digits
scan_number [] = none
scan_number (c ∷ s) = if is_digit c then some (scan_digits 0 (c ∷ s)) else none

scan_positive : Option ℕ → Option ℤ
scan_positive none = none
scan_positive (some n) = if ltb n (2 ^ 63) then some (pos n) else none

scan_negative : Option ℕ → Option ℤ
scan_negative none = none
scan_negative (some zero) = some (pos 0)
scan_negative (some (suc n)) = if ltb n (2 ^ 63) then some (negsuc n) else none

unfoldable pub sscanf_d : Text → Option ℤ
unfolding is_blank scan_number scan_positive scan_negative
sscanf_d [] = none
sscanf_d (c ∷ s) =
    let rest = sscanf_d s in
    if is_blank c
    then rest
    else if c == b'-'
    then scan_negative (scan_number s)
    else if c == b'+'
    then scan_positive (scan_number s)
    else scan_positive (scan_number (c ∷ s))

-- a test of all numbers under a bound, and what passing it means for each of them
unfoldable pub holds_under : (ℕ → Bool) → ℕ → Bool
holds_under test zero = true
holds_under test (suc k) = holds_under test k && test k

pub holds_under-lt : (test : ℕ → Bool) (k i : ℕ) → i < k → holds_under test k ≡ true → test i ≡ true
unfolding holds_under
holds_under-lt test zero i lt passed = elim lt [ ]
holds_under-lt test (suc k) i lt passed = ground (arith, holds_under-lt test k i)

-- strings.HasPrefix
unfoldable pub has_prefix : Text → Text → Bool
has_prefix [] s = true
has_prefix (p ∷ ps) [] = false
has_prefix (p ∷ ps) (c ∷ s) = p == c && has_prefix ps s

-- strconv.Atoi: a sign and digits only, of a number in int64
all_digits : Text → Bool
unfolding is_digit
all_digits [] = true
all_digits (c ∷ s) = is_digit c && all_digits s

digits_only : Text → Option ℕ
unfolding all_digits scan_number
digits_only s = if all_digits s then scan_number s else none

unfoldable pub atoi : Text → Option ℤ
unfolding digits_only scan_positive scan_negative
atoi [] = none
atoi (c ∷ s) =
    if c == b'-'
    then scan_negative (digits_only s)
    else if c == b'+'
    then scan_positive (digits_only s)
    else scan_positive (digits_only (c ∷ s))
