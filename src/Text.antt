-- ===== src/Text.antt =====
-- Go strings and the functions of the packages `strings` and `strconv` that the program calls.
-- A text is the list of its code points. Letter case is folded for the ASCII letters, and other
-- code points are left as they are, as `strings.ToLower` and `strings.EqualFold` do on ASCII.
pub mod Decimal
pub mod Laws
use Prim.Native.Char.{code}
use zero_nime.Base.{
  ℕ, suc, ◌+◌, String, Bool, true, false, ◌&&◌, ◌||◌, Option, none, some, List, [], ◌∷◌, ◌++◌,
  reverse, leb, nat_eq, if◌then◌else◌,
}

abbrev pub Text : Type 0
Text = List ℕ

-- A string literal.
abbrev pub text : String → Text
text String.[] = []
text (String.◌∷◌ c s) = code c ∷ text s

infix 50 ◌==◌
unfoldable pub ◌==◌ : Text → Text → Bool
[] == [] = true
(a ∷ s) == (b ∷ t) = nat_eq a b && s == t
_ == _ = false

-- `unicode.IsSpace`
unfoldable pub is_space : ℕ → Bool
is_space c =
    (leb 9 c && leb c 13)
    || nat_eq c 32
    || nat_eq c 0x85
    || nat_eq c 0xa0
    || nat_eq c 0x1680
    || (leb 0x2000 c && leb c 0x200a)
    || nat_eq c 0x2028
    || nat_eq c 0x2029
    || nat_eq c 0x202f
    || nat_eq c 0x205f
    || nat_eq c 0x3000

unfoldable pub drop_while : (ℕ → Bool) → Text → Text
drop_while p [] = []
drop_while p (c ∷ s) = if p c then drop_while p s else c ∷ s

-- both ends cut
unfoldable pub trim_by : (ℕ → Bool) → Text → Text
unfolding drop_while
trim_by p s = reverse (drop_while p (reverse (drop_while p s)))

-- strings.TrimSpace
unfoldable pub trim_space : Text → Text
unfolding trim_by is_space
trim_space s = trim_by is_space s

-- what trimming leaves of a blank text
unfoldable pub is_blank : Text → Bool
unfolding trim_space ◌==◌
is_blank s = trim_space s == []

unfoldable pub lower : ℕ → ℕ
lower c = if leb 65 c && leb c 90 then c + 32 else c

-- strings.ToLower
unfoldable pub to_lower : Text → Text
unfolding lower
to_lower [] = []
to_lower (c ∷ s) = lower c ∷ to_lower s

-- strings.EqualFold
unfoldable pub equal_fold : Text → Text → Bool
unfolding to_lower ◌==◌
equal_fold s t = to_lower s == to_lower t

-- strings.HasPrefix
unfoldable pub has_prefix : Text → Text → Bool
has_prefix s [] = true
has_prefix [] (b ∷ p) = false
has_prefix (a ∷ s) (b ∷ p) = nat_eq a b && has_prefix s p

-- strings.HasSuffix
unfoldable pub has_suffix : Text → Text → Bool
unfolding has_prefix
has_suffix s p = has_prefix (reverse s) (reverse p)

abbrev behind : Text → Text → Text
behind s [] = s
behind [] (b ∷ p) = []
behind (a ∷ s) (b ∷ p) = behind s p

-- strings.TrimPrefix
unfoldable pub trim_prefix : Text → Text → Text
unfolding has_prefix
trim_prefix s p = if has_prefix s p then behind s p else s

-- strings.Contains
unfoldable pub contains : Text → Text → Bool
unfolding has_prefix
contains [] p = has_prefix [] p
contains (c ∷ s) p = has_prefix (c ∷ s) p || contains s p

-- strings.SplitN(s, sep, 2) for a separator of one character: both parts, or `none` where the
-- separator does not occur and the result has one element.
unfoldable pub split_2 : ℕ → Text → Option (Text × Text)
split_2 sep [] = none
split_2 sep (c ∷ s) =
    if nat_eq c sep
    then some ([], s)
    else elim (split_2 sep s) [ none ↦ none | some (a, b) ↦ some (c ∷ a, b) ]

-- the first element of strings.SplitN(s, sep, 2)
unfoldable pub first_part : ℕ → Text → Text
unfolding split_2
first_part sep s = elim (split_2 sep s) [ none ↦ s | some (a, b) ↦ a ]

-- strings.Split(s, sep) for a separator of one character
abbrev pub glue : ℕ → List Text → List Text
glue c [] = (c ∷ []) ∷ []
glue c (p ∷ ps) = (c ∷ p) ∷ ps

unfoldable pub split : ℕ → Text → List Text
split sep [] = [] ∷ []
split sep (c ∷ s) = let rest = split sep s in if nat_eq c sep then [] ∷ rest else glue c rest

-- strings.Trim(s, cutset) and strings.TrimRight(s, cutset) for a cutset of one character
unfoldable pub trim : ℕ → Text → Text
unfolding trim_by
trim k s = trim_by (λ c. nat_eq c k) s

unfoldable pub trim_right : ℕ → Text → Text
unfolding drop_while
trim_right k s = reverse (drop_while (λ c. nat_eq c k) (reverse s))

-- strings.Join(parts, sep)
unfoldable pub join : List Text → Text → Text
join [] sep = []
join (p ∷ []) sep = p
join (p ∷ q ∷ ps) sep = p ++ (sep ++ join (q ∷ ps) sep)

-- the map key sets `map[string]struct{}` of the program, as lists
unfoldable pub member : Text → List Text → Bool
unfolding ◌==◌
member k [] = false
member k (j ∷ js) = j == k || member k js

-- the number of bytes of a text in UTF-8, which `len` counts
abbrev width : ℕ → ℕ
width c = if leb c 0x7f then 1 else if leb c 0x7ff then 2 else if leb c 0xffff then 3 else 4

unfoldable pub byte_count : Text → ℕ
byte_count [] = 0
byte_count (c ∷ s) = width c + byte_count s
