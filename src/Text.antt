-- ===== src/Text.antt =====
-- The functions of Go's `strings` package that the server calls, and the helpers of util/util.go on
-- comma-separated lists. A Go string is a native `String`: its characters stand for the bytes.
-- `to_lower` treats the letters A to Z; other characters stay as they are.
pub mod Split
pub mod Under
pub mod Prefixes
pub mod Joined
use Prim.Native.Char.{Char, code}
use Prim.Native.String
use Prim.Native.String.{char_at}
use fabric_ca_gm.Prelude.{
  ℕ, ◌-◌, String, Bool, true, false, not, ◌&&◌, ◌||◌, List, [], ◌∷◌, ◌++◌, map, leb, eqb, ◌==◌,
  if◌then◌else◌, any, all,
}

-- The first part of a split grows by a character.
grow : Char → List String → List String
grow c [] = String.◌∷◌ c String.[] ∷ []
grow c (p ∷ ps) = String.◌∷◌ c p ∷ ps

-- strings.Split(s, sep) for a separator of one character
unfoldable pub split : ℕ → String → List String
unfolding grow
split sep String.[] = String.[] ∷ []
split sep (String.◌∷◌ c s) =
    let parts = split sep s in if eqb (code c) sep then String.[] ∷ parts else grow c parts

-- strings.Join(parts, sep)
unfoldable pub join : String → List String → String
join sep [] = String.[]
join sep (p ∷ []) = p
join sep (p ∷ q ∷ ps) = String.◌++◌ p (String.◌++◌ sep (join sep (q ∷ ps)))

-- strings.HasPrefix(s, p)
unfoldable pub has_prefix : String → String → Bool
has_prefix s String.[] = true
has_prefix String.[] (String.◌∷◌ c p) = false
has_prefix (String.◌∷◌ d s) (String.◌∷◌ c p) = eqb (code d) (code c) && has_prefix s p

-- strings.HasSuffix(s, t)
unfoldable pub has_suffix : String → String → Bool
has_suffix String.[] t = t == ""
has_suffix (String.◌∷◌ c s) t = String.◌∷◌ c s == t || has_suffix s t

-- strings.TrimLeft(s, k) and strings.TrimRight(s, k) for a cutset of one character
unfoldable pub trim_left : ℕ → String → String
trim_left k String.[] = String.[]
trim_left k (String.◌∷◌ c s) =
    let rest = trim_left k s in if eqb (code c) k then rest else String.◌∷◌ c s

unfoldable pub trim_right : ℕ → String → String
trim_right k String.[] = String.[]
trim_right k (String.◌∷◌ c s) =
    let rest = trim_right k s in
    if rest == "" && eqb (code c) k then String.[] else String.◌∷◌ c rest

-- strings.Replace(s, " ", "", -1) for the character k
unfoldable pub remove_all : ℕ → String → String
remove_all k String.[] = String.[]
remove_all k (String.◌∷◌ c s) =
    let rest = remove_all k s in if eqb (code c) k then rest else String.◌∷◌ c rest

-- What is left of `s` behind as many characters as `p` has.
unfoldable pub behind : String → String → String
behind s String.[] = s
behind String.[] (String.◌∷◌ c p) = String.[]
behind (String.◌∷◌ d s) (String.◌∷◌ c p) = behind s p

-- strings.Replace(s, old, new, 1)
unfoldable pub replace_first : String → String → String → String
unfolding has_prefix behind
replace_first String.[] old new = if old == "" then new else String.[]
replace_first (String.◌∷◌ c s) old new =
    let rest = replace_first s old new in
    if has_prefix (String.◌∷◌ c s) old
    then String.◌++◌ new (behind (String.◌∷◌ c s) old)
    else String.◌∷◌ c rest

lower_char : Char → Char
lower_char c =
    if leb b'A' (code c) && leb (code c) b'Z'
    then char_at "abcdefghijklmnopqrstuvwxyz" (code c - b'A')
    else c

-- strings.ToLower(s)
unfoldable pub to_lower : String → String
unfolding lower_char
to_lower String.[] = String.[]
to_lower (String.◌∷◌ c s) = String.◌∷◌ (lower_char c) (to_lower s)

-- util.StrContained
unfoldable pub str_contained : String → List String → Bool
str_contained str strs = any (λ s. to_lower s == to_lower str) strs

-- util.IsSubsetOf: true where the code returns no error
unfoldable pub is_subset_of : String → String → Bool
is_subset_of small big = all (λ s. s == "" || str_contained s (split b',' big)) (split b',' small)

-- util.GetSliceFromList(split, ",")
unfoldable pub get_slice_from_list : String → List String
get_slice_from_list list = split b',' (remove_all b' ' list)
