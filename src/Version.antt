-- ===== src/Version.antt =====
-- lib/metadata/version.go: the comparison of versions and the levels of a version.
pub mod Order
mod Tests
use Prim.Native.Char.{Char, code}
use Prim.Native.Nat.{◌*◌}
use Prim.Native.String
use fabric_ca_gm.Prelude.{
  ℕ, zero, suc, ◌+◌, ◌-◌, String, Bool, true, false, ◌&&◌, ◌||◌, Option, none, some, List, [], ◌∷◌,
  length, leb, eqb, ◌==◌, if◌then◌else◌,
}
use fabric_ca_gm.Prelude.Int.{ℤ, pos, negsuc, ltℤ}
use fabric_ca_gm.Text.{split}
use fabric_ca_gm.Result.{Err, Result, ok, err, plain, from_option, ◌>>=◌}

-- The value of a text of decimal digits, behind the value so far
unfoldable pub digits : ℕ → String → Option ℕ
digits n String.[] = some n
digits n (String.◌∷◌ c s) =
    let rest = digits (n * 10 + (code c - b'0')) s in
    if leb b'0' (code c) && leb (code c) b'9' then rest else none

abbrev below_limit : ℕ → Option ℕ → Option ℕ
below_limit limit none = none
below_limit limit (some n) = if leb n limit then some n else none

abbrev pub negative : ℕ → ℤ
negative zero = pos 0
negative (suc n) = negsuc n

abbrev signed_as : (ℕ → ℤ) → Option ℕ → Option ℤ
signed_as f none = none
signed_as f (some n) = some (f n)

-- The digits of a number of 64 bits with its sign
abbrev unsigned : ℕ → String → Option ℕ
unsigned limit s = if s == "" then none else below_limit limit (digits 0 s)

-- strconv.Atoi on 64 bits
unfoldable pub atoi : String → Option ℤ
atoi String.[] = none
atoi (String.◌∷◌ c s) =
    if eqb (code c) b'-'
    then signed_as negative (unsigned 9223372036854775808 s)
    else if eqb (code c) b'+'
    then signed_as pos (unsigned 9223372036854775807 s)
    else signed_as pos (unsigned 9223372036854775807 (String.◌∷◌ c s))

abbrev pub head_or : String → List String → String
head_or none' [] = none'
head_or none' (p ∷ ps) = p

-- strs
unfoldable pub strs : String → List String
strs version = split b'.' (head_or "" (split b'-' version))

-- max
abbrev pub max : ℕ → ℕ → ℕ
max a b = if leb a b then b else a

abbrev pub get_elem : List String → ℕ → Option String
get_elem [] i = none
get_elem (p ∷ ps) zero = some p
get_elem (p ∷ ps) (suc i) = get_elem ps i

abbrev pub part_value : Option String → Result ℤ
part_value none = ok (pos 0)
part_value (some str) = from_option plain (atoi str)

-- val: a part that is missing counts as 0.
unfoldable pub val : List String → ℕ → Result ℤ
val parts i = part_value (get_elem parts i)

abbrev pub order : ℤ → ℤ → Result ℤ → Result ℤ
order a b rest = if ltℤ a b then ok (pos 1) else if ltℤ b a then ok (negsuc 0) else rest

-- The loop of CmpVersion over the remaining places
unfoldable pub cmp_from : List String → List String → ℕ → ℕ → Result ℤ
cmp_from v1strs v2strs i zero = ok (pos 0)
cmp_from v1strs v2strs i (suc n) =
    let rest = cmp_from v1strs v2strs (suc i) n in
    do v1val ← val v1strs i; v2val ← val v2strs i; order v1val v2val rest

-- CmpVersion
unfoldable pub cmp_version : String → String → Result ℤ
cmp_version v1 v2 = cmp_from (strs v1) (strs v2) 0 (max (length (strs v1)) (length (strs v2)))

-- dbutil.Levels
pub record Levels : Type 0 where
  pub identity : ℕ
  pub affiliation : ℕ
  pub certificate : ℕ

abbrev pub all_levels : ℕ → Levels
all_levels n = record { identity = n; affiliation = n; certificate = n }

-- versionToLevelsMapping, the last entry first
abbrev pub version_to_levels_mapping : List (String × Levels)
version_to_levels_mapping = ("1.1.0", all_levels 1) ∷ ("0", all_levels 0) ∷ []

unfoldable pub find_levels : List (String × Levels) → String → Result (Option Levels)
find_levels [] version = ok none
find_levels ((v, levels) ∷ more) version =
    let rest = find_levels more version in
    do cmp ← cmp_version v version; if ltℤ cmp (pos 0) then rest else ok (some levels)

-- GetLevels
unfoldable pub get_levels : String → Result (Option Levels)
get_levels version = find_levels version_to_levels_mapping version
