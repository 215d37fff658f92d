-- ===== src/Migration/LevelChecks.antt =====
-- lib/ca.go: checkDBLevels, with GetProperties of lib/dbaccessor.go. The properties table is an argument, and
-- whether the database answers.
use fabric_ca_gm.Prelude.{
  String, ◌≡◌, refl, subst, inl, inr, Bool, true, false, ◌||◌, some, List, [], ◌∷◌, any, select,
  ◌==◌, if◌then◌else◌, arith, eq_iff, Bool-cases,
}
use fabric_ca_gm.Prelude.Int.{ℤ, pos, ltℤ}
use fabric_ca_gm.Result.{Result, ok, err, plain, fatal, panicked, from_option, ◌>>=◌}
use fabric_ca_gm.World.{get_error}
use fabric_ca_gm.Migration.{Property}
use fabric_ca_gm.Version.{digits, atoi, get_levels, Levels}

-- GetProperties
unfoldable pub get_properties : List String → Bool → List Property → Result (List Property)
get_properties names answered table =
    if answered
    then ok (select (λ row. any (λ name. name == row.0) names) table)
    else err (get_error plain)

-- properties[name] in Go: the last row of a name counts, and a name without a row gives the empty text.
unfoldable pub get_value : List Property → String → String
get_value [] name = ""
get_value ((n, value) ∷ rows) name =
    let rest = get_value rows name in
    if any (λ row. row.0 == name) rows then rest else if n == name then value else ""

-- getIntLevel
unfoldable pub get_int_level : List Property → String → Result ℤ
get_int_level properties version =
    let str_version = get_value properties version in
    from_option panicked (atoi (if str_version == "" then "0" else str_version))

-- The comparison at the end of checkDBLevels
unfoldable pub is_newer : ℤ → ℤ → ℤ → Levels → Bool
is_newer id_ver aff_ver cert_ver sl =
    ltℤ (pos sl.identity) id_ver
    || (ltℤ (pos sl.affiliation) aff_ver || ltℤ (pos sl.certificate) cert_ver)

-- checkDBLevels, for the server's version. ErrDBLevel is 47.
unfoldable pub check_db_levels : String → Bool → List Property → Result (Unit {0})
check_db_levels server_version answered table = do
  levels ←
      get_properties ("identity.level" ∷ "affiliation.level" ∷ "certificate.level" ∷ []) answered
        table
  found ← get_levels server_version
  sl ← from_option panicked found
  id_ver ← get_int_level levels "identity"
  aff_ver ← get_int_level levels "affiliation"
  cert_ver ← get_int_level levels "certificate"
  if is_newer id_ver aff_ver cert_ver sl then err (fatal 47) else ok tt

module _ (names : List String) (name : String) (other : any (λ n. n == name) names ≡ false) where
  abbrev asked : Property → Bool
  asked row = any (λ n. n == row.0) names

  asked-other : (row : Property) → asked row ≡ true → (row.0 == name) ≡ false
  asked-other row yes' = elim (Bool-cases (row.0 == name)) [
    | inl same ↦
        absurd (
          cc (subst (λ n. any (λ m. m == n) names ≡ true) ((eq_iff row.0 name).0 same) yes', other))
    | inr apart ↦ apart
  ]

  any-asked : (table : List Property) → any (λ row. row.0 == name) (select asked table) ≡ false
  any-asked [] = refl
  any-asked (row ∷ table) = elim (Bool-cases (asked row)) [
    | inl yes' ↦ ground (arith, yes', asked-other row yes', any-asked table)
    | inr no' ↦ ground (arith, no', any-asked table)
  ]

  get_value-asked : (table : List Property) → get_value (select asked table) name ≡ ""
  unfolding get_value
  get_value-asked [] = refl
  get_value-asked (row ∷ table) = elim (Bool-cases (asked row)) [
    | inl yes' ↦ ground (arith, yes', asked-other row yes', any-asked table, get_value-asked table)
    | inr no' ↦ ground (arith, no', get_value-asked table)
  ]

  -- A level under a name that was not asked for reads as 0.
  get_int_level-asked :
      (table : List Property) → get_int_level (select asked table) name ≡ ok (pos 0)
  unfolding get_int_level atoi digits
  get_int_level-asked table = rw (get_value-asked table) refl

zero_never_newer : (sl : Levels) → is_newer (pos 0) (pos 0) (pos 0) sl ≡ false
unfolding is_newer
zero_never_newer sl = ground (arith)

-- Where the server's version has levels and the database answers, the check of the database's levels always
-- passes, whatever levels the properties table holds: none is ever found newer than the server's.
pub check_db_levels_passes :
    (server_version : String) (sl : Levels) (table : List Property)
    → get_levels server_version ≡ ok (some sl)
    → check_db_levels server_version true table ≡ ok tt
unfolding check_db_levels get_properties
check_db_levels_passes server_version sl table known =
    rw
      (
        known,
        get_int_level-asked ("identity.level" ∷ "affiliation.level" ∷ "certificate.level" ∷ [])
            "identity" refl table,
        get_int_level-asked ("identity.level" ∷ "affiliation.level" ∷ "certificate.level" ∷ [])
            "affiliation" refl table,
        get_int_level-asked ("identity.level" ∷ "affiliation.level" ∷ "certificate.level" ∷ [])
            "certificate" refl table,
        zero_never_newer sl,
      )
      refl
