-- ===== src/Version/Tests.antt =====
-- Versions compared.
use fabric_ca_gm.Prelude.{◌≡◌, refl, some}
use fabric_ca_gm.Prelude.Int.{pos}
use fabric_ca_gm.Text.{split}
use fabric_ca_gm.Result.{ok, err, plain}
use fabric_ca_gm.Version.{
  digits, atoi, strs, val, cmp_from, cmp_version, all_levels, find_levels, get_levels,
}
use fabric_ca_gm.Version.Order.{Outcome, cmp_version-Outcome}

cmp_version-Outcome_example :
    Outcome (strs "1.1.0") (strs "1.10-alpha") (cmp_version "1.1.0" "1.10-alpha")
cmp_version-Outcome_example = cmp_version-Outcome "1.1.0" "1.10-alpha"

newer : cmp_version "1.1.0" "1.10-alpha" ≡ ok (pos 1)
unfolding cmp_version cmp_from strs val atoi digits split
newer = refl

longer : cmp_version "1.1" "1.1.0.1" ≡ ok (pos 1)
unfolding cmp_version cmp_from strs val atoi digits split
longer = refl

no_version : cmp_version "1.x" "1.1" ≡ err plain
unfolding cmp_version cmp_from strs val atoi digits split
no_version = refl

levels : get_levels "1.1.0-alpha" ≡ ok (some (all_levels 1))
unfolding get_levels find_levels cmp_version cmp_from strs val atoi digits split
levels = refl

levels_before : get_levels "1.0.6" ≡ ok (some (all_levels 0))
unfolding get_levels find_levels cmp_version cmp_from strs val atoi digits split
levels_before = refl
