-- ===== src/Migration/Tests.antt =====
-- A migration of a table with an old registrar, and configurations of three versions.
use fabric_ca_gm.Prelude.{ℕ, String, ◌≡◌, refl, true, none, some, List, [], ◌∷◌}
use fabric_ca_gm.Text.{split}
use fabric_ca_gm.Attr
use fabric_ca_gm.Result.{ok, err, plain}
use fabric_ca_gm.World.{UserRecord, World, statement, query}
use fabric_ca_gm.Registry.{
  get_attribute, get_attributes, update_rows, update_users, expect_one, set_level,
}
use fabric_ca_gm.Identities.{set_attribute, get_new_attributes}
use fabric_ca_gm.Version.{
  digits, atoi, strs, val, cmp_from, cmp_version, all_levels, find_levels, get_levels,
}
use fabric_ca_gm.Samples.{attribute, admin, peer}
use fabric_ca_gm.Migration.{
  Property, Store, on_world, change_properties, set_property, update_db_level,
  get_user_less_than_level, modify_attributes, lacks_attributes, migrate_user_to_level1,
  migrate_users, perform_migration, check_config_levels,
}
use fabric_ca_gm.Migration.LevelChecks.{check_db_levels, check_db_levels_passes}
use fabric_ca_gm.Migration.Upgraded.{Upgraded, perform_migration-Upgraded}

abbrev old_registrar : UserRecord
old_registrar = record peer {
  name = "registrar";
  attributes = attribute Attr.roles "peer" ∷ [];
  level = 0;
}

abbrev old : World
old = record {
  db = record { users = old_registrar ∷ admin ∷ []; affiliations = []; certificates = [] };
  faults = [];
  now = 0;
  enrollment_id = "";
  enrollment_cert = record { serial = ""; aki = "" };
  caller = none;
  caller_roles = [];
}

unfoldable new : World
new = record old {
  db = record {
    users =
        record old_registrar {
          attributes = attribute Attr.roles "peer" ∷ attribute Attr.registrar_attr "*" ∷ [];
          level = 1;
        }
        ∷ admin
        ∷ [];
    affiliations = [];
    certificates = [];
  };
}

-- A database that writes every number as "1"
abbrev one : ℕ → String
one n = "1"

abbrev before : Store
before = record {
  world = old;
  properties = ("identity.level", "0") ∷ ("certificate.level", "0") ∷ ("other", "0") ∷ [];
}

unfoldable after : Store
after = record {
  world = new;
  properties = ("identity.level", "1") ∷ ("certificate.level", "1") ∷ ("other", "0") ∷ [];
}

migration : perform_migration one "1.1.0" before ≡ (ok tt, after)
unfolding perform_migration update_db_level set_property change_properties on_world migrate_users
    migrate_user_to_level1 lacks_attributes modify_attributes get_user_less_than_level statement
    query update_users update_rows expect_one set_level get_attribute get_attributes set_attribute
    get_new_attributes Attr.exists new after get_levels find_levels cmp_version cmp_from strs val
    atoi digits split
migration = refl

perform_migration-Upgraded_example : Upgraded one "1.1.0" before after
perform_migration-Upgraded_example = perform_migration-Upgraded one "1.1.0" before after migration

as_new : check_config_levels "1.1.0" "1.1.0" ≡ ok (some (all_levels 1))
unfolding check_config_levels get_levels find_levels cmp_version cmp_from strs val atoi digits split
as_new = refl

older : check_config_levels "1.1.0" "1.0" ≡ ok (some (all_levels 0))
unfolding check_config_levels get_levels find_levels cmp_version cmp_from strs val atoi digits split
older = refl

newer : check_config_levels "1.1.0" "1.2" ≡ err plain
unfolding check_config_levels get_levels find_levels cmp_version cmp_from strs val atoi digits split
newer = refl

abbrev from_future : List Property
from_future = ("identity.level", "9") ∷ ("affiliation.level", "1") ∷ ("certificate.level", "1") ∷ []

server_levels : get_levels "1.1.0" ≡ ok (some (all_levels 1))
unfolding get_levels find_levels cmp_version cmp_from strs val atoi digits split
server_levels = refl

check_db_levels_passes_example : check_db_levels "1.1.0" true from_future ≡ ok tt
check_db_levels_passes_example =
    check_db_levels_passes "1.1.0" (all_levels 1) from_future server_levels
