-- ===== src/Migration.antt =====
-- lib/ca.go: the migration of identities to level 1 and the check of the configuration's version, with
-- UpdateDBLevel of lib/dbutil/dbutil.go. A level that is NULL is not modelled. The text that the database makes of
-- a number is a parameter.
pub mod Rows
pub mod Migrated
pub mod Upgraded
pub mod LevelChecks
mod Tests
use fabric_ca_gm.Prelude.{
  ℕ, String, Bool, true, false, Option, none, some, List, [], ◌∷◌, ltb, eqb, ◌==◌, if◌then◌else◌,
  select,
}
use fabric_ca_gm.Prelude.Int.{negsuc, eqℤ}
use fabric_ca_gm.Result.{Err, Result, ok, err, plain, panicked, replaced}
use fabric_ca_gm.Result
use fabric_ca_gm.Attr.{Attribute}
use fabric_ca_gm.Exec.{Exec, pure, lift, failing_as, ◌>>=◌, ◌>>◌}
use fabric_ca_gm.World.{UserRecord, World, M, query}
use fabric_ca_gm.Registry.{
  get_attribute, get_attributes, named, update_rows, update_users, expect_one, set_level,
}
use fabric_ca_gm.Identities.{get_new_attributes}
use fabric_ca_gm.Version.{Levels, cmp_version, get_levels}

-- metadata.IdentityLevel
abbrev pub identity_level : ℕ
identity_level = 1

abbrev pub is_below : ℕ → UserRecord → Bool
is_below level u = ltb u.level level

-- GetUserLessThanLevel
unfoldable pub get_user_less_than_level : ℕ → M (List UserRecord)
get_user_less_than_level level =
    if eqb level 0
    then pure []
    else failing_as (replaced plain) (query (λ db. select (is_below level) db.users))

-- DBUser.ModifyAttributes
unfoldable pub modify_attributes : UserRecord → List Attribute → M (Unit {0})
modify_attributes u new = do
  n ←
      update_users (named u.name)
        (λ row. record row { attributes = get_new_attributes (get_attributes u.attributes) new })
  expect_one n

abbrev pub all_attributes : List Attribute
all_attributes = record { name = "hf.Registrar.Attributes"; value = "*"; e_cert = false } ∷ []

abbrev has : UserRecord → String → Bool
has u name = elim (get_attribute u.attributes name) [ none ↦ false | some a ↦ true ]

-- A registrar without hf.Registrar.Attributes
unfoldable pub lacks_attributes : UserRecord → Bool
lacks_attributes u =
    if has u "hf.Registrar.Roles"
    then (if has u "hf.Registrar.Attributes" then false else true)
    else false

-- migrateUserToLevel1
unfoldable pub migrate_user_to_level1 : UserRecord → M (Unit {0})
migrate_user_to_level1 user = do
  failing_as (replaced plain)
      (if lacks_attributes user then modify_attributes user all_attributes else pure tt)
  failing_as (replaced plain) (set_level user 1)

-- The loop of performMigration
unfoldable pub migrate_users : List UserRecord → M (Unit {0})
migrate_users [] = pure tt
migrate_users (user ∷ users) =
    (if ltb user.level 1 then migrate_user_to_level1 user else pure tt) >> migrate_users users

-- A row of the properties table: its name and its value
abbrev pub Property : Type 0
Property = String × String

-- The state of a migration: a request's, and the properties table, which no request touches
pub record Store : Type 0 where
  pub world : World
  pub properties : List Property

unfoldable pub on_world : {A : Type 0} → M A → Exec Store A
on_world m s = ((m s.world).0, record s { world = (m s.world).1 })

unfoldable pub change_properties : (List Property → List Property) → Exec Store (Unit {0})
change_properties f s = (ok tt, record s { properties = f s.properties })

-- UPDATE properties SET value = ? WHERE (property = name)
unfoldable pub set_property : String → String → Exec Store (Unit {0})
set_property name value =
    on_world (query (λ db. tt))
    >> change_properties (update_rows (λ row. row.0 == name) (λ row. (row.0, value)))

module _ (text_of : ℕ → String) where
  -- UpdateDBLevel
  unfoldable pub update_db_level : Levels → Exec Store (Unit {0})
  update_db_level levels = do
    set_property "identity.level" (text_of levels.identity)
    set_property "affiliation.level" (text_of levels.affiliation)
    set_property "certificate.level" (text_of levels.certificate)

  -- performMigration, for the server's version. UpdateDBLevel reads the levels from what may be nil.
  unfoldable pub perform_migration : String → Exec Store (Unit {0})
  perform_migration server_version = do
    users ← on_world (get_user_less_than_level identity_level)
    on_world (migrate_users users)
    found ← lift (get_levels server_version)
    sl ← lift (Result.from_option panicked found)
    failing_as (replaced plain) (update_db_level sl)

-- checkConfigLevels, for the server's version and the configuration's: the levels of the CA
unfoldable pub check_config_levels : String → String → Result (Option Levels)
check_config_levels server_version config_version =
    Result.◌>>=◌ (cmp_version config_version server_version)
      (λ cmp. if eqℤ cmp (negsuc 0) then err plain else get_levels config_version)
