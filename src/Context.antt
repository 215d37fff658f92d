-- ===== src/Context.antt =====
-- lib/serverrequestcontext.go: who makes a request and what it may act on. The CA of a request is
-- resolved before these methods run, so `GetCA` is not a step of its own.
pub mod Authority
pub mod Caller
pub mod Checks
pub mod Managing
mod Tests
use Prim.Native.String
use fabric_ca_gm.Prelude.{
  ℕ, String, Bool, true, false, not, ◌&&◌, ◌||◌, Option, none, some, List, [], ◌∷◌, ◌==◌,
  if◌then◌else◌, is_none,
}
use fabric_ca_gm.Text.{split, join, has_prefix, str_contained}
use fabric_ca_gm.Result.{Err, Result, ok, err, plain, new_http_err, new_auth_err, replaced}
use fabric_ca_gm.Result
use fabric_ca_gm.Attr.{Attribute, roles, parse_bool, can_register_requested_attributes}
use fabric_ca_gm.Exec.{pure, fail, lift, gets, failing_as, ◌>>=◌, ◌>>◌, require}
use fabric_ca_gm.World.{UserRecord, World, M}
use fabric_ca_gm.Registry.{get_user, get_attribute, control_of, get_user_affiliation}

-- The error codes of lib/servererror.go that these methods use
abbrev pub err_getting_affiliation : ℕ
err_getting_affiliation = 16

abbrev pub err_caller_is_not_authenticated : ℕ
err_caller_is_not_authenticated = 33

abbrev pub err_reg_attr_auth : ℕ
err_reg_attr_auth = 42

abbrev pub err_missing_reg_attr : ℕ
err_missing_reg_attr = 43

abbrev pub err_caller_not_affiliated : ℕ
err_caller_not_affiliated = 44

abbrev pub err_getting_type : ℕ
err_getting_type = 45

abbrev pub err_getting_user : ℕ
err_getting_user = 49

abbrev pub err_missing_role : ℕ
err_missing_role = 59

store_caller : UserRecord → M UserRecord
store_caller user w = (ok user, record w { caller = some user })

-- The first call reads the registry, later ones return the same object.
caller_or_user : Option UserRecord → String → M UserRecord
caller_or_user (some caller) id = pure caller
caller_or_user none id = do
  require (not (id == "")) (new_auth_err err_caller_is_not_authenticated)
  user ← failing_as (replaced (new_auth_err err_getting_user)) (get_user id)
  store_caller user

unfoldable pub get_caller : M UserRecord
unfolding caller_or_user store_caller
get_caller w = caller_or_user w.caller w.enrollment_id w

-- The tests of containsAffiliation on the caller's path and the requested one
unfoldable pub affiliation_covers : String → String → Bool
affiliation_covers caller_path affiliation =
    if caller_path == ""
    then true
    else if affiliation == caller_path
    then true
    else has_prefix affiliation (String.◌++◌ caller_path ".")

-- containsAffiliation
unfoldable pub contains_affiliation : String → M Bool
contains_affiliation affiliation = do
  caller ← get_caller
  pure (affiliation_covers (get_user_affiliation caller) affiliation)

-- ContainsAffiliation
unfoldable pub require_affiliation : String → M (Unit {0})
require_affiliation affiliation = do
  valid ←
      failing_as (replaced (new_http_err 500 err_getting_affiliation))
        (contains_affiliation affiliation)
  require valid (new_auth_err err_caller_not_affiliated)

-- isRegistrar: the types that the caller may register, and whether it is a registrar
unfoldable pub is_registrar : M (String × Bool)
is_registrar = do
  caller ← get_caller
  roles_str ←
      lift (
        Result.from_option (new_auth_err err_reg_attr_auth) (get_attribute caller.attributes roles))
  pure (if roles_str.value == "" then ("", false) else (roles_str.value, true))

-- IsRegistrar
unfoldable pub require_registrar : M (Unit {0})
require_registrar = do found ← is_registrar; require found.1 (new_auth_err err_missing_reg_attr)

-- The types in hf.Registrar.Roles
unfoldable pub types_of : String → List String
types_of types_str = if types_str == "" then [] else split b',' types_str

-- canActOnType
unfoldable pub can_act_on_type : String → M Bool
can_act_on_type requested_type = do
  get_caller
  found ← is_registrar
  require found.1 (new_auth_err err_reg_attr_auth)
  pure (str_contained requested_type (types_of found.0))

-- CanActOnType
unfoldable pub require_type : String → M (Unit {0})
require_type user_type = do
  can_act ← failing_as (replaced (new_http_err 500 err_getting_type)) (can_act_on_type user_type)
  require can_act (new_auth_err err_caller_not_affiliated)

-- CanManageUser
unfoldable pub can_manage_user : UserRecord → M (Unit {0})
can_manage_user user = do require_affiliation (get_user_affiliation user); require_type user.type

-- GetUser
unfoldable pub get_managed_user : String → M UserRecord
get_managed_user user_name = do user ← get_user user_name; can_manage_user user; pure user

role_status : List (String × Bool) → String → Option Bool
role_status [] role = none
role_status ((r, b) ∷ statuses) role = if r == role then some b else role_status statuses role

cached_role : Option Bool → String → M Bool
cached_role (some status) role = pure status
cached_role none role = do
  caller ← get_caller
  attr ← lift (Result.from_option plain (get_attribute caller.attributes role))
  status ← lift (Result.from_option plain (parse_bool attr.value))
  λ w. (ok status, record w { caller_roles = (role, status) ∷ w.caller_roles })

-- hasRole
unfoldable pub has_role : String → M Bool
unfolding role_status cached_role
has_role role w = cached_role (role_status w.caller_roles role) role w

-- HasRole
unfoldable pub require_role : String → M (Unit {0})
require_role role = do held ← has_role role; require held (new_http_err 400 err_missing_role)
