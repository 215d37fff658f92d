-- ===== src/Register.antt =====
-- lib/serverregister.go: registering an identity, and getMaxEnrollments of lib/util.go. The secret that
-- util.RandomString makes is a parameter.
pub mod Limits
pub mod Success
pub mod Filled
pub mod Effect
pub mod Failure
mod Tests
use fabric_ca_gm.Prelude.{
  ℕ, String, Bool, true, false, not, ◌&&◌, ◌||◌, Option, none, some, List, [], ◌∷◌, ◌++◌, ◌==◌,
  if◌then◌else◌,
}
use fabric_ca_gm.Prelude.Int.{ℤ, pos, negsuc, minus_one, eqℤ, leℤ, ltℤ}
use fabric_ca_gm.Text.{str_contained}
use fabric_ca_gm.Result.{Err, Result, ok, err, plain, new_auth_err, reworded, replaced}
use fabric_ca_gm.Attr
use fabric_ca_gm.Attr.{Attribute, can_register_requested_attributes}
use fabric_ca_gm.Exec.{pure, fail, lift, failing_as, attempt, ◌>>=◌, ◌>>◌, require}
use fabric_ca_gm.World.{UserRecord, World, M}
use fabric_ca_gm.Registry.{Bcrypt, control_of, get_user, insert_user, get_user_affiliation}
use fabric_ca_gm.Affiliations.{get_affiliation}
use fabric_ca_gm.Context.{
  get_caller, is_registrar, types_of, require_affiliation, err_reg_attr_auth,
}

-- The parts of the CA's configuration that the handlers read
pub record Ca : Type 0 where
  pub max_enrollments : ℤ
  pub allow_remove_identities : Bool
  pub allow_remove_affiliations : Bool
  pub identity_level : ℕ
  pub affiliation_level : ℕ

-- api.RegistrationRequest
pub record RegistrationRequest : Type 0 where
  pub name : String
  pub type : String
  pub secret : String
  pub max_enrollments : ℤ
  pub affiliation : String
  pub attributes : List Attribute

-- getMaxEnrollments
unfoldable pub get_max_enrollments : ℤ → ℤ → Result ℤ
get_max_enrollments user_max ca_max =
    if ltℤ user_max minus_one
    then err plain
    else if eqℤ ca_max minus_one
    then (if eqℤ user_max (pos 0) then ok ca_max else ok user_max)
    else if eqℤ ca_max (pos 0)
    then err plain
    else if eqℤ user_max minus_one
    then err plain
    else if eqℤ user_max (pos 0)
    then ok ca_max
    else if ltℤ ca_max user_max
    then err plain
    else ok user_max

-- normalizeRegistrationRequest
unfoldable pub normalize_registration_request :
    RegistrationRequest → UserRecord → RegistrationRequest
normalize_registration_request req registrar = record req {
  affiliation =
      if req.affiliation == ""
      then get_user_affiliation registrar
      else if req.affiliation == "."
      then ""
      else req.affiliation;
  type = if req.type == "" then registrar.type else req.type;
}

-- addAttributeToRequest
abbrev pub add_attribute_to_request : String → String → List Attribute → List Attribute
add_attribute_to_request name value attributes =
    attributes ++ record { name = name; value = value; e_cert = true } ∷ []

-- isValidAffiliation, which is all of validateID
unfoldable pub is_valid_affiliation : String → M (Unit {0})
is_valid_affiliation affiliation =
    if affiliation == "" then pure tt else (get_affiliation affiliation >>= λ _. pure tt)

-- The default type of canRegister
unfoldable pub or_client : RegistrationRequest → RegistrationRequest
or_client req = if req.type == "" then record req { type = "client" } else req

-- canRegister, which returns the request since it may set its type
unfoldable pub can_register : UserRecord → RegistrationRequest → M RegistrationRequest
can_register registrar req = do
  found ← is_registrar
  require found.1 plain
  let req' = or_client req
  require (str_contained req'.type (types_of found.0)) plain
  failing_as reworded (require_affiliation req'.affiliation)
  is_valid_affiliation req'.affiliation
  failing_as (replaced (new_auth_err err_reg_attr_auth))
      (lift (can_register_requested_attributes req'.attributes none (control_of registrar)))
  pure req'

-- Any error of the lookup is taken to mean that the name is free.
abbrev pub require_unregistered : Result UserRecord → M (Unit {0})
require_unregistered (ok user) = fail plain
require_unregistered (err e) = pure tt

unfoldable pub secret_of : String → RegistrationRequest → String
secret_of random_string req = if req.secret == "" then random_string else req.secret

-- The row that registerUserID inserts
unfoldable pub new_identity : Ca → RegistrationRequest → String → ℤ → UserRecord
new_identity ca req secret max_enrollments = record {
  name = req.name;
  pass = secret;
  type = req.type;
  affiliation = req.affiliation;
  attributes = add_attribute_to_request Attr.affiliation req.affiliation (
      add_attribute_to_request Attr.type req.type
        (add_attribute_to_request Attr.enrollment_id req.name req.attributes));
  state = pos 0;
  max_enrollments = max_enrollments;
  level = ca.identity_level;
}

module _ (bcrypt : Bcrypt) (ca : Ca) (random_string : String) where
  -- registerUserID
  unfoldable pub register_user_id : RegistrationRequest → M String
  register_user_id req = do
    max_enrollments ← lift (get_max_enrollments req.max_enrollments ca.max_enrollments)
    found ← attempt (get_user req.name)
    require_unregistered found
    insert_user bcrypt (new_identity ca req (secret_of random_string req) max_enrollments)
    pure (secret_of random_string req)

  -- registerUser
  unfoldable pub register_user : RegistrationRequest → M String
  register_user req = do
    registrar ← get_caller
    req' ← can_register registrar (normalize_registration_request req registrar)
    register_user_id req'
