-- ===== src/Identities.antt =====
-- lib/serveridentities.go: the handlers for one identity. The name in the path, the query parameter and the
-- decoded body are arguments, with the error that reading them may give.
pub mod Merge
pub mod Removal
pub mod Permission
pub mod Modified
pub mod Changes
mod Tests
use fabric_ca_gm.Prelude.{
  ℕ, String, Bool, true, false, not, ◌&&◌, ◌||◌, Option, none, some, List, [], ◌∷◌, ◌++◌, ◌==◌,
  if◌then◌else◌,
}
use fabric_ca_gm.Prelude.Int.{ℤ, pos, negsuc, eqℤ}
use fabric_ca_gm.Result.{
  Err, Result, ok, err, plain, panicked, new_http_err, new_auth_err, replaced,
}
use fabric_ca_gm.Result
use fabric_ca_gm.Attr
use fabric_ca_gm.Attr.{Attribute, can_register_requested_attributes}
use fabric_ca_gm.Exec.{pure, fail, lift, failing_as, attempt, ◌>>=◌, ◌>>◌, require}
use fabric_ca_gm.World.{UserRecord, AffiliationRecord, World, M}
use fabric_ca_gm.Registry.{
  Bcrypt, control_of, get_attributes, get_user, update_user, delete_user, get_user_affiliation,
}
use fabric_ca_gm.Affiliations.{get_affiliation}
use fabric_ca_gm.Context.{
  get_caller, require_affiliation, require_type, can_manage_user, get_managed_user,
  err_reg_attr_auth,
}
use fabric_ca_gm.Register.{Ca, RegistrationRequest, add_attribute_to_request, register_user}

abbrev pub err_add_identity : ℕ
err_add_identity = 52

abbrev pub err_remove_identity : ℕ
err_remove_identity = 56

abbrev pub err_modifying_identity : ℕ
err_modifying_identity = 58

-- api.ModifyIdentityRequest
pub record ModifyIdentityRequest : Type 0 where
  pub type : String
  pub affiliation : String
  pub attributes : List Attribute
  pub max_enrollments : ℤ
  pub secret : String

-- api.IdentityResponse; api.GetIDResponse is the same without the secret.
pub record IdentityResponse : Type 0 where
  pub id : String
  pub type : String
  pub affiliation : String
  pub attributes : List Attribute
  pub max_enrollments : ℤ
  pub secret : String

-- The body of getNewAttributes' outer loop: the first attribute of the name is removed or overwritten, or
-- the new one is added behind.
unfoldable pub set_attribute : Attribute → List Attribute → List Attribute
set_attribute new [] = if new.value == "" then [] else new ∷ []
set_attribute new (a ∷ attrs) =
    let rest = set_attribute new attrs in
    if a.name == new.name
    then (if new.value == ""
        then attrs
        else record a { value = new.value; e_cert = new.e_cert } ∷ attrs)
    else a ∷ rest

-- getNewAttributes
unfoldable pub get_new_attributes : List Attribute → List Attribute → List Attribute
get_new_attributes attrs [] = attrs
get_new_attributes attrs (new ∷ more) = get_new_attributes (set_attribute new attrs) more

-- The attributes that getModifyReq adds to those of the request
abbrev pub affiliation_attribute : String → List Attribute → List Attribute
affiliation_attribute affiliation attrs =
    if affiliation == "."
    then add_attribute_to_request Attr.affiliation "" attrs
    else if affiliation == ""
    then attrs
    else add_attribute_to_request Attr.affiliation affiliation attrs

abbrev pub type_attribute : String → List Attribute → List Attribute
type_attribute type attrs =
    if type == "" then attrs else add_attribute_to_request Attr.type type attrs

-- getModifyReq, with whether a new password is set. With no attributes getNewAttributes changes nothing.
unfoldable pub get_modify_req : UserRecord → ModifyIdentityRequest → UserRecord × Bool
get_modify_req user req = (
  record user {
    pass = if req.secret == "" then user.pass else req.secret;
    max_enrollments =
        if eqℤ req.max_enrollments (negsuc 1)
        then pos 0
        else if eqℤ req.max_enrollments (pos 0)
        then user.max_enrollments
        else req.max_enrollments;
    affiliation =
        if req.affiliation == "."
        then ""
        else if req.affiliation == ""
        then user.affiliation
        else req.affiliation;
    type = if req.type == "" then user.type else req.type;
    attributes =
        get_new_attributes user.attributes
          (type_attribute req.type (affiliation_attribute req.affiliation req.attributes));
  },
  not (req.secret == ""),
)

-- ctx.caller, without a check that it is set
unfoldable pub stored_caller : M UserRecord
stored_caller w = (Result.from_option panicked w.caller, w)

-- The three checks of CanModifyUser in lib/serverrequestcontext.go, each behind its flag
unfoldable pub may_set_affiliation : Bool → String → M (Unit {0})
may_set_affiliation check affiliation = if check then require_affiliation affiliation else pure tt

unfoldable pub may_set_type : Bool → String → M (Unit {0})
may_set_type check type = if check then require_type type else pure tt

unfoldable pub check_attributes : List Attribute → UserRecord → UserRecord → M (Unit {0})
check_attributes attrs user caller =
    failing_as (replaced (new_auth_err err_reg_attr_auth))
      (lift (can_register_requested_attributes attrs (some (control_of user)) (control_of caller)))

unfoldable pub may_set_attributes : Bool → List Attribute → UserRecord → M (Unit {0})
unfolding check_attributes
may_set_attributes check attrs user =
    if check then (stored_caller >>= check_attributes attrs user) else pure tt

-- CanModifyUser
unfoldable pub can_modify_user :
    ModifyIdentityRequest → Bool → Bool → Bool → UserRecord → M (Unit {0})
can_modify_user req check_aff check_type check_attrs user = do
  may_set_affiliation check_aff req.affiliation
  may_set_type check_type req.type
  may_set_attributes check_attrs req.attributes user

-- getIDResp
unfoldable pub get_id_resp : UserRecord → String → IdentityResponse
get_id_resp user secret = record {
  id = user.name;
  type = user.type;
  affiliation = get_user_affiliation user;
  attributes = get_attributes user.attributes;
  max_enrollments = user.max_enrollments;
  secret = secret;
}

-- getID, which is processGetIDRequest behind the path's name
unfoldable pub get_id : String → M IdentityResponse
get_id id = do user ← get_user id; can_manage_user user; pure (get_id_resp user "")

-- The removal of an identity other than the caller, or with `force`
unfoldable pub may_remove : String → Bool → M (Unit {0})
may_remove id force = do
  caller ← stored_caller
  require (not (id == caller.name && not force)) (new_http_err 403 err_remove_identity)

remove : String → UserRecord → M IdentityResponse
remove id user = do
  failing_as (replaced (new_http_err 500 err_remove_identity)) (delete_user id)
  pure (get_id_resp user "")

-- processDeleteRequest
unfoldable pub process_delete_request : Ca → String → Result Bool → M IdentityResponse
unfolding remove
process_delete_request ca remove_id force_parm = do
  require ca.allow_remove_identities (new_http_err 403 err_remove_identity)
  require (not (remove_id == "")) (new_http_err 400 err_remove_identity)
  force ← lift force_parm
  may_remove remove_id force
  user ← get_managed_user remove_id
  can_manage_user user
  remove remove_id user

-- The lookup of a new affiliation: any error is taken to mean that there is none.
abbrev pub supported : Result AffiliationRecord → M (Unit {0})
supported (ok a) = pure tt
supported (err e) = fail (new_http_err 400 err_modifying_identity)

unfoldable pub require_supported : String → M (Unit {0})
require_supported affiliation =
    if affiliation == "" || affiliation == "."
    then pure tt
    else (attempt (get_affiliation affiliation) >>= supported)

abbrev pub has_any {ℓ} : {A : Type ℓ} → List A → Bool
has_any [] = false
has_any (a ∷ as') = true

-- The checks of a modification
unfoldable pub check_modification : UserRecord → ModifyIdentityRequest → M (Unit {0})
check_modification user req = do
  require_supported req.affiliation
  can_modify_user req (not (req.affiliation == "")) (not (req.type == "")) (has_any req.attributes)
      user

module _ (bcrypt : Bcrypt) where
  unfoldable pub store_and_answer : String → UserRecord × Bool → String → M IdentityResponse
  store_and_answer modify_id change secret = do
    update_user bcrypt change.0 change.1
    user ← get_user modify_id
    pure (get_id_resp user secret)

  -- processPutRequest
  unfoldable pub process_put_request : String → Result ModifyIdentityRequest → M IdentityResponse
  unfolding store_and_answer
  process_put_request modify_id body = do
    require (not (modify_id == "")) (new_http_err 400 err_modifying_identity)
    user ← get_managed_user modify_id
    req ← lift body
    check_modification user req
    store_and_answer modify_id (get_modify_req user req) req.secret

  -- processPostRequest; the request to add an identity has the fields of one to register it.
  unfoldable pub process_post_request :
      Ca → String → Result RegistrationRequest → M IdentityResponse
  process_post_request ca random_string body = do
    req ← lift body
    require (not (req.name == "")) (new_http_err 400 err_add_identity)
    get_caller
    pass ←
        failing_as (replaced (new_http_err 400 err_add_identity))
          (register_user bcrypt ca random_string req)
    user ← get_user req.name
    pure (get_id_resp user pass)
