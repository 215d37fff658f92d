-- ===== src/Attr.antt =====
-- lib/attr/attribute.go: which attributes a registrar may give to an identity.
pub mod Grants
mod Tests
use fabric_ca_gm.Prelude.{
  String, ◌≡◌, Bool, true, false, not, ◌&&◌, ◌||◌, Option, none, some, List, [], ◌∷◌, ◌==◌, any,
  if◌then◌else◌,
}
use fabric_ca_gm.Text.{has_prefix, has_suffix, trim_right, get_slice_from_list, is_subset_of}
use fabric_ca_gm.Result.{Result, ok, err, plain, ◌>>=◌, ◌>>◌, ensure, on_err, from_option, reworded}

-- api.Attribute
pub record Attribute : Type 0 where
  pub name : String
  pub value : String
  pub e_cert : Bool

-- The interface AttributeControl: GetAttribute, which fails if the identity has no such attribute.
abbrev pub AttributeControl : Type 0
AttributeControl = String → Option Attribute

abbrev pub roles : String
roles = "hf.Registrar.Roles"

abbrev pub delegate_roles : String
delegate_roles = "hf.Registrar.DelegateRoles"

abbrev pub registrar_attr : String
registrar_attr = "hf.Registrar.Attributes"

abbrev pub affiliation_mgr : String
affiliation_mgr = "hf.AffiliationMgr"

abbrev pub enrollment_id : String
enrollment_id = "hf.EnrollmentID"

abbrev pub type : String
type = "hf.Type"

abbrev pub affiliation : String
affiliation = "hf.Affiliation"

pub data AttributeType : Type 0 where
  boolean list fixed custom : AttributeType

-- The struct attributeControl
pub record Control : Type 0 where
  pub name : String
  pub requires_ownership : Bool
  pub attr_type : AttributeType

-- The three lists of initAttrs
abbrev pub boolean_attributes : List String
boolean_attributes = "hf.Revoker" ∷ "hf.IntermediateCA" ∷ "hf.GenCRL" ∷ "hf.AffiliationMgr" ∷ []

abbrev pub list_attributes : List String
list_attributes =
    "hf.Registrar.Roles" ∷ "hf.Registrar.DelegateRoles" ∷ "hf.Registrar.Attributes" ∷ []

abbrev pub fixed_value_attributes : List String
fixed_value_attributes = "hf.EnrollmentID" ∷ "hf.Type" ∷ "hf.Affiliation" ∷ []

pub contains : String → List String → Bool
contains name names = any (λ n. n == name) names

-- The map that initAttrs builds from the lists
attribute_map : String → Option Control
attribute_map name =
    if contains name boolean_attributes
    then some (record { name = name; requires_ownership = true; attr_type = boolean })
    else if contains name list_attributes
    then some (record { name = name; requires_ownership = true; attr_type = list })
    else if contains name fixed_value_attributes
    then some (record { name = name; requires_ownership = false; attr_type = fixed })
    else none

or_custom : String → Option Control → Result Control
or_custom attr_name (some attr_control) = ok attr_control
or_custom attr_name none =
    if has_prefix attr_name "hf."
    then err plain
    else ok (record { name = attr_name; requires_ownership = false; attr_type = custom })

get_attribute_control : String → Result Control
get_attribute_control attr_name = or_custom attr_name (attribute_map attr_name)

-- canRegisterAttr: the loop over the entries of the caller's hf.Registrar.Attributes
pub can_register_attr : String → List String → Result (Unit {0})
can_register_attr requested [] = err plain
can_register_attr requested (reg_attr ∷ rest) =
    let later = can_register_attr requested rest in
    if has_suffix reg_attr "*"
    then (if has_prefix requested (trim_right b'*' reg_attr) then ok tt else later)
    else if requested == reg_attr
    then ok tt
    else later

unfoldable pub exists : List Attribute → String → Bool
exists attrs name = any (λ a. a.name == name) attrs

unfoldable pub get_attr_value : List Attribute → String → String
get_attr_value [] name = ""
get_attr_value (a ∷ attrs) name = if a.name == name then a.value else get_attr_value attrs name

-- strconv.ParseBool
unfoldable pub parse_bool : String → Option Bool
parse_bool s =
    if s == "1" || s == "t" || s == "T" || s == "TRUE" || s == "true" || s == "True"
    then some true
    else if s == "0" || s == "f" || s == "F" || s == "FALSE" || s == "false" || s == "False"
    then some false
    else none

validate_boolean_attribute : Attribute → String → Result (Unit {0})
validate_boolean_attribute requested callers_value = do
  caller_bool ← from_option plain (parse_bool callers_value)
  ensure caller_bool plain
  if requested.value == ""
      then ok tt
      else do requested_bool ← from_option plain (parse_bool requested.value); ok tt

-- The ownership test for one value of hf.Registrar.Attributes with the prefix "hf."; no `user` is a new
-- registration.
possessed : String → List Attribute → Option AttributeControl → Result (Unit {0})
possessed value req_attrs none = ensure (exists req_attrs value) plain
possessed value req_attrs (some get) =
    ensure (exists req_attrs value || elim (get value) [ none ↦ false | some a ↦ true ]) plain

check_values :
    List String → List Attribute → Option AttributeControl → List String → Result (Unit {0})
check_values [] req_attrs user caller_slice = ok tt
check_values (value ∷ values) req_attrs user caller_slice = do
  can_register_attr value caller_slice
  if has_prefix value "hf." then possessed value req_attrs user else ok tt
  check_values values req_attrs user caller_slice

check_hf_registrar_attr_values :
    Attribute → List Attribute → Option AttributeControl → List String → Result (Unit {0})
check_hf_registrar_attr_values req_attr = check_values (get_slice_from_list req_attr.value)

-- The current roles of the user, "" if there is no user or it has none
pub current_roles : Option AttributeControl → String
current_roles none = ""
current_roles (some get) = elim (get roles) [ none ↦ "" | some a ↦ a.value ]

check_delegate_role_values : List Attribute → Option AttributeControl → Result (Unit {0})
check_delegate_role_values req_attrs user = do
  let requested = get_attr_value req_attrs roles
  let allowed = if requested == "" then current_roles user else requested
  ensure (is_subset_of (get_attr_value req_attrs delegate_roles) allowed) plain

validate_list_attribute :
    Control → Attribute → String → List Attribute → Option AttributeControl → Result (Unit {0})
validate_list_attribute ac requested callers_value all_requested user =
    if requested.value == ""
    then ok tt
    else if ac.name == registrar_attr
    then check_hf_registrar_attr_values requested all_requested user
        (get_slice_from_list callers_value)
    else do
      ensure (is_subset_of requested.value callers_value) plain
      if ac.name == delegate_roles then check_delegate_role_values all_requested user else ok tt

-- The value of the caller's own attribute, where ownership is required
callers_attr_value : Control → Attribute → AttributeControl → Result String
callers_attr_value ac requested registrar =
    if ac.requires_ownership
    then (do
      callers_attribute ← from_option plain (registrar requested.name)
      ok callers_attribute.value)
    else ok ""

validate :
    AttributeType
    → Control
    → Attribute
    → String
    → List Attribute
    → Option AttributeControl
    → Result (Unit {0})
validate boolean ac requested callers_value all_requested user =
    validate_boolean_attribute requested callers_value
validate list ac requested callers_value all_requested user =
    validate_list_attribute ac requested callers_value all_requested user
validate fixed ac requested callers_value all_requested user = err plain
validate custom ac requested callers_value all_requested user = ok tt

is_registrar_authorized :
    Control
    → Attribute
    → List Attribute
    → Option AttributeControl
    → AttributeControl
    → Result (Unit {0})
is_registrar_authorized ac requested all_requested user registrar = do
  callers_value ← callers_attr_value ac requested registrar
  validate ac.attr_type ac requested callers_value all_requested user

can_register_attribute :
    Attribute → List Attribute → Option AttributeControl → AttributeControl → Result (Unit {0})
can_register_attribute requested all_requested user registrar = do
  registrar_attrs ← from_option plain (registrar registrar_attr)
  ensure (not (registrar_attrs.value == "")) plain
  can_register_attr requested.name (get_slice_from_list registrar_attrs.value)
  control ← get_attribute_control requested.name
  on_err reworded (is_registrar_authorized control requested all_requested user registrar)

can_register_each :
    List Attribute → List Attribute → Option AttributeControl → AttributeControl → Result (Unit {0})
can_register_each [] all_requested user registrar = ok tt
can_register_each (a ∷ attrs) all_requested user registrar = do
  can_register_attribute a all_requested user registrar
  can_register_each attrs all_requested user registrar

-- The test for no attributes returns what the loop returns.
unfoldable pub can_register_requested_attributes :
    List Attribute → Option AttributeControl → AttributeControl → Result (Unit {0})
unfolding can_register_each can_register_attribute is_registrar_authorized validate
    callers_attr_value validate_list_attribute check_delegate_role_values current_roles
    check_hf_registrar_attr_values check_values possessed validate_boolean_attribute
    can_register_attr get_attribute_control or_custom attribute_map contains
can_register_requested_attributes req_attrs = can_register_each req_attrs req_attrs
