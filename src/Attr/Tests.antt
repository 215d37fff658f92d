-- ===== src/Attr/Tests.antt =====
-- A registrar that gives attributes.
use fabric_ca_gm.Prelude.{
  false, ◌==◌, if◌then◌else◌, String, ◌≡◌, refl, none, some, List, [], ◌∷◌, All,
}
use fabric_ca_gm.Result.{ok}
use fabric_ca_gm.Attr.{
  Attribute, AttributeControl, exists, get_attr_value, parse_bool,
  can_register_requested_attributes,
}
use fabric_ca_gm.Attr.Grants.{Registrable, can_register_requested_attributes_sound}
use fabric_ca_gm.Text.{
  split, str_contained, to_lower, get_slice_from_list, has_prefix, has_suffix, trim_right,
  is_subset_of, remove_all,
}

abbrev attribute : String → String → Attribute
attribute name value = record { name = name; value = value; e_cert = false }

registrar : AttributeControl
registrar name =
    if name == "hf.Registrar.Attributes"
    then some (attribute name "hf.*,color")
    else if name == "hf.Registrar.Roles"
    then some (attribute name "client,peer")
    else if name == "hf.Revoker"
    then some (attribute name "true")
    else none

abbrev requested : List Attribute
requested =
    attribute "hf.Revoker" "true"
    ∷ attribute "hf.Registrar.Roles" "peer"
    ∷ attribute "color" "blue"
    ∷ []

allowed : can_register_requested_attributes requested none registrar ≡ ok tt
unfolding can_register_requested_attributes exists get_attr_value parse_bool registrar split
    str_contained to_lower get_slice_from_list has_prefix has_suffix trim_right is_subset_of
    remove_all
allowed = refl

can_register_requested_attributes_sound_example :
    All (Registrable requested none registrar) requested
can_register_requested_attributes_sound_example =
    can_register_requested_attributes_sound requested none registrar allowed
