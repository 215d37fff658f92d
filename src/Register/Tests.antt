-- ===== src/Register/Tests.antt =====
-- Registrations on the sample tables.
use fabric_ca_gm.Prelude.{false, ◌↔◌, ◌≡◌, refl, true, [], ◌∷◌}
use fabric_ca_gm.Prelude.Int.{pos}
use fabric_ca_gm.Result.{ok, err, plain}
use fabric_ca_gm.Register.Failure.{failed_register_user}
use fabric_ca_gm.World.{World, get_row, query, statement}
use fabric_ca_gm.Context.{
  get_caller, is_registrar, types_of, require_affiliation, contains_affiliation, affiliation_covers,
}
use fabric_ca_gm.Registry.{
  get_user, get_attribute, expect_one, get_affiliation_path, get_user_affiliation, insert_user,
}
use fabric_ca_gm.Text.{
  str_contained, split, to_lower, get_slice_from_list, has_prefix, has_suffix, trim_right,
  is_subset_of, join, remove_all,
}
use fabric_ca_gm.Affiliations.{get_affiliation}
use fabric_ca_gm.Attr.{can_register_requested_attributes, exists, get_attr_value, parse_bool}
use fabric_ca_gm.Register.{
  Ca, RegistrationRequest, get_max_enrollments, register_user, can_register, or_client,
  normalize_registration_request, is_valid_affiliation, new_identity, register_user_id, secret_of,
}
use fabric_ca_gm.Register.Limits.{Grants, get_max_enrollments_iff}
use fabric_ca_gm.Register.Effect.{Registered, register_user-Registered}
use fabric_ca_gm.Samples.{plain_text, world, attribute}

abbrev ca : Ca
ca = record {
  max_enrollments = pos 5;
  allow_remove_identities = true;
  allow_remove_affiliations = true;
  identity_level = 1;
  affiliation_level = 1;
}

abbrev request : RegistrationRequest
request = record {
  name = "peer2";
  type = "peer";
  secret = "";
  max_enrollments = pos 3;
  affiliation = "org1.sales";
  attributes = attribute "color" "blue" ∷ [];
}

abbrev after : World
after = (register_user plain_text ca "random" request world).1

registers : register_user plain_text ca "random" request world ≡ (ok "random", after)
unfolding register_user get_max_enrollments get_caller is_registrar types_of require_affiliation
    contains_affiliation affiliation_covers get_user get_attribute expect_one get_affiliation_path
    get_user_affiliation insert_user get_row query statement str_contained split to_lower
    get_slice_from_list has_prefix has_suffix trim_right is_subset_of join remove_all can_register
    or_client normalize_registration_request is_valid_affiliation new_identity register_user_id
    secret_of get_affiliation can_register_requested_attributes exists get_attr_value parse_bool
registers = refl

register_user-Registered_example : Registered plain_text ca "random" request world "random" after
register_user-Registered_example =
    register_user-Registered plain_text ca "random" request world after "random" registers

get_max_enrollments_iff_example :
    (get_max_enrollments (pos 3) (pos 5) ≡ ok (pos 3)) ↔ Grants (pos 5) (pos 3) (pos 3)
get_max_enrollments_iff_example = get_max_enrollments_iff (pos 5) (pos 3) (pos 3) refl

-- The third statement, the insertion's, fails.
abbrev failing : World
failing = record world { faults = false ∷ false ∷ false ∷ true ∷ [] }

fails : (register_user plain_text ca "random" request failing).0 ≡ err plain
unfolding register_user get_max_enrollments get_caller is_registrar types_of require_affiliation
    contains_affiliation affiliation_covers get_user get_attribute expect_one get_affiliation_path
    get_user_affiliation insert_user get_row query statement str_contained split to_lower
    get_slice_from_list has_prefix has_suffix trim_right is_subset_of join remove_all can_register
    or_client normalize_registration_request is_valid_affiliation new_identity register_user_id
    secret_of get_affiliation can_register_requested_attributes exists get_attr_value parse_bool
fails = refl

failed_register_user_example :
    (register_user plain_text ca "random" request failing).1.db ≡ failing.db
failed_register_user_example =
    failed_register_user plain_text ca "random" request failing plain fails
