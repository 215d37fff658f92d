-- ===== src/Identities/Tests.antt =====
-- Removals and merges on the sample tables.
use fabric_ca_gm.Prelude.{◌≡◌, refl, true, false, List, [], ◌∷◌}
use fabric_ca_gm.Prelude.Int.{pos, minus_one}
use fabric_ca_gm.Result.{ok, err, new_http_err}
use fabric_ca_gm.Text.{
  split, join, has_prefix, has_suffix, trim_right, remove_all, is_subset_of, get_slice_from_list,
  str_contained, to_lower,
}
use fabric_ca_gm.Attr.{
  Attribute, exists, get_attr_value, parse_bool, can_register_requested_attributes,
}
use fabric_ca_gm.World.{UserRecord, World, query, get_row, statement, do_transaction}
use fabric_ca_gm.Registry.{
  get_attribute, get_attributes, get_affiliation_path, get_user_affiliation, get_user, delete_user,
  delete_user_tx, revoke_certificates_of, update_rows, update_users, update_user, expect_one,
}
use fabric_ca_gm.Affiliations.{get_affiliation}
use fabric_ca_gm.Context.{
  get_caller, affiliation_covers, contains_affiliation, require_affiliation, is_registrar, types_of,
  can_act_on_type, require_type, can_manage_user, get_managed_user,
}
use fabric_ca_gm.Register.{Ca}
use fabric_ca_gm.Identities.{
  ModifyIdentityRequest, set_attribute, get_modify_req, process_put_request, check_modification,
  require_supported, can_modify_user, may_set_affiliation, may_set_type, may_set_attributes,
  get_new_attributes, get_id_resp, stored_caller, may_remove, process_delete_request,
  err_remove_identity,
}
use fabric_ca_gm.Identities.Merge.{Distinct, merged, get_new_attributes-get_attribute}
use fabric_ca_gm.Identities.Changes.{Changed, process_put_request-Changed}
use fabric_ca_gm.Identities.Removal.{
  Removed, process_delete_request-Removed, failed_process_delete_request,
}
use fabric_ca_gm.Samples.{plain_text, attribute, admin, peer, known_world}

abbrev ca : Ca
ca = record {
  max_enrollments = minus_one;
  allow_remove_identities = true;
  allow_remove_affiliations = true;
  identity_level = 1;
  affiliation_level = 1;
}

abbrev after : World
after = (process_delete_request ca "peer1" (ok false) known_world).1

removes :
    process_delete_request ca "peer1" (ok false) known_world ≡ (ok (get_id_resp peer ""), after)
unfolding process_delete_request may_remove stored_caller get_managed_user get_user get_row query
    statement can_manage_user require_affiliation contains_affiliation get_caller affiliation_covers
    get_user_affiliation join get_affiliation_path split has_prefix exists can_act_on_type
    is_registrar require_type types_of get_id_resp delete_user delete_user_tx get_attribute
    get_attributes revoke_certificates_of update_rows str_contained to_lower do_transaction
removes = refl

process_delete_request-Removed_example : Removed admin ca "peer1" (ok false) known_world after
process_delete_request-Removed_example =
    process_delete_request-Removed admin ca "peer1" (ok false) known_world after
      (get_id_resp peer "") refl removes

-- The removal of the rows succeeds, the revocation of the certificates fails.
abbrev failing : World
failing = record known_world { faults = false ∷ false ∷ false ∷ false ∷ true ∷ [] }

removal_fails :
    (process_delete_request ca "peer1" (ok false) failing).0
    ≡ err (new_http_err 500 err_remove_identity)
unfolding process_delete_request may_remove stored_caller get_managed_user get_user get_row query
    statement can_manage_user require_affiliation contains_affiliation get_caller affiliation_covers
    get_user_affiliation join get_affiliation_path split has_prefix exists can_act_on_type
    is_registrar require_type types_of get_id_resp delete_user delete_user_tx get_attribute
    get_attributes revoke_certificates_of update_rows str_contained to_lower do_transaction
removal_fails = refl

failed_process_delete_request_example :
    (process_delete_request ca "peer1" (ok false) failing).1.db ≡ failing.db
failed_process_delete_request_example =
    failed_process_delete_request ca "peer1" (ok false) failing
      (new_http_err 500 err_remove_identity) removal_fails

abbrev request : ModifyIdentityRequest
request = record {
  type = "client";
  affiliation = "org1.sales";
  attributes = attribute "color" "blue" ∷ [];
  max_enrollments = pos 3;
  secret = "new";
}

abbrev changed : World
changed = (process_put_request plain_text "peer1" (ok request) known_world).1

abbrev changed_peer : UserRecord
changed_peer = record (get_modify_req peer request).0 { pass = "new" }

changes :
    process_put_request plain_text "peer1" (ok request) known_world
    ≡ (ok (get_id_resp changed_peer "new"), changed)
unfolding process_put_request check_modification require_supported can_modify_user
    may_set_affiliation may_set_type may_set_attributes stored_caller get_modify_req
    get_new_attributes set_attribute get_managed_user get_user get_row query statement
    can_manage_user require_affiliation contains_affiliation get_caller affiliation_covers
    get_user_affiliation join get_affiliation_path split has_prefix has_suffix trim_right remove_all
    is_subset_of get_slice_from_list exists get_attr_value parse_bool can_act_on_type is_registrar
    require_type types_of get_id_resp get_attribute get_attributes update_rows update_users
    update_user expect_one str_contained to_lower get_affiliation can_register_requested_attributes
changes = refl

process_put_request-Changed_example :
    Changed plain_text admin "peer1" (ok request) known_world changed
process_put_request-Changed_example =
    process_put_request-Changed plain_text admin "peer1" (ok request) known_world changed
      (get_id_resp changed_peer "new") refl changes

abbrev held : List Attribute
held = attribute "color" "blue" ∷ attribute "size" "2" ∷ []

abbrev asked : List Attribute
asked = attribute "color" "" ∷ attribute "shape" "round" ∷ []

held-Distinct : Distinct held
unfolding exists
held-Distinct = (refl, (refl, tt))

get_new_attributes-get_attribute_example :
    Distinct (get_new_attributes held asked)
    × (get_attribute (get_new_attributes held asked) "color"
        ≡ merged (get_attribute held "color") (get_attribute asked "color"))
get_new_attributes-get_attribute_example =
    get_new_attributes-get_attribute held asked "color" held-Distinct
