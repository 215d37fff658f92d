-- ===== src/AffiliationApi/Tests.antt =====
-- Requests to the affiliations endpoint on the sample tables.
use fabric_ca_gm.Prelude.{String, ◌≡◌, ◌≢◌, refl, true, none, some, List, [], ◌∷◌, map, eq_iff}
use fabric_ca_gm.Prelude.Int.{pos}
use fabric_ca_gm.Text.{has_prefix, split, join}
use fabric_ca_gm.Result.{Err, ok, err}
use fabric_ca_gm.Attr.{roles, parse_bool}
use fabric_ca_gm.World.{
  AffiliationRecord, UserRecord, Db, World, statement, query, get_row, do_transaction,
}
use fabric_ca_gm.Registry.{
  get_attribute, update_rows, get_affiliation_path, get_user_affiliation, revoke_certificates_of,
}
use fabric_ca_gm.Context.{
  get_caller, affiliation_covers, contains_affiliation, require_affiliation, is_registrar,
}
use fabric_ca_gm.Register.{Ca}
use fabric_ca_gm.Identities.{stored_caller}
use fabric_ca_gm.Affiliations.{insert_row, insert_affiliation, get_affiliation}
use fabric_ca_gm.Affiliations.Closed.{ParentClosed}
use fabric_ca_gm.Affiliations.Remove.{
  check_identities, delete_identities, remove_identities, identities_of, remove_rows,
  delete_affiliation_tx, delete_affiliation,
}
use fabric_ca_gm.Affiliations.Tests.{plain_like}
use fabric_ca_gm.AffiliationTree.{Info, info, nil, cons}
use fabric_ca_gm.AffiliationApi.{
  is_child_affiliation, get_root_affiliation_names, identities_at, get_id_info, find_child,
  delete_at, fill_children, fill_affiliation_info, get_response,
}
use fabric_ca_gm.AffiliationApi.Handlers.{
  find_registrar, process_affiliation_delete_request, process_affiliation_post_request, insert_path,
  get_bool_query_parm,
}
use fabric_ca_gm.AffiliationApi.Deletion.{
  RemovedFor, process_affiliation_delete_request-RemovedFor,
  process_affiliation_delete_request_refuses,
}
use fabric_ca_gm.AffiliationApi.Sequences.{
  Request, to_one, to_all, serve, serve_all, serve_all-ParentClosed,
}
use fabric_ca_gm.Samples.{admin, peer, world, known_world}

abbrev ca : Ca
ca = record {
  max_enrollments = pos 9;
  allow_remove_identities = true;
  allow_remove_affiliations = true;
  identity_level = 1;
  affiliation_level = 1;
}

abbrev after : World
after = (process_affiliation_delete_request plain_like ca (ok "org1.sales") (ok true) known_world).1

abbrev answer : Info
answer = info "org1.sales" (get_id_info peer ∷ []) nil

removes :
    process_affiliation_delete_request plain_like ca (ok "org1.sales") (ok true) known_world
    ≡ (ok answer, after)
unfolding process_affiliation_delete_request delete_affiliation delete_affiliation_tx
    get_affiliation get_row query statement do_transaction identities_of check_identities
    remove_identities delete_identities remove_rows revoke_certificates_of update_rows has_prefix
    stored_caller find_registrar is_registrar get_caller get_attribute require_affiliation
    contains_affiliation affiliation_covers get_user_affiliation get_affiliation_path split join
    get_response get_root_affiliation_names is_child_affiliation fill_affiliation_info fill_children
    find_child identities_at get_id_info
removes = refl

process_affiliation_delete_request-RemovedFor_example :
    RemovedFor plain_like ca admin (ok "org1.sales") (ok true) known_world after
process_affiliation_delete_request-RemovedFor_example =
    process_affiliation_delete_request-RemovedFor plain_like ca admin (ok "org1.sales") (ok true)
      known_world after answer refl removes

-- A caller at the root without any attribute
abbrev manager : UserRecord
manager = record {
  name = "manager";
  pass = "";
  type = "client";
  affiliation = "";
  attributes = [];
  state = pos 0;
  max_enrollments = pos 1;
  level = 1;
}

abbrev managed_world : World
managed_world = record world { caller = some manager }

no_roles : get_attribute manager.attributes roles ≡ none
unfolding get_attribute
no_roles = refl

process_affiliation_delete_request_refuses_example :
    (e : Err) × ((process_affiliation_delete_request plain_like ca
        (ok "org2")
        (ok true)
        managed_world).0
      ≡ err e)
process_affiliation_delete_request_refuses_example =
    process_affiliation_delete_request_refuses plain_like ca manager (ok "org2") (ok true)
      managed_world refl no_roles

abbrev no_affiliations : Db
no_affiliations = record { users = admin ∷ peer ∷ []; affiliations = []; certificates = [] }

none_listed : ParentClosed no_affiliations.affiliations
none_listed = record { parent = λ a up i above. absurd i }

-- Three affiliations along a path are added, and then one of them is removed.
abbrev requests : List Request
requests =
    to_all known_world "POST" (ok "org1.sales.eu") "true" admin
    ∷ to_one known_world "DELETE" (ok "org1.sales") (ok "") "true"
    ∷ []

serve_all-ParentClosed_example :
    ParentClosed (serve_all plain_like ca requests no_affiliations).affiliations
serve_all-ParentClosed_example =
    serve_all-ParentClosed plain_like ca requests no_affiliations (tt, (different, tt)) none_listed
  where
    different : ◌≢◌ {A = String} "DELETE" "PUT"
    different e = cc ((eq_iff "DELETE" "PUT").1 e)

adds :
    map
      (λ a. a.name)
      (serve_all plain_like ca
        (to_all known_world "POST" (ok "org1.sales.eu") "true" admin ∷ [])
        no_affiliations).affiliations
    ≡ "org1" ∷ "org1.sales" ∷ "org1.sales.eu" ∷ []
unfolding serve_all serve process_affiliation_post_request insert_path insert_row insert_affiliation
    get_bool_query_parm parse_bool get_affiliation get_row query statement get_caller
    require_affiliation contains_affiliation affiliation_covers get_user_affiliation
    get_affiliation_path split join has_prefix
adds = refl

abbrev named : String → AffiliationRecord
named name = record { name = name; prekey = ""; level = 1 }

-- An answer gives a child twice where another child has children of its own: the calls share one array.
gives_twice :
    fill_affiliation_info [] "a" (named "a" ∷ named "a.b" ∷ named "a.b.c" ∷ named "a.d" ∷ [])
    ≡ info "a" [] (
        cons
          (info "a.b" [] (cons (info "a.b.c" [] nil) nil))
          (cons (info "a.d" [] nil) (cons (info "a.d" [] nil) nil)))
unfolding fill_affiliation_info fill_children find_child delete_at is_child_affiliation
    identities_at has_prefix split
gives_twice = refl
