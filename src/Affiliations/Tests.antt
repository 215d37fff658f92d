-- ===== src/Affiliations/Tests.antt =====
-- Changes of affiliations on the sample tables.
use Prim.Native.String
use fabric_ca_gm.Prelude.{◌≡◌, refl, true, false, [], ◌∷◌, map}
use fabric_ca_gm.Text.{has_prefix, split, join, replace_first}
use fabric_ca_gm.Text.Prefixes.{has_prefix-append}
use fabric_ca_gm.Result.{ok, err, new_http_err}
use fabric_ca_gm.World.{World, statement, query, get_row, do_transaction}
use fabric_ca_gm.Registry.{
  update_rows, update_users, expect_one, get_attributes, get_affiliation_path, get_user_affiliation,
  revoke_certificates_of,
}
use fabric_ca_gm.Identities.{get_new_attributes, set_attribute}
use fabric_ca_gm.Affiliations.{Like, TxResult, get_affiliation}
use fabric_ca_gm.Affiliations.Remove.{
  check_identities, delete_identities, remove_identities, identities_of, remove_rows,
  delete_affiliation_tx, delete_affiliation,
}
use fabric_ca_gm.Affiliations.Removed.{Removed, delete_affiliation-Removed}
use fabric_ca_gm.Affiliations.Rename.{
  modify_affiliation, modify_affiliation_tx, rename_each, rename_one, move_identities,
  update_attributes, rename_row,
}
use fabric_ca_gm.Affiliations.Failure.{failed_modify_affiliation}
use fabric_ca_gm.Samples.{world, admin, peer}

-- A LIKE that heeds case and has no wildcards
abbrev pub plain_like : Like
plain_like = record {
  below = λ name value. has_prefix value (String.◌++◌ name ".");
  below_prefix = λ name value h. h;
  below_longer = λ name value more h. has_prefix-append value (String.◌++◌ name ".") more h;
}

abbrev after : World
after = (delete_affiliation plain_like "org1" true true true world).1

abbrev deleted : TxResult
deleted = record {
  affiliations =
      record { name = "org1.sales"; prekey = "org1"; level = 1 }
      ∷ record { name = "org1"; prekey = ""; level = 1 }
      ∷ [];
  identities = admin ∷ peer ∷ [];
}

deletes : delete_affiliation plain_like "org1" true true true world ≡ (ok deleted, after)
unfolding delete_affiliation delete_affiliation_tx get_affiliation get_row query statement
    do_transaction identities_of check_identities remove_identities delete_identities remove_rows
    revoke_certificates_of update_rows has_prefix
deletes = refl

delete_affiliation-Removed_example :
    Removed plain_like "org1" true true true deleted world.db after.db
delete_affiliation-Removed_example =
    delete_affiliation-Removed plain_like "org1" true true true world after deleted deletes

-- Without `force` the identities of org1 keep their affiliation.
abbrev unchanged : World
unchanged = (modify_affiliation "org1" "org3" false true plain_like world).1

refuses :
    (modify_affiliation "org1" "org3" false true plain_like world).0 ≡ err (new_http_err 400 64)
unfolding modify_affiliation modify_affiliation_tx get_affiliation get_row query statement
    do_transaction rename_each rename_one move_identities has_prefix replace_first
refuses = refl

failed_modify_affiliation_example : unchanged.db ≡ world.db
failed_modify_affiliation_example =
    failed_modify_affiliation plain_like "org1" "org3" false true world (new_http_err 400 64)
      refuses

-- With `force` they go with it, and so does their attribute.
abbrev renamed : World
renamed = (modify_affiliation "org1" "org3" true true plain_like world).1

renames : map (λ u. u.affiliation) renamed.db.users ≡ "org3" ∷ "org3.sales" ∷ []
unfolding modify_affiliation modify_affiliation_tx get_affiliation get_row query statement
    do_transaction rename_each rename_one move_identities has_prefix replace_first update_users
    update_rows update_attributes expect_one rename_row get_attributes get_affiliation_path
    get_user_affiliation split join get_new_attributes set_attribute
renames = refl
