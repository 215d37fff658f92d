-- ===== src/Affiliations/Remove.antt =====
-- DeleteAffiliation of lib/dbaccessor.go.
use fabric_ca_gm.Prelude.{
  is_empty, ℕ, String, Bool, not, ◌&&◌, ◌||◌, List, [], ◌∷◌, ◌++◌, ◌==◌, if◌then◌else◌, select, any,
}
use fabric_ca_gm.Result.{new_http_err, new_auth_err, replaced}
use fabric_ca_gm.Exec.{pure, failing_as, ◌>>=◌, ◌>>◌, require}
use fabric_ca_gm.World.{
  UserRecord, AffiliationRecord, Db, M, statement, query, get_row, get_error, do_transaction,
}
use fabric_ca_gm.Registry.{set_users, revoke_certificates_of}
use fabric_ca_gm.Affiliations.{Like, TxResult, called, get_affiliation}

abbrev pub err_update_config_remove_aff : ℕ
err_update_config_remove_aff = 61

abbrev pub err_remove_aff_db : ℕ
err_remove_aff_db = 62

-- `id IN (…)` for the names of a list of rows
abbrev pub in_names : List UserRecord → String → Bool
in_names ids id = any (λ u. u.name == id) ids

abbrev pub set_affiliations : Db → List AffiliationRecord → Db
set_affiliations db affiliations = record db { affiliations = affiliations }

-- The tests on the identities that would go
unfoldable pub check_identities : List UserRecord → Bool → Bool → Bool → M (Unit {0})
check_identities ids force identity_removal is_registrar =
    require (is_empty ids || (is_registrar && identity_removal && force))
      (new_auth_err err_update_config_remove_aff)

abbrev pub remove_aff_db : {A : Type 0} → M A → M A
remove_aff_db = failing_as (replaced (new_http_err 500 err_remove_aff_db))

-- The identities in one statement, their certificates in another. 3 is ocsp.AffiliationChanged.
unfoldable pub delete_identities : List UserRecord → M (Unit {0})
delete_identities ids =
    remove_aff_db
      (statement (λ db. (tt, set_users db (select (λ u. not (in_names ids u.name)) db.users))))
    >> (remove_aff_db (revoke_certificates_of (λ c. in_names ids c.id) 3) >> pure tt)

unfoldable pub remove_identities : List UserRecord → M (Unit {0})
unfolding delete_identities
remove_identities ids = if is_empty ids then pure tt else delete_identities ids

module _ (like : Like) (name : String) where
  unfoldable pub identities_of : M (List UserRecord)
  identities_of = do
    ids ← remove_aff_db (query (λ db. select (λ u. u.affiliation == name) db.users))
    sub_aff_ids ← remove_aff_db (query (λ db. select (λ u. like.below name u.affiliation) db.users))
    pure (ids ++ sub_aff_ids)

  unfoldable pub remove_rows : Bool → M (Unit {0})
  remove_rows subs =
      remove_aff_db (
        statement
          (λ db. (tt, set_affiliations db (select (λ a. not (called name a)) db.affiliations))))
      >> (if subs
          then remove_aff_db (
              statement (λ db. (
                tt,
                set_affiliations db (select (λ a. not (like.below name a.name)) db.affiliations),
              )))
          else pure tt)

  -- deleteAffiliationTx
  unfoldable pub delete_affiliation_tx : Bool → Bool → Bool → M TxResult
  delete_affiliation_tx force identity_removal is_registrar = do
    ids ← identities_of
    check_identities ids force identity_removal is_registrar
    aff ← failing_as get_error (get_row (λ db. select (called name) db.affiliations))
    subs ← remove_aff_db (query (λ db. select (λ a. like.below name a.name) db.affiliations))
    require (is_empty subs || force) (new_auth_err err_update_config_remove_aff)
    remove_identities ids
    remove_rows (not (is_empty subs))
    pure (record { affiliations = subs ++ aff ∷ []; identities = ids })

  -- DeleteAffiliation
  unfoldable pub delete_affiliation : Bool → Bool → Bool → M TxResult
  delete_affiliation force identity_removal is_registrar = get_affiliation name >>= λ _.
      do_transaction (delete_affiliation_tx force identity_removal is_registrar)
