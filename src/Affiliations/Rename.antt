-- ===== src/Affiliations/Rename.antt =====
-- ModifyAffiliation of lib/dbaccessor.go: an affiliation and all below it get new names.
use fabric_ca_gm.Prelude.{
  is_empty, ℕ, String, Bool, false, not, ◌&&◌, ◌||◌, Option, none, some, List, [], ◌∷◌, ◌++◌, map,
  ◌==◌, leb, if◌then◌else◌, select, any, length,
}
use fabric_ca_gm.Text.{replace_first}
use fabric_ca_gm.Result.{
  Err, Result, ok, err, plain, panicked, new_http_err, new_auth_err, replaced,
}
use fabric_ca_gm.Result
use fabric_ca_gm.Attr
use fabric_ca_gm.Attr.{Attribute}
use fabric_ca_gm.Exec.{pure, fail, lift, failing_as, attempt, ◌>>=◌, ◌>>◌, require}
use fabric_ca_gm.World.{
  UserRecord, AffiliationRecord, Db, M, statement, query, get_row, do_transaction,
}
use fabric_ca_gm.Registry.{
  update_rows, update_users, named, expect_one, get_attributes, get_user_affiliation,
}
use fabric_ca_gm.Identities.{get_new_attributes}
use fabric_ca_gm.Affiliations.{Like, TxResult, called, get_affiliation}
use fabric_ca_gm.Affiliations.Remove.{in_names, set_affiliations}

abbrev pub err_update_config_modify_aff : ℕ
err_update_config_modify_aff = 64

-- The values of the attribute hf.Affiliation under the new name
abbrev pub moved_attributes : String → String → UserRecord → List Attribute
moved_attributes old new u = get_new_attributes (get_attributes u.attributes) (
    record {
      name = Attr.affiliation;
      value = replace_first (get_user_affiliation u) old new;
      e_cert = false;
    }
    ∷ [])

-- The loop over the identities of an affiliation; they are as they were read before the update.
unfoldable pub update_attributes : String → String → List UserRecord → M (Unit {0})
update_attributes old new [] = pure tt
update_attributes old new (u ∷ us) =
    let rest = update_attributes old new us in
    (update_users (named u.name) (λ row. record row { attributes = moved_attributes old new u })
      >>= expect_one)
    >> rest

-- The update of the affiliation's row, under the UNIQUE constraint: the tables, or none where a name would
-- stand twice.
unfoldable pub rename_row :
    String → String → String → List AffiliationRecord → Option (List AffiliationRecord)
rename_row old_path new_path new_parent rows =
    if any (λ a. called new_path a && not (called old_path a)) rows && any (called old_path) rows
    then none
    else some (
        update_rows (called old_path) (λ a. record a { name = new_path; prekey = new_parent }) rows)

rename_statement : String → String → String → Db → Option ℕ × Db
rename_statement old_path new_path new_parent db =
    elim (rename_row old_path new_path new_parent db.affiliations) [
      | none ↦ (none, db)
      | some rows ↦
          (some (length (select (called old_path) db.affiliations)), set_affiliations db rows)
    ]

-- The identities of one affiliation move with it, and give their names.
unfoldable pub move_identities :
    String → String → String → String → Bool → Bool → List UserRecord → M (List String)
move_identities old new old_path new_path force is_registrar ids =
    if is_empty ids then pure [] else (do
      require is_registrar (new_auth_err 43)
      require force (new_http_err 400 err_update_config_modify_aff)
      update_users (λ row. in_names ids row.name) (λ row. record row { affiliation = new_path })
      update_attributes old new ids
      pure (map (λ u. u.name) ids))

module _ (old new : String) (force is_registrar : Bool) where
  -- One round of the loop over the affiliations. MustExec panics where the statement fails.
  unfoldable pub rename_one : AffiliationRecord → M (List String)
  unfolding rename_statement
  rename_one a = do
    ids ← query (λ db. select (λ u. u.affiliation == a.name) db.users)
    updated ← move_identities old new a.name (replace_first a.name old new) force is_registrar ids
    answer ←
        failing_as (λ e. panicked)
          (statement (
            rename_statement a.name (replace_first a.name old new)
              (replace_first a.prekey old new)))
    rows ← lift (Result.from_option panicked answer)
    require (leb 1 rows) plain
    pure updated

  unfoldable pub rename_each : List AffiliationRecord → M (List String)
  rename_each [] = pure []
  rename_each (a ∷ affs) =
      let rest = rename_each affs in do updated ← rename_one a; more ← rest; pure (updated ++ more)

  -- modifyAffiliationTx
  unfoldable pub modify_affiliation_tx : Like → M TxResult
  modify_affiliation_tx like = do
    aff ← get_row (λ db. select (called old) db.affiliations)
    subs ← query (λ db. select (λ a. like.below old a.name) db.affiliations)
    updated ← rename_each (subs ++ aff ∷ [])
    ids ←
        if is_empty updated
        then pure []
        else query (λ db. select (λ u. any (λ id. u.name == id) updated) db.users)
    affs ←
        failing_as (replaced (new_http_err 500 16))
          (query (λ db. select (λ a. like.below new a.name || called new a) db.affiliations))
    pure (record { affiliations = affs; identities = ids })

  -- The lookup of the new name: any error is taken to mean that it is free.
  abbrev pub free : Result AffiliationRecord → M (Unit {0})
  free (ok a) = fail (new_http_err 400 err_update_config_modify_aff)
  free (err e) = pure tt

  -- ModifyAffiliation
  unfoldable pub modify_affiliation : Like → M TxResult
  modify_affiliation like = do
    get_affiliation old
    attempt (get_affiliation new) >>= free
    do_transaction (modify_affiliation_tx like)
