-- ===== src/Affiliations/Failure.antt =====
-- Changes of affiliations that fail.
use fabric_ca_gm.Prelude.{String, ◌≡◌, Bool}
use fabric_ca_gm.Result.{Err, err, Result, ok}
use fabric_ca_gm.Exec.{attempt}
use fabric_ca_gm.World.{AffiliationRecord, World, M, do_transaction}
use fabric_ca_gm.World.Statements.{do_transaction-atomic}
use fabric_ca_gm.World.ReadOnly.{IsReadOnly, keeps_flow}
use fabric_ca_gm.World.Atomic.{IsAtomic, read_rules, bind-IsAtomic}
use fabric_ca_gm.Affiliations.{Like, get_affiliation}
use fabric_ca_gm.Affiliations.Reads.{get_affiliation-IsReadOnly}
use fabric_ca_gm.Affiliations.Remove.{delete_affiliation}
use fabric_ca_gm.Affiliations.Rename.{modify_affiliation, free}

do_transaction-IsAtomic : {A : Type 0} (doit : M A) → IsAtomic (do_transaction doit)
do_transaction-IsAtomic doit = record { at = do_transaction-atomic doit }

attempt-IsReadOnly : (name : String) → IsReadOnly (attempt (get_affiliation name))
attempt-IsReadOnly name = record { at = (get_affiliation-IsReadOnly name).at }

free-IsReadOnly :
    (old new : String) (force is_registrar : Bool) (r : Result AffiliationRecord)
    → IsReadOnly (free old new force is_registrar r)
free-IsReadOnly old new force is_registrar (ok a) = record { at = keeps_flow.stay }
free-IsReadOnly old new force is_registrar (err e) = record { at = keeps_flow.stay }

module _ (like : Like) where
  pub delete_affiliation-IsAtomic :
      (name : String) (force identity_removal is_registrar : Bool)
      → IsAtomic (delete_affiliation like name force identity_removal is_registrar)
  unfolding delete_affiliation
  delete_affiliation-IsAtomic name force identity_removal is_registrar =
      search (bind-IsAtomic, get_affiliation-IsReadOnly, do_transaction-IsAtomic)

  pub modify_affiliation-IsAtomic :
      (old new : String) (force is_registrar : Bool)
      → IsAtomic (modify_affiliation old new force is_registrar like)
  unfolding modify_affiliation
  modify_affiliation-IsAtomic old new force is_registrar =
      search
        (
          read_rules, bind-IsAtomic, get_affiliation-IsReadOnly, attempt-IsReadOnly,
          free-IsReadOnly, do_transaction-IsAtomic,
        )
        depth 9

  -- A renaming of an affiliation that reports an error, at whatever step and for whatever reason, has changed
  -- no table, although it goes through all affiliations below and their identities one by one.
  pub failed_modify_affiliation :
      (old new : String) (force is_registrar : Bool) (w : World) (e : Err)
      → (modify_affiliation old new force is_registrar like w).0 ≡ err e
      → (modify_affiliation old new force is_registrar like w).1.db ≡ w.db
  failed_modify_affiliation old new force is_registrar =
      (modify_affiliation-IsAtomic old new force is_registrar).at
