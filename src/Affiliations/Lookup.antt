-- ===== src/Affiliations/Lookup.antt =====
-- GetAffiliationTree of lib/dbaccessor.go.
use fabric_ca_gm.Prelude.{String, ◌||◌, [], ◌==◌, if◌then◌else◌, select}
use fabric_ca_gm.Result.{new_http_err, replaced}
use fabric_ca_gm.Exec.{pure, failing_as, ◌>>=◌, ◌>>◌}
use fabric_ca_gm.World.{M, query, do_transaction}
use fabric_ca_gm.Affiliations.{Like, TxResult, called, get_affiliation}

module _ (like : Like) (name : String) where
  -- getAffiliationTreeTx. ErrGettingAffiliation is 16.
  unfoldable pub get_affiliation_tree_tx : M TxResult
  get_affiliation_tree_tx = do
    all_affs ← failing_as (replaced (new_http_err 500 16)) (
        query (λ db.
          if name == ""
          then db.affiliations
          else select (λ a. like.below name a.name || called name a) db.affiliations))
    pure (record { affiliations = all_affs; identities = [] })

  -- GetAffiliationTree
  unfoldable pub get_affiliation_tree : M TxResult
  get_affiliation_tree =
      (if name == "" then pure tt else (get_affiliation name >> pure tt))
      >> do_transaction get_affiliation_tree_tx
