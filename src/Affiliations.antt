-- ===== src/Affiliations.antt =====
-- lib/dbaccessor.go: the affiliations table.
pub mod Reads
pub mod Remove
pub mod Removed
pub mod Rename
pub mod Lookup
pub mod Closed
pub mod Failure
pub mod Tests
use Prim.Native.String
use fabric_ca_gm.Text.{has_prefix}
use fabric_ca_gm.Prelude.{
  ◌≡◌, ◌||◌, ℕ, String, Bool, true, false, not, List, [], ◌∷◌, ◌++◌, ◌==◌, if◌then◌else◌, select,
  any,
}
use fabric_ca_gm.Result.{Err, Result, ok, err, plain}
use fabric_ca_gm.Exec.{failing_as, pure, ◌>>=◌, ◌>>◌, require}
use fabric_ca_gm.World.{
  UserRecord, AffiliationRecord, Db, World, M, statement, query, get_row, get_error,
}

abbrev pub called : String → AffiliationRecord → Bool
called name a = a.name == name

-- GetAffiliation
unfoldable pub get_affiliation : String → M AffiliationRecord
get_affiliation name = failing_as get_error (get_row (λ db. select (called name) db.affiliations))

-- The INSERT, under the UNIQUE constraint on the name: the table, whether a row was added or not
unfoldable pub insert_row : AffiliationRecord → List AffiliationRecord → List AffiliationRecord
insert_row a rows = if any (called a.name) rows then rows else rows ++ a ∷ []

-- `value LIKE 'name.%'` of the database: it holds at least of the values that begin with the name and a dot, and
-- where it holds of a value, of every longer one. It may hold of more, since the driver's LIKE looks at case and at wildcards in the name in its own way.
pub record Like : Type 0 where
  pub below : String → String → Bool
  pub below_prefix :
      (name value : String)
      → has_prefix value (String.◌++◌ name ".") ≡ true
      → below name value ≡ true
  pub below_longer :
      (name value more : String)
      → below name value ≡ true
      → below name (String.◌++◌ value more) ≡ true

module _ (like : Like) where
  -- GetAllAffiliations; the rows are read at once.
  unfoldable pub get_all_affiliations : String → M (List AffiliationRecord)
  get_all_affiliations name =
      if name == ""
      then query (λ db. db.affiliations)
      else query (λ db. select (λ a. called name a || like.below name a.name) db.affiliations)

-- spi.DbTxResult; its objects have the fields of the rows.
pub record TxResult : Type 0 where
  pub affiliations : List AffiliationRecord
  pub identities : List UserRecord

-- InsertAffiliation: a violated UNIQUE constraint is logged and is no error.
unfoldable pub insert_affiliation : String → String → ℕ → M (Unit {0})
insert_affiliation name prekey level = statement (λ db. (
  tt,
  record db {
    affiliations =
        insert_row (record { name = name; prekey = prekey; level = level }) db.affiliations;
  },
))
