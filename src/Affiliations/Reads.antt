-- ===== src/Affiliations/Reads.antt =====
-- Looking up an affiliation.
use fabric_ca_gm.Prelude.{String, ◌≡◌, List, eq_iff, select, In}
use fabric_ca_gm.Result.{ok}
use fabric_ca_gm.Exec.Rules.{failing_as-eq-ok}
use fabric_ca_gm.World.{AffiliationRecord, World, get_row, get_error}
use fabric_ca_gm.World.Statements.{get_row-eq-ok}
use fabric_ca_gm.World.ReadOnly.{IsReadOnly, get_row-IsReadOnly, failing_as-IsReadOnly}
use fabric_ca_gm.Registry.Rows.{In-of-select}
use fabric_ca_gm.Affiliations.{called, get_affiliation}

-- An affiliation with the name stands in the table.
abbrev pub IsListed : String → List AffiliationRecord → Type 0
IsListed name rows = (a : AffiliationRecord) × In a rows × (a.name ≡ name)

pub get_affiliation-IsListed :
    (name : String) (w w' : World) (a : AffiliationRecord)
    → get_affiliation name w ≡ (ok a, w')
    → IsListed name w.db.affiliations
unfolding get_affiliation
get_affiliation-IsListed name w w' a h =
    let found = get_row (λ db. select (called name) db.affiliations) in
    let (i, e) = In-of-select (called name) a w.db.affiliations (
      get_row-eq-ok (λ db. select (called name) db.affiliations) w w' a
        (failing_as-eq-ok get_error found w w' a h)) in
    (a, i, (eq_iff a.name name).0 e)

pub get_affiliation-IsReadOnly : (name : String) → IsReadOnly (get_affiliation name)
unfolding get_affiliation
get_affiliation-IsReadOnly name =
    failing_as-IsReadOnly get_error (get_row (λ db. select (called name) db.affiliations))
      (get_row-IsReadOnly (λ db. select (called name) db.affiliations))
