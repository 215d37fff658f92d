-- ===== src/AffiliationApi.antt =====
-- lib/serveraffiliations.go: the answers of the affiliations endpoint. The status of a success, which a POST
-- sets to 201, is left out.
pub mod Handlers
pub mod Deletion
pub mod Hierarchy
pub mod Requests
pub mod Sequences
mod Tests
use fabric_ca_gm.Prelude.{
  ℕ, zero, suc, ◌+◌, ◌-◌, String, Bool, true, false, not, ◌&&◌, Option, none, some, List, [], ◌∷◌,
  ◌++◌, map, ◌==◌, eqb, if◌then◌else◌, select, any, length, is_empty,
}
use Prim.Native.String
use fabric_ca_gm.Text.{split, has_prefix}
use fabric_ca_gm.Result.{Err, Result, ok, err, plain}
use fabric_ca_gm.World.{UserRecord, AffiliationRecord}
use fabric_ca_gm.Registry.{get_attributes, get_user_affiliation}
use fabric_ca_gm.Affiliations.{TxResult}
use fabric_ca_gm.AffiliationTree.{IdentityInfo, Info, Infos, info, nil, cons}

-- isChildAffiliation
unfoldable pub is_child_affiliation : String → String → Bool
is_child_affiliation name child =
    has_prefix child (String.◌++◌ name ".")
    && eqb (length (split b'.' child)) (length (split b'.' name) + 1)

-- getRootAffiliationNames: the names of which no listed affiliation is the parent
unfoldable pub get_root_affiliation_names : List AffiliationRecord → List String
get_root_affiliation_names affiliations =
    map (λ a. a.name)
      (select (λ a. not (any (λ parent. is_child_affiliation parent.name a.name) affiliations))
        affiliations)

-- getIDInfo
unfoldable pub get_id_info : UserRecord → IdentityInfo
get_id_info u = record {
  id = u.name;
  type = u.type;
  affiliation = get_user_affiliation u;
  attributes = get_attributes u.attributes;
  max_enrollments = u.max_enrollments;
}

-- The identities of an affiliation in the answer
unfoldable pub identities_at : String → List UserRecord → List IdentityInfo
identities_at name users = map get_id_info (select (λ u. get_user_affiliation u == name) users)

-- The first child among the first n entries, with its place
unfoldable pub find_child : String → ℕ → List AffiliationRecord → Option (ℕ × AffiliationRecord)
find_child name zero affiliations = none
find_child name (suc n) [] = none
find_child name (suc n) (a ∷ affiliations) =
    let rest = find_child name n affiliations in
    if is_child_affiliation name a.name
    then some (0, a)
    else elim rest [ none ↦ none | some found ↦ some (suc found.0, found.1) ]

-- append(affiliations[:idx], affiliations[idx+1:]...) on the array of a slice of length n: the entries behind
-- idx move down, and the last one of the slice stays where it is too.
unfoldable pub delete_at : ℕ → ℕ → List AffiliationRecord → List AffiliationRecord
delete_at idx zero affiliations = affiliations
delete_at idx (suc n) [] = []
delete_at (suc idx) (suc n) (a ∷ affiliations) = a ∷ delete_at idx n affiliations
delete_at zero (suc n) (a ∷ []) = a ∷ []
delete_at zero (suc n) (a ∷ b ∷ affiliations) =
    let rest = delete_at 0 n (b ∷ affiliations) in
    if eqb n 0 then a ∷ b ∷ affiliations else b ∷ rest

module _ (users : List UserRecord) where
  -- The loop of fillAffiliationInfo over a slice of the array; calls share the array.
  unfoldable pub fill_children :
      ℕ → String → List AffiliationRecord → Infos × List AffiliationRecord
  fill_children zero name affiliations = (nil, affiliations)
  fill_children (suc n) name affiliations = elim (find_child name (suc n) affiliations) [
    | none ↦ (nil, affiliations)
    | some found ↦
        let below = fill_children n found.1.name (delete_at found.0 (suc n) affiliations) in
        let more = fill_children n name below.1 in
        (cons (info found.1.name (identities_at found.1.name users) below.0) more.0, more.1)
  ]

  -- fillAffiliationInfo
  unfoldable pub fill_affiliation_info : String → List AffiliationRecord → Info
  fill_affiliation_info name affiliations =
      info name (identities_at name users) (fill_children (length affiliations) name affiliations).0

abbrev pub no_info : Info
no_info = info "" [] nil

abbrev response_of : List UserRecord → List AffiliationRecord → List String → Result Info
response_of users affiliations [] = ok no_info
response_of users affiliations (name ∷ []) = ok (fill_affiliation_info users name affiliations)
response_of users affiliations (name ∷ other ∷ names) = err plain

-- getResponse
unfoldable pub get_response : TxResult → Result Info
get_response result =
    response_of result.identities result.affiliations
      (get_root_affiliation_names result.affiliations)
