-- ===== src/AffiliationTree.antt =====
-- lib/serveraffiliations.go: `affiliationNode`, the tree in which the names of affiliations are collected,
-- and the tree of an answer, api.AffiliationInfo. Go's map of children is a list of keys and nodes in the
-- order of insertion; the order in which Go visits a map is open.
pub mod Paths
pub mod Names
mod Tests
use Prim.Native.String
use fabric_ca_gm.Prelude.{
  String, Bool, true, false, ◌&&◌, ◌||◌, Option, none, some, List, [], ◌∷◌, ◌++◌, ◌==◌,
  if◌then◌else◌,
}
use fabric_ca_gm.Prelude.Int.{ℤ}
use fabric_ca_gm.Text.{split, join}
use fabric_ca_gm.Attr.{Attribute}

mutual
  pub data Node : Type 0 where
    node : Children → Node

  pub data Children : Type 0 where
    nil : Children
    child : String → Node → Children → Children

-- api.IdentityInfo
pub record IdentityInfo : Type 0 where
  pub id : String
  pub type : String
  pub affiliation : String
  pub attributes : List Attribute
  pub max_enrollments : ℤ

-- api.AffiliationInfo: a name, identities and the affiliations below
mutual
  pub data Info : Type 0 where
    info : String → List IdentityInfo → Infos → Info

  pub data Infos : Type 0 where
    nil : Infos
    cons : Info → Infos → Infos

abbrev pub children : Node → Children
children (node cs) = cs

-- an.children[key], where a missing child is a new node
unfoldable pub child_of : String → Children → Node
child_of key nil = node nil
child_of key (child k n cs) = let rest = child_of key cs in if k == key then n else rest

-- The child of a key is replaced, or added.
unfoldable pub set_child : String → Node → Children → Children
set_child key m nil = child key m nil
set_child key m (child k n cs) =
    let rest = set_child key m cs in if k == key then child k m cs else child k n rest

-- insertByPath
unfoldable pub insert_by_path : List String → Node → Node
insert_by_path [] an = an
insert_by_path (key ∷ path) an =
    node (set_child key (insert_by_path path (child_of key (children an))) (children an))

-- insertByName
unfoldable pub insert_by_name : String → Node → Node
insert_by_name name = insert_by_path (split b'.' name)

-- fill
unfoldable mutual
  pub fill : List String → Node → Info
  fill path (node cs) = info (join "." path) [] (fill_children path cs)

  pub fill_children : List String → Children → Infos
  fill_children path nil = nil
  fill_children path (child key n cs) = cons (fill (path ++ key ∷ []) n) (fill_children path cs)

-- The cases of GetRoot: no result without children, the only child, or all under an empty name
abbrev pub root_of : String → Infos → Option Info
root_of name nil = none
root_of name (cons i nil) = some i
root_of name (cons i (cons j is)) = some (info name [] (cons i (cons j is)))

abbrev pub root_of_filled : Info → Option Info
root_of_filled (info name ids is) = root_of name is

-- GetRoot
unfoldable pub get_root : Node → Option Info
get_root an = root_of_filled (fill [] an)

-- The loop of getAffiliations over the rows
unfoldable pub insert_all : List String → Node → Node
insert_all [] an = an
insert_all (name ∷ names) an = insert_all names (insert_by_name name an)
