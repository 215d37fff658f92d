-- ===== src/AffiliationTree/Paths.antt =====
-- The tree against a plain view of it: the set of the paths that it holds.
use fabric_ca_gm.Prelude.{
  String, ◌≡◌, ◌↔◌, ◌⊎◌, inl, inr, List, [], ◌∷◌, ◌==◌, arith, eq_iff, Bool-cases, Some,
}
use fabric_ca_gm.Text.{split}
use fabric_ca_gm.Text.Under.{Under}
use fabric_ca_gm.AffiliationTree.{
  Node, Children, node, nil, child, child_of, set_child, insert_by_path, insert_by_name, insert_all,
}

-- The tree holds a path: there is a way down along its keys.
unfoldable mutual
  pub HasPath : Node → List String → Type 0
  HasPath (node cs) [] = Unit
  HasPath (node cs) (key ∷ path) = HasBelow cs key path

  pub HasBelow : Children → String → List String → Type 0
  HasBelow nil key path = ⊥
  HasBelow (child k n cs) key path = ((k ≡ key) × HasPath n path) ⊎ HasBelow cs key path

module _ (key : String) (m : Node) (path : List String) where
  -- The new child holds the paths of the old one and the beginnings of one path.
  abbrev Extends : Node → Type 0
  Extends n = (q : List String) → HasPath m q ↔ (HasPath n q ⊎ Under q path)

  set_child-HasBelow :
      (cs : Children) (k : String) (q : List String)
      → Extends (child_of key cs)
      → HasBelow (set_child key m cs) k q ↔ (HasBelow cs k q ⊎ ((k ≡ key) × Under q path))
  unfolding set_child child_of HasPath
  set_child-HasBelow nil k [] ext = ground (arith, ext [])
  set_child-HasBelow nil k (j ∷ q) ext = ground (arith, ext (j ∷ q))
  set_child-HasBelow (child j n cs) k q ext = elim (Bool-cases (j == key)) [
    | inl same ↦ rw same (ground (arith, (rw same at ext) q, eq_iff j key))
    | inr other ↦ rw other (ground (arith, set_child-HasBelow cs k q (rw other at ext)))
  ]

HasPath-nil : (an : Node) → HasPath an []
unfolding HasPath
HasPath-nil (node cs) = tt

-- Inserting a path adds exactly the path and its beginnings.
insert_by_path-HasPath :
    (path : List String) (an : Node) (q : List String)
    → HasPath (insert_by_path path an) q ↔ (HasPath an q ⊎ Under q path)
unfolding insert_by_path HasPath
insert_by_path-HasPath [] an [] = ground (arith, HasPath-nil an)
insert_by_path-HasPath [] an (k ∷ q) = ground arith
insert_by_path-HasPath (key ∷ path) (node cs) [] = ground (arith, HasPath-nil (node cs))
insert_by_path-HasPath (key ∷ path) (node cs) (k ∷ q) = ground (
  arith,
  set_child-HasBelow key (insert_by_path path (child_of key cs)) path cs k q
      (insert_by_path-HasPath path (child_of key cs)),
)

-- The tree built from names holds exactly the paths that are a beginning of the path of some name, beside
-- those that it held.
pub insert_all-HasPath :
    (names : List String) (an : Node) (q : List String)
    → HasPath (insert_all names an) q
      ↔ (HasPath an q ⊎ Some (λ name. Under q (split b'.' name)) names)
unfolding insert_all insert_by_name
insert_all-HasPath [] an q = ground arith
insert_all-HasPath (name ∷ names) an q = ground (
  arith,
  insert_all-HasPath names (insert_by_name name an) q,
  insert_by_path-HasPath (split b'.' name) an q,
)
