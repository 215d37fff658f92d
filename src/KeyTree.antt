-- ===== src/KeyTree.antt =====
-- lib/tcert/keytree.go: the tree of derived keys with its cache. The derivation of bccsp is a parameter; a
-- path is a list of names, the last one first.
pub mod Cache
mod Tests
use fabric_ca_gm.Prelude.{
  String, Bool, true, false, Option, none, some, List, [], ◌∷◌, ◌++◌, ◌==◌, if◌then◌else◌,
}
use fabric_ca_gm.Text.{join}

-- KeyTree, without the provider of the keys
pub record KeyTree (K : Type 0) : Type 0 where
  pub root_key : K
  pub keys : List (String × K)

-- The path from the root
unfoldable pub path_of : List String → List String
path_of [] = []
path_of (name ∷ up) = path_of up ++ name ∷ []

module _ {K : Type 0} where
  -- NewKeyTree
  unfoldable pub new_key_tree : K → KeyTree K
  new_key_tree root_key = record { root_key = root_key; keys = [] }

  -- m.keys[path]
  unfoldable pub cached : String → List (String × K) → Option K
  cached path [] = none
  cached path ((p, k) ∷ keys) = let rest = cached path keys in if p == path then some k else rest

  module _ (derive : K → String → Option K) where
    -- The steps after the parent's key is known: deriveChildKey, and the entry in the cache
    abbrev pub derive_child_key : String → String → Option K → KeyTree K → Option K × KeyTree K
    derive_child_key path name none tree = (none, tree)
    derive_child_key path name (some parent) tree = elim (derive parent name) [
      | none ↦ (none, tree)
      | some key ↦ (some key, record tree { keys = (path, key) ∷ tree.keys })
    ]

    -- GetKey
    unfoldable pub get_key : List String → KeyTree K → Option K × KeyTree K
    get_key [] tree = (some tree.root_key, tree)
    get_key (name ∷ up) tree = elim (cached (join "/" (path_of (name ∷ up))) tree.keys) [
      | some key ↦ (some key, tree)
      | none ↦
          let parent = get_key up tree in
          derive_child_key (join "/" (path_of (name ∷ up))) name parent.0 parent.1
    ]

    -- Calls one after another, and their results
    unfoldable pub get_keys : List (List String) → KeyTree K → List (Option K)
    get_keys [] tree = []
    get_keys (path ∷ paths) tree = let found = get_key path tree in found.0 ∷ get_keys paths found.1
