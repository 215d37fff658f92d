-- ===== src/KeyTree/Tests.antt =====
-- A tree whose keys are texts.
use Prim.Native.String
use fabric_ca_gm.Prelude.{String, ◌≡◌, refl, Option, some, List, [], ◌∷◌, map}
use fabric_ca_gm.Text.{join}
use fabric_ca_gm.KeyTree.{new_key_tree, get_keys, get_key, cached, path_of}
use fabric_ca_gm.KeyTree.Cache.{derived, get_keys-new_key_tree}

abbrev wrap : String → String → Option String
wrap parent name = some (String.◌++◌ parent (String.◌++◌ "(" (String.◌++◌ name ")")))

abbrev three_paths : List (List String)
three_paths = ("b" ∷ "a" ∷ []) ∷ ("a" ∷ []) ∷ ("b" ∷ "a" ∷ []) ∷ []

get_keys-new_key_tree_example :
    get_keys wrap three_paths (new_key_tree "root") ≡ map (derived wrap "root") three_paths
get_keys-new_key_tree_example =
    get_keys-new_key_tree wrap "root" three_paths
      (((refl, tt), ((refl, tt), tt)), (((refl, tt), tt), (((refl, tt), ((refl, tt), tt)), tt)))

-- With a slash in a name, two paths share an entry of the cache.
shared :
    get_keys wrap (("b" ∷ "a" ∷ []) ∷ ("a/b" ∷ []) ∷ []) (new_key_tree "root")
    ≡ some "root(a)(b)" ∷ some "root(a)(b)" ∷ []
unfolding get_keys get_key cached path_of join new_key_tree
shared = refl
