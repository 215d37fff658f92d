-- ===== src/AffiliationTree/Tests.antt =====
-- The tree of three affiliations.
use fabric_ca_gm.Prelude.{String, ◌≡◌, ◌≢◌, refl, ◌↔◌, ◌⊎◌, none, some, List, [], ◌∷◌, Some, eq_iff}
use fabric_ca_gm.Text.{split, join}
use fabric_ca_gm.Text.Under.{Under}
use fabric_ca_gm.AffiliationTree.{
  node, nil, info, cons, Info, child_of, set_child, fill, get_root, insert_by_path, insert_by_name,
  insert_all,
}
use fabric_ca_gm.AffiliationTree.Paths.{HasPath, insert_all-HasPath}
use fabric_ca_gm.AffiliationTree.Names.{Gives, get_root-insert_all, get_root-none}

abbrev three_names : List String
three_names = "org1" ∷ "org2.sales" ∷ "org1.it" ∷ []

insert_all-HasPath_example : HasPath (insert_all three_names (node nil)) ("org2" ∷ []) ↔ (
    HasPath (node nil) ("org2" ∷ [])
    ⊎ Some (λ name. Under ("org2" ∷ []) (split b'.' name)) three_names)
insert_all-HasPath_example = insert_all-HasPath three_names (node nil) ("org2" ∷ [])

abbrev answer : Info
answer = info "" [] (
    cons (info "org1" [] (cons (info "org1.it" [] nil) nil))
      (cons (info "org2" [] (cons (info "org2.sales" [] nil) nil)) nil))

answers : get_root (insert_all three_names (node nil)) ≡ some answer
unfolding get_root fill insert_all insert_by_name insert_by_path set_child child_of split join
answers = refl

named : ◌≢◌ {A = String} "org2" ""
named = λ e. absurd (cc ((eq_iff "org2" "").1 e))

get_root-insert_all_example : Gives answer "org2" ↔ (
    (q : List String) × Some (λ name. Under q (split b'.' name)) three_names
    × (join "." q ≡ "org2"))
get_root-insert_all_example = get_root-insert_all three_names answer "org2" named answers

get_root-none_example : (get_root (insert_all three_names (node nil)) ≡ none) ↔ (three_names ≡ [])
get_root-none_example = get_root-none three_names
