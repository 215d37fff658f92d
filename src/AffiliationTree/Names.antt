-- ===== src/AffiliationTree/Names.antt =====
-- The names in an answer that a tree is turned into.
use mathlib.Core.List.{append_assoc, append-nil}
use fabric_ca_gm.Prelude.{
  String, ◌≡◌, ◌≢◌, refl, sym, ap, subst, ◌∙◌, ◌↔◌, ◌⊎◌, inl, inr, none, some, List, [], ◌∷◌, ◌++◌,
  arith, Some,
}
use fabric_ca_gm.Text.{split, join}
use fabric_ca_gm.Text.Split.{split-cons}
use fabric_ca_gm.Text.Under.{Under}
use fabric_ca_gm.AffiliationTree.{
  Node, Children, node, nil, child, Info, Infos, info, cons, fill, fill_children, root_of, get_root,
  insert_all,
}
use fabric_ca_gm.AffiliationTree.Paths.{HasPath, HasBelow, insert_all-HasPath}

-- The answer gives a name, at any depth.
unfoldable mutual
  pub Gives : Info → String → Type 0
  Gives (info name ids is) x = (name ≡ x) ⊎ GivesAny is x

  pub GivesAny : Infos → String → Type 0
  GivesAny nil x = ⊥
  GivesAny (cons i is) x = Gives i x ⊎ GivesAny is x

step_in :
    (path : List String) (key : String) (q : List String)
    → (path ++ key ∷ []) ++ q ≡ path ++ key ∷ q
step_in path key q = append_assoc path (key ∷ []) q

-- A name that is given is that of a path in the tree.
mutual
  unfolding fill Gives HasPath

  path_of :
      (path : List String) (an : Node) (x : String)
      → Gives (fill path an) x
      → (q : List String) × HasPath an q × (join "." (path ++ q) ≡ x)
  path_of path (node cs) x (inl e) = ([], tt, ap (join ".") (append-nil path) ∙ e)
  path_of path (node cs) x (inr g) = let (key, q, h, e) = path_below path cs x g in (key ∷ q, h, e)

  path_below :
      (path : List String) (cs : Children) (x : String)
      → GivesAny (fill_children path cs) x
      → (key : String) × (q : List String) × HasBelow cs key q × (join "." (path ++ key ∷ q) ≡ x)
  path_below path nil x g = absurd g
  path_below path (child k n cs) x (inl g) =
      let (q, h, e) = path_of (path ++ k ∷ []) n x g in
      (k, q, inl (refl, h), ap (join ".") (sym (step_in path k q)) ∙ e)
  path_below path (child k n cs) x (inr g) =
      let (key, q, h, e) = path_below path cs x g in (key, q, inr h, e)

-- The name of a path in the tree is given.
mutual
  unfolding fill Gives HasPath

  given_path :
      (path : List String) (an : Node) (q : List String)
      → HasPath an q
      → Gives (fill path an) (join "." (path ++ q))
  given_path path (node cs) [] h = inl (ap (join ".") (sym (append-nil path)))
  given_path path (node cs) (key ∷ q) h = inr (given_below path cs key q h)

  given_below :
      (path : List String) (cs : Children) (key : String) (q : List String)
      → HasBelow cs key q
      → GivesAny (fill_children path cs) (join "." (path ++ key ∷ q))
  given_below path nil key q h = absurd h
  given_below path (child k n cs) key q (inl (e, h)) = inl (
      subst (Gives (fill (path ++ k ∷ []) n))
        (ap (join ".") (step_in path k q ∙ ap (λ c. path ++ c ∷ q) e))
        (given_path (path ++ k ∷ []) n q h))
  given_below path (child k n cs) key q (inr h) = inr (given_below path cs key q h)

-- GetRoot drops at most the empty name of the tree's own node.
root_of-Gives :
    (is : Infos) (i : Info) (x : String)
    → x ≢ ""
    → root_of "" is ≡ some i
    → Gives i x ↔ GivesAny is x
unfolding Gives
root_of-Gives nil i x ne h = absurd (cc h)
root_of-Gives (cons j nil) i x ne h = let e : j ≡ i = ground (arith, h) in rw (← e) (ground arith)
root_of-Gives (cons j (cons k is)) i x ne h =
    let e : info "" [] (cons j (cons k is)) ≡ i = ground (arith, h) in
    rw (← e) ((λ g. elim g [ inl empty ↦ absurd (ne (sym empty)) | inr below ↦ below ]), λ g. inr g)

given_down :
    (cs : Children) (x : String) (q : List String)
    → x ≢ ""
    → HasPath (node cs) q
    → join "." q ≡ x
    → GivesAny (fill_children [] cs) x
unfolding fill HasPath join
given_down cs x [] ne h e = absurd (ne (sym e))
given_down cs x (key ∷ q) ne h e =
    subst (GivesAny (fill_children [] cs)) e (given_below [] cs key q h)

get_root-Gives :
    (an : Node) (i : Info) (x : String)
    → x ≢ ""
    → get_root an ≡ some i
    → Gives i x ↔ ((q : List String) × HasPath an q × (join "." q ≡ x))
unfolding get_root fill HasPath join
get_root-Gives (node cs) i x ne h =
    let (to, from) = root_of-Gives (fill_children [] cs) i x ne h in
    (
      λ g. let (key, q, p, e) = path_below [] cs x (to g) in (key ∷ q, p, e),
      λ p. from (given_down cs x p.0 ne p.1 p.2),
    )

named_path :
    (names : List String) (q : List String) (x : String)
    → x ≢ ""
    → join "." q ≡ x
    → HasPath (node nil) q ⊎ Some (λ name. Under q (split b'.' name)) names
    → (r : List String) × Some (λ name. Under r (split b'.' name)) names × (join "." r ≡ x)
unfolding HasPath join
named_path names [] x ne e (inl p) = absurd (ne (sym e))
named_path names (key ∷ q) x ne e (inl p) = absurd p
named_path names q x ne e (inr s) = (q, s, e)

-- The answer made from a list of names gives, beside an empty name, exactly the paths that are a beginning of
-- the path of some name in the list.
pub get_root-insert_all :
    (names : List String) (i : Info) (x : String)
    → x ≢ ""
    → get_root (insert_all names (node nil)) ≡ some i
    → Gives i x
      ↔ ((q : List String) × Some (λ name. Under q (split b'.' name)) names × (join "." q ≡ x))
unfolding HasPath join
get_root-insert_all names i x ne h =
    let (to, from) = get_root-Gives (insert_all names (node nil)) i x ne h in
    (
      λ g.
          let (q, p, e) = to g in
          named_path names q x ne e ((insert_all-HasPath names (node nil) q).0 p),
      λ s. from (s.0, (insert_all-HasPath names (node nil) s.0).1 (inr s.1), s.2),
    )

rootless : (an : Node) → get_root an ≡ none → an ≡ node nil
unfolding get_root fill
rootless (node nil) h = refl
rootless (node (child k n nil)) h = absurd (cc h)
rootless (node (child k n (child j m cs))) h = absurd (cc h)

-- There is no answer exactly where there are no names: every other list of names has one.
pub get_root-none :
    (names : List String) → (get_root (insert_all names (node nil)) ≡ none) ↔ (names ≡ [])
unfolding get_root fill insert_all HasPath
get_root-none [] = ((λ h. refl), λ h. refl)
get_root-none (name ∷ names) = (
  λ h.
      let (p, ps, e) = split-cons b'.' name in
      let has =
        (insert_all-HasPath (name ∷ names) (node nil) (p ∷ [])).1 (inr (inl (rw e (refl, tt)))) in
      absurd
        (subst (λ an. HasPath an (p ∷ [])) (rootless (insert_all (name ∷ names) (node nil)) h) has),
  λ h. absurd (cc h),
)
