-- ===== src/KeyTree/Cache.antt =====
-- The cache of the key tree against derivation from the root.
use fabric_ca_gm.Prelude.{
  String, ◌≡◌, refl, sym, ap, ◌∙◌, inl, inr, Option, none, some, List, [], ◌∷◌, ◌++◌, map, ◌==◌,
  arith, eq_iff, Bool-cases, Option-cases, All, All-append,
}
use fabric_ca_gm.Text.{split, join}
use fabric_ca_gm.Text.Joined.{Free, split-join}
use fabric_ca_gm.KeyTree.{
  KeyTree, path_of, new_key_tree, cached, derive_child_key, get_key, get_keys,
}

-- The names of a path have no slash.
abbrev pub Plain : List String → Type 0
Plain path = All (Free b'/') path

path_of-Plain : (path : List String) → Plain path → Plain (path_of path)
unfolding path_of
path_of-Plain [] f = tt
path_of-Plain (name ∷ up) (f, fs) =
    All-append (Free b'/') (path_of up) (name ∷ []) (path_of-Plain up fs) (f, tt)

split-join_snoc :
    (ps : List String) (p : String)
    → Plain (ps ++ p ∷ [])
    → split b'/' (join "/" (ps ++ p ∷ [])) ≡ ps ++ p ∷ []
split-join_snoc [] p f = split-join "/" p [] f
split-join_snoc (q ∷ ps) p f = split-join "/" q (ps ++ p ∷ []) f

snoc_inj : (xs ys : List String) (x y : String) → xs ++ x ∷ [] ≡ ys ++ y ∷ [] → (xs ≡ ys) × (x ≡ y)
snoc_inj [] [] x y h = (refl, ground (arith, h))
snoc_inj [] (b ∷ []) x y h = absurd (cc h)
snoc_inj [] (b ∷ c ∷ ys) x y h = absurd (cc h)
snoc_inj (a ∷ []) [] x y h = absurd (cc h)
snoc_inj (a ∷ c ∷ xs) [] x y h = absurd (cc h)
snoc_inj (a ∷ xs) (b ∷ ys) x y h =
    let rest : xs ++ x ∷ [] ≡ ys ++ y ∷ [] = ground (arith, h) in
    let first : a ≡ b = ground (arith, h) in
    let (e, f) = snoc_inj xs ys x y rest in (ground (arith, first, e), f)

path_of_inj : (a b : List String) → path_of a ≡ path_of b → a ≡ b
unfolding path_of
path_of_inj [] [] h = refl
path_of_inj [] (n ∷ up) h = absurd (no_snoc (path_of up) n h)
  where
    no_snoc : (ps : List String) (p : String) → [] ≡ ps ++ p ∷ [] → ⊥
    no_snoc [] p k = cc k
    no_snoc (q ∷ ps) p k = cc k
path_of_inj (m ∷ down) [] h = absurd (no_snoc (path_of down) m h)
  where
    no_snoc : (ps : List String) (p : String) → ps ++ p ∷ [] ≡ [] → ⊥
    no_snoc [] p k = cc k
    no_snoc (q ∷ ps) p k = cc k
path_of_inj (m ∷ down) (n ∷ up) h =
    let (e, f) = snoc_inj (path_of down) (path_of up) m n h in
    let rest = path_of_inj down up e in ground (arith, rest, f)

-- Two plain paths share a text only if they are the same.
join-path_of_inj :
    (m n : String) (down up : List String)
    → Plain (m ∷ down)
    → Plain (n ∷ up)
    → join "/" (path_of (m ∷ down)) ≡ join "/" (path_of (n ∷ up))
    → m ∷ down ≡ n ∷ up
unfolding path_of
join-path_of_inj m n down up f g h = path_of_inj (m ∷ down) (n ∷ up) (
    sym (split-join_snoc (path_of down) m (path_of-Plain (m ∷ down) f))
    ∙ ap (split b'/') h
    ∙ split-join_snoc (path_of up) n (path_of-Plain (n ∷ up) g))

module _ {K : Type 0} (derive : K → String → Option K) where
  abbrev pub derive_from : Option K → String → Option K
  derive_from none name = none
  derive_from (some parent) name = derive parent name

  -- The key at a path, derived from the root's name by name
  unfoldable pub derived : K → List String → Option K
  derived root [] = some root
  derived root (name ∷ up) = derive_from (derived root up) name

  -- What the cache has for a plain path is its key.
  pub record Sound (root : K) (tree : KeyTree K) : Type 0 where
    pub root_key : tree.root_key ≡ root
    pub keys :
        (name : String) (up : List String) (k : K)
        → Plain (name ∷ up)
        → cached (join "/" (path_of (name ∷ up))) tree.keys ≡ some k
        → derived root (name ∷ up) ≡ some k

  new_key_tree-Sound : (root : K) → Sound root (new_key_tree root)
  unfolding new_key_tree cached
  new_key_tree-Sound root = record { root_key = refl; keys = λ name up k f h. absurd (cc h) }

  extended :
      (root : K) (tree : KeyTree K) (name : String) (up : List String) (key : K)
      → Sound root tree
      → Plain (name ∷ up)
      → derived root (name ∷ up) ≡ some key
      → Sound root (record tree { keys = (join "/" (path_of (name ∷ up)), key) ∷ tree.keys })
  unfolding cached
  extended root tree name up key s f e = record {
    root_key = s.root_key;
    keys = λ n u k g h.
        elim (Bool-cases (join "/" (path_of (name ∷ up)) == join "/" (path_of (n ∷ u)))) [
          | inl same ↦
              let it =
                join-path_of_inj name n up u f g
                  ((eq_iff (join "/" (path_of (name ∷ up))) (join "/" (path_of (n ∷ u)))).0 same) in
              sym (ap (derived root) it) ∙ e ∙ rw same at h
          | inr other ↦ s.keys n u k g (rw other at h)
        ];
  }

  derive_child_key-Sound :
      (root : K) (parent : Option K) (tree : KeyTree K) (name : String) (up : List String)
      → Plain (name ∷ up)
      → parent ≡ derived root up
      → Sound root tree
      → ((derive_child_key derive (join "/" (path_of (name ∷ up))) name parent tree).0
          ≡ derived root (name ∷ up))
        × Sound root (derive_child_key derive (join "/" (path_of (name ∷ up))) name parent tree).1
  unfolding derived
  derive_child_key-Sound root none tree name up f e s = (ap (λ o. derive_from o name) e, s)
  derive_child_key-Sound root (some parent) tree name up f e s =
      elim (Option-cases (derive parent name)) [
        | inl fails ↦ rw (fails, derive_child_key) (sym fails ∙ ap (λ o. derive_from o name) e, s)
        | inr (key, gives) ↦
            let it : derived root (name ∷ up) ≡ some key =
              sym (ap (λ o. derive_from o name) e) ∙ gives in
            rw (gives, derive_child_key) (sym it, extended root tree name up key s f it)
      ]

  -- One call: its result is the derived key, and the cache stays right.
  get_key-Sound :
      (root : K) (path : List String) (tree : KeyTree K)
      → Plain path
      → Sound root tree
      → ((get_key derive path tree).0 ≡ derived root path) × Sound root (get_key derive path tree).1
  unfolding get_key derived
  get_key-Sound root [] tree f s = (ap some s.root_key, s)
  get_key-Sound root (name ∷ up) tree f s =
      elim (Option-cases (cached (join "/" (path_of (name ∷ up))) tree.keys)) [
        | inr (key, found) ↦ rw (found, get_key) (sym (s.keys name up key f found), s)
        | inl missing ↦
            let (e, s') = get_key-Sound root up tree f.1 s in
            rw (missing, get_key)
              (derive_child_key-Sound root (get_key derive up tree).0 (get_key derive up tree).1
                name up f e s')
      ]

  get_keys-Sound :
      (root : K) (paths : List (List String)) (tree : KeyTree K)
      → All Plain paths
      → Sound root tree
      → get_keys derive paths tree ≡ map (derived root) paths
  unfolding get_keys
  get_keys-Sound root [] tree fs s = refl
  get_keys-Sound root (path ∷ paths) tree (f, fs) s =
      let (e, s') = get_key-Sound root path tree f s in
      λ i. e i ∷ get_keys-Sound root paths (get_key derive path tree).1 fs s' i

  -- Whatever keys are asked of a new tree, in whatever order and as often as one likes, the answers are those of
  -- the derivation from the root's key without a cache, provided that no name in a path has a slash.
  pub get_keys-new_key_tree :
      (root : K) (paths : List (List String))
      → All Plain paths
      → get_keys derive paths (new_key_tree root) ≡ map (derived root) paths
  get_keys-new_key_tree root paths fs =
      get_keys-Sound root paths (new_key_tree root) fs (new_key_tree-Sound root)
