-- ===== src/Affiliations/Closed.antt =====
-- The hierarchy of affiliations: with every affiliation, the one above it is listed.
use Prim.Native.String
use text.Mathlib.TextLemmas.{append_assoc}
use fabric_ca_gm.Prelude.{
  String, ◌≡◌, refl, sym, ap, subst, ◌∙◌, ◌⊎◌, inl, inr, true, not, List, [], ◌∷◌, ◌++◌, arith,
  eq_iff, Bool-cases, any, In, In-append, In-any,
}
use fabric_ca_gm.Text.{split, join}
use fabric_ca_gm.Text.Split.{split-cons, join-split}
use fabric_ca_gm.Text.Joined.{split-eq, join-snoc}
use fabric_ca_gm.Text.Prefixes.{has_prefix_self}
use fabric_ca_gm.World.{AffiliationRecord}
use fabric_ca_gm.Registry.Rows.{In-of-select, In-select}
use fabric_ca_gm.Affiliations.{Like, called, insert_row}
use fabric_ca_gm.Affiliations.Reads.{IsListed}
use fabric_ca_gm.Affiliations.Removed.{gone, left}

-- The path of a name is that of another with one more part.
abbrev pub Above : String → String → Type 0
Above up name = (last : String) × (split b'.' name ≡ split b'.' up ++ last ∷ [])

pub record ParentClosed (rows : List AffiliationRecord) : Type 0 where
  pub parent :
      (a : AffiliationRecord) (up : String) → In a rows → Above up a.name → IsListed up rows

pub snoc-eq : {A : Type 0} (xs ys : List A) (x y : A) → xs ++ x ∷ [] ≡ ys ++ y ∷ [] → xs ≡ ys
snoc-eq [] [] x y h = refl
snoc-eq [] (b ∷ []) x y h = absurd (cc h)
snoc-eq [] (b ∷ c ∷ ys) x y h = absurd (cc h)
snoc-eq (a ∷ []) [] x y h = absurd (cc h)
snoc-eq (a ∷ c ∷ xs) [] x y h = absurd (cc h)
snoc-eq (a ∷ xs) (b ∷ ys) x y h =
    let rest : xs ++ x ∷ [] ≡ ys ++ y ∷ [] = ground (arith, h) in
    let first : a ≡ b = ground (arith, h) in ground (arith, first, snoc-eq xs ys x y rest)

-- No name has two above it, and one with a single part has none.
pub Above-one : (up other name : String) → Above up name → Above other name → up ≡ other
Above-one up other name (l, e) (m, f) =
    split-eq "." up other (snoc-eq (split b'.' up) (split b'.' other) l m (sym e ∙ f))

pub alone : (part up : String) → split b'.' part ≡ part ∷ [] → Above up part → ⊥
alone part up e (last, h) =
    let (p, ps, f) = split-cons b'.' up in no_part ps p (sym e ∙ h ∙ ap (λ r. r ++ last ∷ []) f)
  where
    no_part : (ps : List String) (p : String) → part ∷ [] ≡ (p ∷ ps) ++ last ∷ [] → ⊥
    no_part [] p k = cc k
    no_part (q ∷ qs) p k = cc k

IsListed-append :
    (up : String) (rows more : List AffiliationRecord)
    → IsListed up rows
    → IsListed up (rows ++ more)
IsListed-append up rows more (b, i, e) = (b, (In-append b rows more).1 (inl i), e)

-- Every name stays listed, and the new one is.
pub insert_row-IsListed :
    (a : AffiliationRecord) (rows : List AffiliationRecord) (up : String)
    → (up ≡ a.name) ⊎ IsListed up rows
    → IsListed up (insert_row a rows)
unfolding insert_row
insert_row-IsListed a rows up h = elim (Bool-cases (any (called a.name) rows)) [
  | inl there ↦ rw there (elim h [
    | inl same ↦
        let (b, i, e) = In-any (called a.name) rows there in
        (b, i, (eq_iff b.name a.name).0 e ∙ sym same)
    | inr listed ↦ listed
  ])
  | inr free ↦ rw free (elim h [
    | inl same ↦ (a, (In-append a rows (a ∷ [])).1 (inr (inl refl)), sym same)
    | inr listed ↦ IsListed-append up rows (a ∷ []) listed
  ])
]

insert_row-In :
    (a b : AffiliationRecord) (rows : List AffiliationRecord)
    → In b (insert_row a rows)
    → In b rows ⊎ (b ≡ a)
unfolding insert_row
insert_row-In a b rows i = elim (Bool-cases (any (called a.name) rows)) [
  | inl there ↦ inl (rw there at i)
  | inr free ↦ ground (arith, (In-append b rows (a ∷ [])).0 (rw free at i))
]

-- An affiliation is added below a listed one, or at the top.
pub insert_row-ParentClosed :
    (a : AffiliationRecord) (rows : List AffiliationRecord)
    → ParentClosed rows
    → ((up : String) → Above up a.name → IsListed up rows)
    → ParentClosed (insert_row a rows)
insert_row-ParentClosed a rows closed new = record {
  parent = λ b up i above. insert_row-IsListed a rows up (
      inr (elim (insert_row-In a b rows i) [
        | inl old ↦ closed.parent b up old above
        | inr same ↦ new up (subst (λ c. Above up c.name) same above)
      ]));
}

-- A name below another begins with it and a dot.
Above-append :
    (up name : String)
    → Above up name
    → (more : String) × (name ≡ String.◌++◌ (String.◌++◌ up ".") more)
Above-append up name (last, h) =
    let (p, ps, e) = split-cons b'.' up in
    (
      last,
      sym (join-split "." name)
          ∙ ap (join ".") (h ∙ ap (λ r. r ++ last ∷ []) e)
          ∙ join-snoc "." p ps last
          ∙ ap (λ s. String.◌++◌ s (String.◌++◌ "." last))
              (ap (join ".") (sym e) ∙ join-split "." up)
          ∙ sym (append_assoc up "." last),
    )

module _ (like : Like) (name : String) where
  gone_below :
      (a b : AffiliationRecord)
      → Above b.name a.name
      → gone like name b ≡ true
      → gone like name a ≡ true
  gone_below a b above h =
      let (more, e) = Above-append b.name a.name above in
      elim (Bool-cases (called name b)) [
        | inl own ↦
            let starts =
              like.below_prefix b.name a.name
                (rw e (has_prefix_self (String.◌++◌ b.name ".") more)) in
            ground
              (arith, subst (λ n. like.below n a.name ≡ true) ((eq_iff b.name name).0 own) starts)
        | inr other ↦
            let longer =
              like.below_longer name b.name (String.◌++◌ "." more) (ground (arith, h, other)) in
            ground (
              arith,
              subst (λ n. like.below name n ≡ true) (sym (e ∙ append_assoc b.name "." more)) longer,
            )
      ]

  -- What a deletion leaves.
  pub left-ParentClosed :
      (rows : List AffiliationRecord) → ParentClosed rows → ParentClosed (left like name rows)
  left-ParentClosed rows closed = record {
    parent = λ a up i above.
        let (j, kept) = In-of-select (λ x. not (gone like name x)) a rows i in
        let (b, k, e) = closed.parent a up j above in
        (
          b,
          In-select (λ x. not (gone like name x)) b rows k
              (stays a b (subst (λ n. Above n a.name) (sym e) above) kept),
          e,
        );
  }
    where
      stays :
          (a b : AffiliationRecord)
          → Above b.name a.name
          → not (gone like name a) ≡ true
          → not (gone like name b) ≡ true
      stays a b above kept = elim (Bool-cases (gone like name b)) [
        | inl yes' ↦ absurd (cc (kept, gone_below a b above yes'))
        | inr no' ↦ rw no' refl
      ]
