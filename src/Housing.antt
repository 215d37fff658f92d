-- ===== src/Housing.antt =====
-- Identities and affiliations together: the affiliation of every identity is listed.
pub mod Changes
pub mod Growth
pub mod Requests
pub mod Sequences
mod Tests
use Prim.Native.String
use fabric_ca_gm.Prelude.{
  String, ◌≡◌, refl, sym, ap, subst, ◌∙◌, ◌⊎◌, inl, inr, Bool, true, false, not, ◌||◌, List, [],
  ◌∷◌, ◌++◌, ◌==◌, arith, eq_iff, Bool-cases, select, In, In-append, any-In, if◌then◌else◌,
}
use fabric_ca_gm.World.{UserRecord, AffiliationRecord, Db}
use fabric_ca_gm.Registry.{update_rows}
use fabric_ca_gm.Registry.Rows.{In-select, In-of-select}
use fabric_ca_gm.Affiliations.{Like, called}
use fabric_ca_gm.Affiliations.Reads.{IsListed}
use fabric_ca_gm.Affiliations.Remove.{in_names}
use fabric_ca_gm.Affiliations.Removed.{gone, left, identities_under}

-- An affiliation is none or listed.
abbrev pub HasHome : String → List AffiliationRecord → Type 0
HasHome affiliation rows = (affiliation ≡ "") ⊎ IsListed affiliation rows

pub record Housed (db : Db) : Type 0 where
  pub home : (u : UserRecord) → In u db.users → HasHome u.affiliation db.affiliations

In-update_rows :
    {A : Type 0} (p : A → Bool) (f : A → A) (a : A) (rows : List A)
    → In a (update_rows p f rows)
    → In a rows ⊎ ((b : A) × (a ≡ f b))
unfolding update_rows
In-update_rows p f a [] i = absurd i
In-update_rows p f a (b ∷ rows) i = elim (Bool-cases (p b)) [
  | inl yes' ↦ elim (rw yes' at i) [
    | inl same ↦ inr (b, same)
    | inr rest ↦ ground (arith, In-update_rows p f a rows rest)
  ]
  | inr no' ↦ elim (rw no' at i) [
    | inl same ↦ inl (inl same)
    | inr rest ↦ ground (arith, In-update_rows p f a rows rest)
  ]
]

module _ (before after : Db) (housed : Housed before) where
  -- Fewer identities
  pub select-Housed :
      (p : UserRecord → Bool)
      → after.users ≡ select p before.users
      → after.affiliations ≡ before.affiliations
      → Housed after
  select-Housed p users affs = record {
    home = λ u i.
        subst (HasHome u.affiliation) (sym affs)
          (housed.home u (In-of-select p u before.users (subst (In u) users i)).0);
  }

  -- One more identity
  pub append-Housed :
      (new : UserRecord)
      → HasHome new.affiliation before.affiliations
      → after.users ≡ before.users ++ new ∷ []
      → after.affiliations ≡ before.affiliations
      → Housed after
  append-Housed new home users affs = record {
    home = λ u i.
        subst (HasHome u.affiliation) (sym affs)
          (elim ((In-append u before.users (new ∷ [])).0 (subst (In u) users i)) [
            | inl old ↦ housed.home u old
            | inr (inl same) ↦
                subst (λ v. HasHome v.affiliation before.affiliations) (sym same) home
            | inr (inr none') ↦ absurd none'
          ]);
  }

  -- Rows that change to an identity with a home
  pub update_rows-Housed :
      (p : UserRecord → Bool) (f : UserRecord → UserRecord)
      → ((v : UserRecord) → HasHome (f v).affiliation before.affiliations)
      → after.users ≡ update_rows p f before.users
      → after.affiliations ≡ before.affiliations
      → Housed after
  update_rows-Housed p f homes users affs = record {
    home = λ u i.
        subst (HasHome u.affiliation) (sym affs)
          (elim (In-update_rows p f u before.users (subst (In u) users i)) [
            | inl old ↦ housed.home u old
            | inr (v, same) ↦
                subst (λ x. HasHome x.affiliation before.affiliations) (sym same) (homes v)
          ]);
  }

  -- More affiliations
  pub grown-Housed :
      after.users ≡ before.users
      → ((name : String) → IsListed name before.affiliations → IsListed name after.affiliations)
      → Housed after
  grown-Housed users more = record {
    home = λ u i. elim (housed.home u (subst (In u) users i)) [
      | inl none' ↦ inl none'
      | inr listed ↦ inr (more u.affiliation listed)
    ];
  }

module _ (like : Like) (name : String) where
  under_it :
      (u : UserRecord) (users : List UserRecord)
      → In u users
      → (u.affiliation == name || like.below name u.affiliation) ≡ true
      → in_names (identities_under like name users) u.name ≡ true
  under_it u users i h =
      any-In (λ v. v.name == u.name) u (identities_under like name users)
        (listed (Bool-cases (u.affiliation == name))) ((eq_iff u.name u.name).1 refl)
    where
      listed :
          ((u.affiliation == name) ≡ true) ⊎ ((u.affiliation == name) ≡ false)
          → In u (identities_under like name users)
      listed (inl own) =
          (In-append u _ _).1 (inl (In-select (λ v. v.affiliation == name) u users i own))
      listed (inr other) = (In-append u _ _).1 (
          inr (In-select (λ v. like.below name v.affiliation) u users i (ground (arith, h, other))))

  -- An affiliation goes with all below it and with the identities of these.
  pub left-Housed :
      (before after : Db)
      → Housed before
      → after.users
        ≡ select (λ u. not (in_names (identities_under like name before.users) u.name)) before.users
      → after.affiliations ≡ left like name before.affiliations
      → Housed after
  left-Housed before after housed users affs = record {
    home = λ u i. at_home u (In-of-select stays u before.users (subst (In u) users i));
  }
    where
      stays : UserRecord → Bool
      stays u = not (in_names (identities_under like name before.users) u.name)

      at_home :
          (u : UserRecord)
          → In u before.users × (stays u ≡ true)
          → HasHome u.affiliation after.affiliations
      at_home u (i, kept) = elim (housed.home u i) [
        | inl none' ↦ inl none'
        | inr (a, j, e) ↦ elim (Bool-cases (gone like name a)) [
          | inl yes' ↦ absurd (
              cc (
                kept,
                under_it u before.users i
                    (subst (λ n. (n == name || like.below name n) ≡ true) e yes'),
              ))
          | inr no' ↦ inr (
              subst (IsListed u.affiliation) (sym affs) (
                a,
                In-select (λ x. not (gone like name x)) a before.affiliations j (rw no' refl),
                e,
              ))
        ]
      ]
