-- ===== src/Registry/Rows.antt =====
-- The rows that a statement selects, after the statements that change rows.
use fabric_ca_gm.Prelude.{
  ◌≡◌, refl, ap, ◌⊎◌, inl, inr, ◌≢◌, Bool, true, false, ◌&&◌, List, [], ◌∷◌, ◌++◌, arith,
  Bool-cases, select, In, All, length,
}
use fabric_ca_gm.Result.{ok, err, plain, Result}
use fabric_ca_gm.World.{UserRecord, World}
use fabric_ca_gm.World.Statements.{statement-cases}
use fabric_ca_gm.Registry.{update_rows, update_users, set_users, expect_one}
use fabric_ca_gm.Exec.{◌>>=◌}

module _ {A : Type 0} (p q : A → Bool) where
  pub select-select : (rows : List A) → select q (select p rows) ≡ select (λ a. p a && q a) rows
  select-select [] = refl
  select-select (a ∷ rows) = ground (arith, select-select rows)

  pub select-update_rows :
      (f : A → A)
      → ((a : A) → p (f a) ≡ p a)
      → (rows : List A)
      → select p (update_rows (λ a. p a && q a) f rows) ≡ update_rows q f (select p rows)
  unfolding update_rows
  select-update_rows f same [] = refl
  select-update_rows f same (a ∷ rows) = ground (arith, select-update_rows f same rows, same a)

  -- Rows that fail a test that the update implies stay as they are.
  pub select-update_rows_other :
      (f : A → A)
      → ((a : A) → q a ≡ true → (p a ≡ false) × (p (f a) ≡ false))
      → (rows : List A) → select p (update_rows q f rows) ≡ select p rows
  unfolding update_rows
  select-update_rows_other f apart [] = refl
  select-update_rows_other f apart (a ∷ rows) =
      ground (arith, select-update_rows_other f apart rows, apart a)

module _ {A : Type 0} where
  pub In-select :
      (p : A → Bool) (a : A) (rows : List A) → In a rows → p a ≡ true → In a (select p rows)
  In-select p a (b ∷ rows) (inl e) h = elim (Bool-cases (p b)) [
    | inl yes' ↦ ground arith
    | inr no' ↦ ground arith
  ]
  In-select p a (b ∷ rows) (inr i) h = elim (Bool-cases (p b)) [
    | inl yes' ↦ ground (arith, In-select p a rows i h)
    | inr no' ↦ ground (arith, In-select p a rows i h)
  ]
  In-select p a [] i h = absurd i

  pub In-of-select :
      (p : A → Bool) (a : A) (rows : List A) → In a (select p rows) → In a rows × (p a ≡ true)
  In-of-select p a [] i = absurd i
  In-of-select p a (b ∷ rows) i = elim (Bool-cases (p b)) [
    | inl found ↦ ground (arith, In-of-select p a rows)
    | inr other ↦ ground (arith, In-of-select p a rows)
  ]

  pub select-append :
      (p : A → Bool) (xs ys : List A) → select p (xs ++ ys) ≡ select p xs ++ select p ys
  select-append p [] ys = refl
  select-append p (x ∷ xs) ys = ground (arith, select-append p xs ys)

-- The only row that passes a test, between the others
pub record Only {A : Type 0} (p : A → Bool) (rows : List A) : Type 0 where
  pub front : List A
  pub row : A
  pub back : List A
  pub split : rows ≡ front ++ row ∷ back
  pub passes : p row ≡ true
  pub others : All (λ a. p a ≡ false) (front ++ back)

module _ {A : Type 0} (p : A → Bool) (f : A → A) where
  update_rows-none :
      (rows : List A)
      → length (select p rows) ≡ 0
      → All (λ a. p a ≡ false) rows × (update_rows p f rows ≡ rows)
  unfolding update_rows
  update_rows-none [] none' = (tt, refl)
  update_rows-none (a ∷ rows) none' = ground (arith, update_rows-none rows)

  -- An update of rows of which one passes the test
  pub update_rows-Only :
      (rows : List A)
      → length (select p rows) ≡ 1
      → (o : Only p rows) × (update_rows p f rows ≡ o.front ++ f o.row ∷ o.back)
  unfolding update_rows
  update_rows-Only [] one = absurd (omega (arith, one))
  update_rows-Only (a ∷ rows) one = elim (Bool-cases (p a)) [
    | inl passes ↦
        let (others, same) = update_rows-none rows (ground (arith, one, passes)) in
        (
          record {
            front = [];
            row = a;
            back = rows;
            split = refl;
            passes = passes;
            others = others;
          },
          rw passes (ap (λ r. f a ∷ r) same),
        )
    | inr fails ↦
        let (o, updated) = update_rows-Only rows (ground (arith, one, fails)) in
        (
          record {
            front = a ∷ o.front;
            row = o.row;
            back = o.back;
            split = ap (λ r. a ∷ r) o.split;
            passes = o.passes;
            others = (fails, o.others);
          },
          rw fails (ap (λ r. a ∷ r) updated),
        )
  ]

-- An update of one user: it fails with the tables unchanged, or with other than one row changed, or it
-- succeeds and has changed one row. No other table changes.
module _ (p : UserRecord → Bool) (f : UserRecord → UserRecord) (w : World) where
  pub record UpdatesOne (r : Result (Unit {0})) (w' : World) : Type 0 where
    pub users :
        ((r ≡ err plain) × (w'.db.users ≡ w.db.users))
        ⊎ (((r ≡ err plain)
              × (length (select p w.db.users) ≢ 1)
              × (w'.db.users ≡ update_rows p f w.db.users))
            ⊎ ((r ≡ ok tt)
                × (length (select p w.db.users) ≡ 1)
                × (w'.db.users ≡ update_rows p f w.db.users)))
    pub affiliations : w'.db.affiliations ≡ w.db.affiliations
    pub certificates : w'.db.certificates ≡ w.db.certificates

  update_users-cases :
      (((update_users p f w).0 ≡ err plain) × ((update_users p f w).1.db ≡ w.db))
      ⊎ (((update_users p f w).0 ≡ ok (length (select p w.db.users)))
          × ((update_users p f w).1.db ≡ set_users w.db (update_rows p f w.db.users)))
  unfolding update_users
  update_users-cases =
      statement-cases (λ db. (length (select p db.users), set_users db (update_rows p f db.users)))
        w

  pub update_users-UpdatesOne :
      UpdatesOne ((update_users p f >>= expect_one) w).0 ((update_users p f >>= expect_one) w).1
  unfolding expect_one
  update_users-UpdatesOne = elim update_users-cases [
    | inl (failed, same) ↦ rw failed (record {
      users = inl (refl, ap (λ d. d.users) same);
      affiliations = ap (λ d. d.affiliations) same;
      certificates = ap (λ d. d.certificates) same;
    })
    | inr (done, changed) ↦ rw done (record {
      users = inr (ground (arith, ap (λ d. d.users) changed));
      affiliations = ground (arith, ap (λ d. d.affiliations) changed);
      certificates = ground (arith, ap (λ d. d.certificates) changed);
    })
  ]
