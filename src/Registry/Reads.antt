-- ===== src/Registry/Reads.antt =====
-- What the registry's lookups return, and the insertion of an identity.
use fabric_ca_gm.Prelude.{
  String, ◌≡◌, refl, ◌⊎◌, inl, inr, ℕ, some, [], ◌∷◌, ◌++◌, eq_iff, Option-cases, select, In,
}
use fabric_ca_gm.Result.{ok, err, plain}
use fabric_ca_gm.Exec.Rules.{failing_as-eq-ok}
use fabric_ca_gm.Registry.Rows.{In-of-select}
use fabric_ca_gm.World.{UserRecord, World, get_row, get_error}
use fabric_ca_gm.World.Statements.{statement-cases, get_row-eq-ok}
use fabric_ca_gm.World.ReadOnly.{IsReadOnly, get_row-IsReadOnly, failing_as-IsReadOnly}
use fabric_ca_gm.Registry.{
  named, get_user, set_users, insert_user, hash_password, Bcrypt, expect_one,
}

pub get_user-eq-ok :
    (id : String) (w w' : World) (u : UserRecord)
    → get_user id w ≡ (ok u, w')
    → In u w.db.users × (u.name ≡ id)
unfolding get_user
get_user-eq-ok id w w' u h =
    let (i, e) = In-of-select (named id) u w.db.users (
      get_row-eq-ok (λ db. select (named id) db.users) w w' u
        (failing_as-eq-ok get_error (get_row (λ db. select (named id) db.users)) w w' u h)) in
    (i, (eq_iff u.name id).0 e)

pub get_user-IsReadOnly : (id : String) → IsReadOnly (get_user id)
unfolding get_user
get_user-IsReadOnly id =
    failing_as-IsReadOnly get_error (get_row (λ db. select (named id) db.users))
      (get_row-IsReadOnly (λ db. select (named id) db.users))

-- A successful insertion adds a row at the end of the table, with the hash of the password, and changes
-- nothing else; a failing one changes no table.
module _ (bcrypt : Bcrypt) (user : UserRecord) (w : World) where
  pub insert_user-cases :
      (((insert_user bcrypt user w).0 ≡ err plain) × ((insert_user bcrypt user w).1.db ≡ w.db))
      ⊎ ((pwd : String) × (bcrypt.generate user.pass ≡ some pwd)
          × ((insert_user bcrypt user w).0 ≡ ok tt)
          × ((insert_user bcrypt user w).1.db
              ≡ set_users w.db (w.db.users ++ record user { pass = pwd } ∷ [])))
  unfolding insert_user hash_password expect_one
  insert_user-cases = elim (Option-cases (bcrypt.generate user.pass)) [
    | inl failed ↦ rw failed (inl (refl, refl))
    | inr (pwd, hashed) ↦
        rw hashed
          (elim (statement-cases {A = ℕ}
            (λ db. (1, set_users db (db.users ++ record user { pass = pwd } ∷ []))) w) [
              | inl (broken, same) ↦ rw broken (inl (refl, same))
              | inr (done, added) ↦ rw done (inr (pwd, refl, refl, added))
            ])
  ]
