-- ===== src/Registry/Inserted.antt =====
-- An identity that is inserted, looked up again and logged in.
use fabric_ca_gm.Prelude.{
  ℕ, suc, String, ◌≡◌, refl, ◌∙◌, ◌⊎◌, inl, inr, true, false, some, List, [], ◌∷◌, ◌++◌, select,
  arith, eq_refl,
}
use fabric_ca_gm.Prelude.Int.{pos, minus_one, eqℤ, leℤ}
use fabric_ca_gm.Result.{ok}
use fabric_ca_gm.Exec.{◌>>◌}
use fabric_ca_gm.World.{UserRecord, World, statement, query, get_row}
use fabric_ca_gm.Registry.{Bcrypt, named, insert_user, hash_password, get_user, login, expect_one}
use fabric_ca_gm.Registry.Rows.{select-append}

-- An identity as a registration makes it: not enrolled yet, without a limit or with a positive one
pub record IsNew (user : UserRecord) : Type 0 where
  pub state : user.state ≡ pos 0
  pub limit : (user.max_enrollments ≡ minus_one) ⊎ ((n : ℕ) × (user.max_enrollments ≡ pos (suc n)))

positive_apart : (n : ℕ) → eqℤ (pos (suc n)) (pos 0) ≡ false
positive_apart n = ground arith

positive_above : (n : ℕ) → leℤ (pos (suc n)) (pos 0) ≡ false
positive_above n = ground arith

module _ (bcrypt : Bcrypt) (user : UserRecord) (pwd : String) where
  abbrev stored : UserRecord
  stored = record user { pass = pwd }

  only_row :
      (rows : List UserRecord)
      → select (named user.name) rows ≡ []
      → select (named user.name) (rows ++ stored ∷ []) ≡ stored ∷ []
  only_row rows absent =
      select-append (named user.name) rows (stored ∷ []) ∙ ground (arith, absent, eq_refl user.name)

  stored-login :
      bcrypt.compare pwd user.pass ≡ true
      → IsNew user
      → login bcrypt stored user.pass minus_one ≡ ok stored
  unfolding login
  stored-login matches new = elim new.limit [
    | inl none' ↦ rw (matches, none', new.state) refl
    | inr (n, most) ↦ rw (matches, most, new.state, positive_apart n, positive_above n) refl
  ]

  inserted :
      (w : World)
      → bcrypt.generate user.pass ≡ some pwd
      → w.faults ≡ []
      → select (named user.name) w.db.users ≡ []
      → ((insert_user bcrypt user >> get_user user.name) w).0 ≡ ok stored
  unfolding insert_user hash_password expect_one get_user get_row query statement
  inserted w hashed calm absent = rw (hashed, calm, only_row w.db.users absent) refl

-- Where the driver does not fail and the password can be hashed: an identity whose name is not in the table,
-- with no enrollments and a limit that is -1 or positive, is found again under its name after its insertion,
-- as it was given but for the hash in place of the password, and a CA without a limit then logs it in with
-- that password, and again gives it unchanged.
pub insert_user-get_user-login :
    (bcrypt : Bcrypt) (user : UserRecord) (pwd : String) (w : World)
    → bcrypt.generate user.pass ≡ some pwd
    → w.faults ≡ []
    → select (named user.name) w.db.users ≡ []
    → IsNew user
    → (((insert_user bcrypt user >> get_user user.name) w).0 ≡ ok (record user { pass = pwd }))
      × (login bcrypt (record user { pass = pwd }) user.pass minus_one
          ≡ ok (record user { pass = pwd }))
insert_user-get_user-login bcrypt user pwd w hashed calm absent new = (
  inserted bcrypt user pwd w hashed calm absent,
  stored-login bcrypt user pwd (bcrypt.compare_generated user.pass pwd hashed) new,
)
