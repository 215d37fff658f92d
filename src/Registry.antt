-- ===== src/Registry.antt =====
-- lib/dbaccessor.go: the registry of identities in the users table, and the object DBUser.
-- bcrypt is a parameter: its hash, which may fail, and its comparison.
pub mod Reads
pub mod Rows
pub mod Login
pub mod Enrollments
pub mod Removal
pub mod Storing
pub mod Inserted
pub mod Attributes
mod Tests
use fabric_ca_gm.Prelude.{
  ℕ, suc, ◌+◌, String, ◌≡◌, Bool, true, false, not, ◌&&◌, ◌||◌, Option, none, some, List, [], ◌∷◌,
  ◌++◌, map, eqb, ◌==◌, if◌then◌else◌, select, length, all,
}
use fabric_ca_gm.Prelude.Int.{ℤ, pos, minus_one, eqℤ, leℤ, ltℤ, incr}
use fabric_ca_gm.Text.{split, join}
use fabric_ca_gm.Result.{Err, Result, ok, err, plain, panicked, new_http_err}
use fabric_ca_gm.Result
use fabric_ca_gm.Attr.{Attribute, AttributeControl, exists}
use fabric_ca_gm.Exec.{Exec, pure, fail, lift, gets, failing_as, attempt, ◌>>=◌, ◌>>◌, require}
use fabric_ca_gm.World.{
  UserRecord, CertRecord, Db, World, M, statement, query, get_row, get_error, do_transaction,
}

-- golang.org/x/crypto/bcrypt: the comparison accepts the password that was hashed.
pub record Bcrypt : Type 0 where
  pub generate : String → Option String
  pub compare : String → String → Bool
  pub compare_generated : (p h : String) → generate p ≡ some h → compare h p ≡ true

abbrev pub named : String → UserRecord → Bool
named id u = u.name == id

-- UPDATE … SET f WHERE p, with the number of rows
unfoldable pub update_rows {ℓ} : {A : Type ℓ} → (A → Bool) → (A → A) → List A → List A
update_rows p f [] = []
update_rows p f (a ∷ rows) = let rest = update_rows p f rows in if p a then f a ∷ rest else a ∷ rest

abbrev pub set_users : Db → List UserRecord → Db
set_users db users = record db { users = users }

unfoldable pub update_users : (UserRecord → Bool) → (UserRecord → UserRecord) → M ℕ
update_users p f =
    statement (λ db. (length (select p db.users), set_users db (update_rows p f db.users)))

-- The two tests on RowsAffected
unfoldable pub expect_one : ℕ → M (Unit {0})
expect_one n = require (eqb n 1) plain

-- DBUser.GetAttribute: newDBUser fills a map in the list's order, so the last entry of a name counts.
unfoldable pub get_attribute : List Attribute → String → Option Attribute
get_attribute [] name = none
get_attribute (a ∷ attrs) name = elim (get_attribute attrs name) [
  | some later ↦ some later
  | none ↦ if a.name == name then some a else none
]

-- DBUser.GetAttributes(nil): the values of that map. Go leaves their order open; here it is that of the
-- list.
unfoldable pub get_attributes : List Attribute → List Attribute
get_attributes [] = []
get_attributes (a ∷ attrs) =
    let rest = get_attributes attrs in if exists rest a.name then rest else a ∷ rest

abbrev pub control_of : UserRecord → AttributeControl
control_of u = get_attribute u.attributes

-- GetAffiliationPath, and GetUserAffiliation of lib/util.go
unfoldable pub get_affiliation_path : UserRecord → List String
get_affiliation_path u = split b'.' u.affiliation

unfoldable pub get_user_affiliation : UserRecord → String
get_user_affiliation u = join "." (get_affiliation_path u)

unfoldable pub get_user : String → M UserRecord
get_user id = failing_as get_error (get_row (λ db. select (named id) db.users))

module _ (bcrypt : Bcrypt) where
  unfoldable pub hash_password : String → M String
  hash_password pass = lift (Result.from_option plain (bcrypt.generate pass))

  unfoldable pub insert_user : UserRecord → M (Unit {0})
  unfolding hash_password
  insert_user user = do
    pwd ← hash_password user.pass
    n ← statement (λ db. (1, set_users db (db.users ++ record user { pass = pwd } ∷ [])))
    expect_one n

  unfoldable pub update_user : UserRecord → Bool → M (Unit {0})
  unfolding hash_password
  update_user user update_pass = do
    pwd ← if update_pass then hash_password user.pass else pure user.pass
    n ← update_users (named user.name) (λ row. record user { pass = pwd })
    expect_one n

  -- DBUser.Login. The object keeps the limit that applies.
  unfoldable pub login : UserRecord → String → ℤ → Result UserRecord
  login u pass ca_max =
      if not (bcrypt.compare u.pass pass)
      then err plain
      else if eqℤ u.max_enrollments (pos 0)
      then err plain
      else if eqℤ u.state minus_one
      then err plain
      else (let u' = record u {
        max_enrollments =
            if not (eqℤ ca_max minus_one)
              && (ltℤ ca_max u.max_enrollments || eqℤ u.max_enrollments minus_one)
            then ca_max
            else u.max_enrollments;
      } in
          if not (eqℤ u'.max_enrollments minus_one) && leℤ u'.max_enrollments u'.state
          then err plain
          else ok u')

-- The WHERE clause and the SET clause of LoginComplete
unfoldable pub may_count : UserRecord → UserRecord → Bool
may_count u row = eqℤ u.max_enrollments minus_one || ltℤ row.state u.max_enrollments

unfoldable pub count_login : UserRecord → UserRecord
count_login row = record row { state = incr row.state }

-- DBUser.LoginComplete
unfoldable pub login_complete : UserRecord → M (Unit {0})
login_complete u = do
  n ← update_users (λ row. named u.name row && may_count u row) count_login
  expect_one n

-- DBUser.Revoke
unfoldable pub revoke_user : UserRecord → M (Unit {0})
revoke_user u = do
  n ← update_users (named u.name) (λ row. record row { state = minus_one })
  expect_one n

-- DBUser.SetLevel
unfoldable pub set_level : UserRecord → ℕ → M (Unit {0})
set_level u level = do
  n ← update_users (named u.name) (λ row. record row { level = level })
  expect_one n

-- updateRevokeSQL: the certificates of an identity that are not revoked yet
unfoldable pub revoke_certificates_of : (CertRecord → Bool) → ℕ → M ℕ
revoke_certificates_of p reason w =
    statement
      (λ db. (
        length (select (λ c. p c && not (c.status == "revoked")) db.certificates),
        record db {
          certificates =
              update_rows (λ c. p c && not (c.status == "revoked"))
                (λ c. record c { status = "revoked"; reason = reason; revoked_at = w.now })
                db.certificates;
        },
      ))
      w

-- deleteUserTx. ErrDBDeleteUser is 65; 5 is ocsp.CessationOfOperation.
unfoldable pub delete_user_tx : String → ℕ → M UserRecord
delete_user_tx id reason = do
  user_rec ← failing_as get_error (get_row (λ db. select (named id) db.users))
  failing_as (Result.replaced (new_http_err 500 65))
      (statement (λ db. (tt, set_users db (select (λ u. not (named id u)) db.users))))
  failing_as (Result.replaced (new_http_err 500 65))
      (revoke_certificates_of (λ c. c.id == id) reason)
  pure user_rec

unfoldable pub delete_user : String → M UserRecord
delete_user id = do_transaction (delete_user_tx id 5)
