-- ===== src/Registry/Storing.antt =====
-- Writing an identity's row.
use fabric_ca_gm.Prelude.{
  String, ◌≡◌, sym, ap, ◌∙◌, inl, inr, Bool, true, false, some, arith, select, length,
  if◌then◌else◌, Option-cases,
}
use fabric_ca_gm.Result.{ok}
use fabric_ca_gm.Exec.{◌>>=◌, pure}
use fabric_ca_gm.Exec.Rules.{bind-eq-ok}
use fabric_ca_gm.World.{UserRecord, World, Db, M}
use fabric_ca_gm.Registry.{
  Bcrypt, named, update_rows, update_users, expect_one, update_user, hash_password,
}
use fabric_ca_gm.Registry.Rows.{update_users-UpdatesOne}

-- The write of an identity's row: it has one row, which is replaced, with a hash of a new password.
pub record Stored (bcrypt : Bcrypt) (change : UserRecord × Bool) (before after : Db) : Type 0 where
  pub pwd : String
  pub hashed : (if change.1 then bcrypt.generate change.0.pass else some change.0.pass) ≡ some pwd
  pub one : length (select (named change.0.name) before.users) ≡ 1
  pub users :
      after.users
      ≡ update_rows (named change.0.name) (λ row. record change.0 { pass = pwd }) before.users
  pub affiliations : after.affiliations ≡ before.affiliations
  pub certificates : after.certificates ≡ before.certificates

abbrev write_row : UserRecord → String → M (Unit {0})
write_row user pwd =
    update_users (named user.name) (λ row. record user { pass = pwd }) >>= expect_one

hash_chosen :
    (bcrypt : Bcrypt) (update_pass : Bool) (pass pwd : String) (w w₁ : World)
    → (if update_pass then hash_password bcrypt pass else pure pass) w ≡ (ok pwd, w₁)
    → ((if update_pass then bcrypt.generate pass else some pass) ≡ some pwd) × (w₁ ≡ w)
unfolding hash_password
hash_chosen bcrypt true pass pwd w w₁ h = elim (Option-cases (bcrypt.generate pass)) [
  | inl failed ↦ absurd (cc (rw failed at h))
  | inr (p, hashed) ↦
      let done = rw hashed at h in (hashed ∙ ground (arith, done), ap (λ r. r.1) (sym done))
]
hash_chosen bcrypt false pass pwd w w₁ h = (ground (arith, h), ap (λ r. r.1) (sym h))

Stored-from :
    (bcrypt : Bcrypt) (change : UserRecord × Bool) (pwd : String) (w w' : World) (t : Unit {0})
    → (if change.1 then bcrypt.generate change.0.pass else some change.0.pass) ≡ some pwd
    → write_row change.0 pwd w ≡ (ok t, w')
    → Stored bcrypt change w.db w'.db
Stored-from bcrypt change pwd w w' t hashed h =
    let updates =
      rw h at
        (update_users-UpdatesOne (named change.0.name) (λ row. record change.0 { pass = pwd }) w) in
    elim updates.users [
      | inl (failed, _) ↦ absurd (cc failed)
      | inr (inl (failed, _, _)) ↦ absurd (cc failed)
      | inr (inr (_, one, changed)) ↦ record {
        pwd = pwd;
        hashed = hashed;
        one = one;
        users = changed;
        affiliations = updates.affiliations;
        certificates = updates.certificates;
      }
    ]

pub update_user-Stored :
    (bcrypt : Bcrypt) (change : UserRecord × Bool) (w w' : World) (t : Unit {0})
    → update_user bcrypt change.0 change.1 w ≡ (ok t, w')
    → Stored bcrypt change w.db w'.db
unfolding update_user hash_password
update_user-Stored bcrypt (user, update_pass) w w' t h =
    let (pwd, w₁, e₁, h₁) =
      bind-eq-ok (if update_pass then hash_password bcrypt user.pass else pure user.pass)
        (write_row user) w w' h in
    let (hashed, same) = hash_chosen bcrypt update_pass user.pass pwd w w₁ e₁ in
    Stored-from bcrypt (user, update_pass) pwd w w' t hashed (rw same at h₁)
