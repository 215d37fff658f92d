-- ===== src/Registry/Removal.antt =====
-- Deleting an identity.
use fabric_ca_gm.Prelude.{
  ℕ, String, ◌≡◌, refl, sym, ap, ◌∙◌, inl, inr, Bool, not, ◌&&◌, ◌==◌, arith, eq_iff, select, In,
}
use fabric_ca_gm.Result.{ok, replaced, new_http_err}
use fabric_ca_gm.Exec.{◌>>◌, failing_as, pure}
use fabric_ca_gm.Exec.Rules.{bind-eq-ok, failing_as-eq-ok}
use fabric_ca_gm.World.{UserRecord, CertRecord, Db, World, M, statement, get_row, get_error}
use fabric_ca_gm.World.Statements.{
  statement-cases, do_transaction-atomic, do_transaction-eq-ok, get_row-eq-ok,
}
use fabric_ca_gm.World.ReadOnly.{get_row-IsReadOnly}
use fabric_ca_gm.World.Atomic.{IsAtomic}
use fabric_ca_gm.Registry.{
  named, update_rows, set_users, revoke_certificates_of, delete_user_tx, delete_user,
}
use fabric_ca_gm.Registry.Rows.{In-of-select}

pub statement-eq-ok :
    {A : Type 0} (f : Db → A × Db) (w w' : World) (a : A)
    → statement f w ≡ (ok a, w')
    → w'.db ≡ (f w.db).1
statement-eq-ok f w w' a h = elim (statement-cases f w) [
  | inl (failed, _) ↦ absurd (cc (failed, h))
  | inr (_, changed) ↦ ap (λ r. r.1.db) (sym h) ∙ changed
]

-- A certificate of the identity that is not revoked yet
abbrev pub live_of : String → CertRecord → Bool
live_of id c = c.id == id && not (c.status == "revoked")

abbrev pub revoked_at : ℕ → ℕ → CertRecord → CertRecord
revoked_at time reason c = record c { status = "revoked"; reason = reason; revoked_at = time }

pub revoke_certificates_of-eq-ok :
    (p : CertRecord → Bool) (reason : ℕ) (w w' : World) (n : ℕ)
    → revoke_certificates_of p reason w ≡ (ok n, w')
    → w'.db ≡ record w.db {
      certificates =
          update_rows
            (λ c. p c && not (c.status == "revoked"))
            (revoked_at w.now reason)
            w.db.certificates;
    }
unfolding revoke_certificates_of
revoke_certificates_of-eq-ok p reason w w' n h = statement-eq-ok _ w w' n h

-- The identity had a row; all of its rows are gone, its certificates are revoked, and nothing else has
-- changed. 5 is the reason "cessation of operation".
pub record Deleted (id : String) (u : UserRecord) (before after : Db) : Type 0 where
  pub row : In u before.users
  pub name : u.name ≡ id
  pub users : after.users ≡ select (λ v. not (named id v)) before.users
  pub time : ℕ
  pub certificates :
      after.certificates ≡ update_rows (live_of id) (revoked_at time 5) before.certificates
  pub affiliations : after.affiliations ≡ before.affiliations

module _ (id : String) where
  abbrev without_rows : Db → Unit {0} × Db
  without_rows db = (tt, set_users db (select (λ u. not (named id u)) db.users))

  abbrev drop_rows : M (Unit {0})
  drop_rows = failing_as (replaced (new_http_err 500 65)) (statement without_rows)

  abbrev revoke_rows : M ℕ
  revoke_rows =
      failing_as (replaced (new_http_err 500 65)) (revoke_certificates_of (λ c. c.id == id) 5)

  abbrev read_row : M UserRecord
  read_row = failing_as get_error (get_row (λ db. select (named id) db.users))

  delete_user_tx-Deleted :
      (w w' : World) (u : UserRecord) → delete_user_tx id 5 w ≡ (ok u, w') → Deleted id u w.db w'.db
  unfolding delete_user_tx
  delete_user_tx-Deleted w w' u h =
      let (u', w₁, e₁, h₁) =
        bind-eq-ok read_row (λ u'. drop_rows >> (revoke_rows >> pure u')) w w' h in
      let (_, w₂, e₂, h₂) = bind-eq-ok drop_rows (λ _. revoke_rows >> pure u') w₁ w' h₁ in
      let (n, w₃, e₃, h₃) = bind-eq-ok revoke_rows (λ _. pure u') w₂ w' h₂ in
      let found =
        failing_as-eq-ok get_error (get_row (λ db. select (named id) db.users)) w w₁ u' e₁ in
      let (row, name) =
        In-of-select (named id) u' w.db.users
          (get_row-eq-ok (λ db. select (named id) db.users) w w₁ u' found) in
      let same : w₁.db ≡ w.db =
        ap (λ r. r.1.db) (sym found)
        ∙ ((get_row-IsReadOnly (λ db. select (named id) db.users)).at w).db in
      let dropped =
        statement-eq-ok without_rows w₁ w₂ tt (
          failing_as-eq-ok (replaced (new_http_err 500 65)) (statement without_rows) w₁ w₂ tt e₂) in
      let revoked =
        revoke_certificates_of-eq-ok (λ c. c.id == id) 5 w₂ w₃ n
          (failing_as-eq-ok (replaced (new_http_err 500 65))
            (revoke_certificates_of (λ c. c.id == id) 5) w₂ w₃ n e₃) in
      let last : w' ≡ w₃ = ap (λ r. r.1) (sym h₃) in
      let answer : u' ≡ u = ground (arith, h₃) in
      let all : w'.db ≡ w₃.db = ap (λ v. v.db) last in
      record {
        row = rw answer at row;
        name = rw answer at ((eq_iff u'.name id).0 name);
        users = rw (all, revoked, dropped, same) refl;
        time = w₂.now;
        certificates = rw (all, revoked, dropped, same) refl;
        affiliations = rw (all, revoked, dropped, same) refl;
      }

  -- Deleting an identity that succeeds finds it, drops its rows and revokes its certificates, and changes
  -- nothing else.
  pub delete_user-Deleted :
      (w w' : World) (u : UserRecord) → delete_user id w ≡ (ok u, w') → Deleted id u w.db w'.db
  unfolding delete_user
  delete_user-Deleted w w' u h =
      let (v, same, done, kept) =
        do_transaction-eq-ok (delete_user_tx id 5) w u (ap (λ r. r.0) h) in
      let last : w'.db ≡ (delete_user_tx id 5 v).1.db = ap (λ r. r.1.db) (sym h) ∙ kept in
      rw (last, ← same)
        (delete_user_tx-Deleted v (delete_user_tx id 5 v).1 u
          (λ i. (done i, (delete_user_tx id 5 v).1)))

  pub delete_user-IsAtomic : IsAtomic (delete_user id)
  unfolding delete_user
  delete_user-IsAtomic = record { at = do_transaction-atomic (delete_user_tx id 5) }
