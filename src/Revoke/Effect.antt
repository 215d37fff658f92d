-- ===== src/Revoke/Effect.antt =====
-- What a revocation that succeeds was allowed to do, and what it has done.
use fabric_ca_gm.Prelude.{
  ℕ, String, ◌≡◌, sym, ap, subst, ◌∙◌, ◌⊎◌, inl, inr, not, ◌&&◌, List, map, ◌==◌, eq_iff, In,
  Bool-cases, select, length,
}
use fabric_ca_gm.Prelude.Int.{minus_one}
use fabric_ca_gm.Result.{ok, replaced, new_http_err}
use fabric_ca_gm.Exec.{◌>>=◌, ◌>>◌, pure, failing_as}
use fabric_ca_gm.Exec.Rules.{bind-eq-ok, failing_as-eq-ok}
use fabric_ca_gm.World.{UserRecord, CertRecord, CertId, World, Db, M, query}
use fabric_ca_gm.World.ReadOnly.{IsCaller, IsCaller-back, Keeps, keeps_flow, query-IsReadOnly}
use fabric_ca_gm.Registry.{named, update_rows, get_user, revoke_user, revoke_certificates_of}
use fabric_ca_gm.Registry.Rows.{update_users-UpdatesOne}
use fabric_ca_gm.Registry.Reads.{get_user-eq-ok, get_user-IsReadOnly}
use fabric_ca_gm.Registry.Removal.{live_of, revoked_at, revoke_certificates_of-eq-ok}
use fabric_ca_gm.Context.{get_caller, can_manage_user}
use fabric_ca_gm.Context.Caller.{get_caller-IsReadOnly}
use fabric_ca_gm.Context.Checks.{can_manage_user-IsReadOnly}
use fabric_ca_gm.Context.Managing.{MayManage, get_caller-IsCaller, can_manage_user-MayManage}
use fabric_ca_gm.Revoke.{
  revoke_certificates_by_id, cert_id, CertStore, may_revoke_user, revoke_identity,
  err_revoke_id_not_found, err_revoke_update_user, err_no_certs_revoked,
}

-- A caller who may manage the identity
abbrev pub ByManager : UserRecord → World → Type 0
ByManager user w = (c : UserRecord) × IsCaller c w × MayManage c user

pub back : (c : UserRecord) (w v : World) → Keeps w v → IsCaller c v → IsCaller c w
back c w v k = IsCaller-back c v w k.db k.enrollment_id k.origin

-- The identity and all of its certificates that were not revoked are revoked, and nothing else has changed.
pub record IdentityRevoked (name : String) (reason : ℕ) (w w' : World) : Type 0 where
  pub user : UserRecord
  pub row : In user w.db.users
  pub name_of : user.name ≡ name
  pub allowed : ((c : UserRecord) × IsCaller c w × (c.name ≡ user.name)) ⊎ ByManager user w
  pub one : length (select (named user.name) w.db.users) ≡ 1
  pub users :
      w'.db.users ≡ update_rows (named user.name) (λ u. record u { state = minus_one }) w.db.users
  pub time : ℕ
  pub certificates :
      w'.db.certificates ≡ update_rows (live_of name) (revoked_at time reason) w.db.certificates
  pub affiliations : w'.db.affiliations ≡ w.db.affiliations

may_revoke_user-allowed :
    (user caller : UserRecord) (w w' : World) (t : Unit {0})
    → may_revoke_user user caller w ≡ (ok t, w')
    → ((caller.name ≡ user.name) ⊎ ByManager user w) × Keeps w w'
unfolding may_revoke_user
may_revoke_user-allowed user caller w w' t h = elim (Bool-cases (caller.name == user.name)) [
  | inl self ↦ (
    inl ((eq_iff caller.name user.name).0 self),
    subst (Keeps w) (ap (λ r. r.1) (rw self at h)) (keeps_flow.stay w),
  )
  | inr other ↦
      let checked : can_manage_user user w ≡ (ok t, w') = rw other at h in
      (
        inr (can_manage_user-MayManage user w w' t checked),
        subst (Keeps w) (ap (λ r. r.1) checked) ((can_manage_user-IsReadOnly user).at w),
      )
]

-- The update of the identity's row
record Disabled (user : UserRecord) (before after : Db) : Type 0 where
  one : length (select (named user.name) before.users) ≡ 1
  users :
      after.users ≡ update_rows (named user.name) (λ u. record u { state = minus_one }) before.users
  affiliations : after.affiliations ≡ before.affiliations
  certificates : after.certificates ≡ before.certificates

revoke_user-Disabled :
    (user : UserRecord) (w w' : World) (t : Unit {0})
    → revoke_user user w ≡ (ok t, w')
    → Disabled user w.db w'.db
unfolding revoke_user
revoke_user-Disabled user w w' t h =
    let updates =
      rw h at (update_users-UpdatesOne (named user.name) (λ u. record u { state = minus_one }) w) in
    elim updates.users [
      | inl (failed, _) ↦ absurd (cc failed)
      | inr (inl (failed, _, _)) ↦ absurd (cc failed)
      | inr (inr (_, one, changed)) ↦ record {
        one = one;
        users = changed;
        affiliations = updates.affiliations;
        certificates = updates.certificates;
      }
    ]

abbrev all_marked : String → ℕ → ℕ → Db → Db
all_marked id time reason db = record db {
  certificates = update_rows (live_of id) (revoked_at time reason) db.certificates;
}

revoke_certificates_by_id-eq-ok :
    (id : String) (reason : ℕ) (w w' : World) (crs : List CertRecord)
    → revoke_certificates_by_id id reason w ≡ (ok crs, w')
    → (time : ℕ) × (w'.db ≡ all_marked id time reason w.db)
unfolding revoke_certificates_by_id
revoke_certificates_by_id-eq-ok id reason w w' crs h =
    let listing =
      query (λ db. select (λ c. c.id == id && not (c.status == "revoked")) db.certificates) in
    let (found, w₁, e₁, h₁) =
      bind-eq-ok listing (λ found. revoke_certificates_of (λ c. c.id == id) reason >> pure found) w
        w' h in
    let (n, w₂, e₂, h₂) =
      bind-eq-ok (revoke_certificates_of (λ c. c.id == id) reason) (λ _. pure found) w₁ w' h₁ in
    let same : w₁.db ≡ w.db =
      ap (λ r. r.1.db) (sym e₁)
      ∙ ((query-IsReadOnly
            (λ db. select (λ c. c.id == id && not (c.status == "revoked")) db.certificates)).at
          w).db in
    (
      w₁.now,
      ap (λ r. r.1.db) (sym h₂)
          ∙ revoke_certificates_of-eq-ok (λ c. c.id == id) reason w₁ w₂ n e₂
          ∙ ap (all_marked id w₁.now reason) same,
    )

module _ (store : CertStore) (name : String) (reason : ℕ) where
  abbrev mark_all : M (List CertId)
  mark_all =
      failing_as (replaced (new_http_err 500 err_no_certs_revoked))
        (revoke_certificates_by_id name reason)
      >>= λ recs. pure (map cert_id recs)

  abbrev disable : UserRecord → M (List CertId)
  disable user =
      failing_as (replaced (new_http_err 500 err_revoke_update_user)) (revoke_user user) >> mark_all

  abbrev checked : UserRecord → UserRecord → M (List CertId)
  checked user caller = may_revoke_user user caller >> disable user

  abbrev look_up : M UserRecord
  look_up = failing_as (replaced (new_http_err 404 err_revoke_id_not_found)) (get_user name)

  pub revoke_identity-IdentityRevoked :
      (w w' : World) (ids : List CertId)
      → revoke_identity store name reason w ≡ (ok ids, w')
      → IdentityRevoked name reason w w'
  unfolding revoke_identity
  revoke_identity-IdentityRevoked w w' ids h =
      let (user, w₁, e₁, h₁) = bind-eq-ok look_up (λ user. get_caller >>= checked user) w w' h in
      let (c, w₂, e₂, h₂) = bind-eq-ok get_caller (checked user) w₁ w' h₁ in
      let (t₃, w₃, e₃, h₃) = bind-eq-ok (may_revoke_user user c) (λ _. disable user) w₂ w' h₂ in
      let (t₄, w₄, e₄, h₄) =
        bind-eq-ok
          (failing_as (replaced (new_http_err 500 err_revoke_update_user)) (revoke_user user))
          (λ _. mark_all) w₃ w' h₃ in
      let (crs, w₅, e₅, h₅) =
        bind-eq-ok
          (failing_as (replaced (new_http_err 500 err_no_certs_revoked))
            (revoke_certificates_by_id name reason))
          (λ recs. pure (map cert_id recs)) w₄ w' h₄ in
      let found =
        failing_as-eq-ok (replaced (new_http_err 404 err_revoke_id_not_found)) (get_user name) w w₁
          user e₁ in
      let (row, name_of) = get_user-eq-ok name w w₁ user found in
      let k₁ : Keeps w w₁ =
        subst (Keeps w) (ap (λ r. r.1) found) ((get_user-IsReadOnly name).at w) in
      let k₂ : Keeps w w₂ =
        keeps_flow.chain w w₁ w₂ k₁
          (subst (Keeps w₁) (ap (λ r. r.1) e₂) (get_caller-IsReadOnly.at w₁)) in
      let (allowed, k₃') = may_revoke_user-allowed user c w₂ w₃ t₃ e₃ in
      let k₃ = keeps_flow.chain w w₂ w₃ k₂ k₃' in
      let disabled = revoke_user-Disabled user w₃ w₄ t₄ (
        failing_as-eq-ok (replaced (new_http_err 500 err_revoke_update_user)) (revoke_user user) w₃
          w₄ t₄ e₄) in
      let (time, marked) = revoke_certificates_by_id-eq-ok name reason w₄ w₅ crs (
        failing_as-eq-ok (replaced (new_http_err 500 err_no_certs_revoked))
          (revoke_certificates_by_id name reason) w₄ w₅ crs e₅) in
      let last : w'.db ≡ w₅.db = ap (λ r. r.1.db) (sym h₅) in
      record {
        user = user;
        row = row;
        name_of = name_of;
        allowed = elim allowed [
          | inl self ↦ inl (c, back c w w₁ k₁ (get_caller-IsCaller w₁ w₂ c e₂), self)
          | inr (m, is, may) ↦ inr (m, back m w w₂ k₂ is, may)
        ];
        one = rw k₃.db at disabled.one;
        users = ap (λ d. d.users) (last ∙ marked) ∙ rw k₃.db at disabled.users;
        time = time;
        certificates =
            ap (λ d. d.certificates) (last ∙ marked)
            ∙ ap (update_rows (live_of name) (revoked_at time reason))
                (disabled.certificates ∙ ap (λ d. d.certificates) k₃.db);
        affiliations =
            ap (λ d. d.affiliations) (last ∙ marked)
            ∙ disabled.affiliations
            ∙ ap (λ d. d.affiliations) k₃.db;
      }
