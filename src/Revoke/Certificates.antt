-- ===== src/Revoke/Certificates.antt =====
-- Revoking one certificate.
use fabric_ca_gm.Prelude.{
  ℕ, String, ◌≡◌, refl, sym, ap, subst, ◌∙◌, ◌≢◌, ◌⊎◌, inl, inr, not, ◌&&◌, ◌||◌, List, [], ◌∷◌,
  ◌==◌, arith, eq_iff, In, Bool-cases, select,
}
use fabric_ca_gm.Result.{ok, replaced, new_http_err}
use fabric_ca_gm.Exec.{◌>>=◌, ◌>>◌, pure, require, failing_as}
use fabric_ca_gm.Exec.Rules.{require-eq-ok, bind-eq-ok, failing_as-eq-ok}
use fabric_ca_gm.World.{UserRecord, CertRecord, CertId, World, Db, M, get_row, get_error}
use fabric_ca_gm.World.Statements.{get_row-eq-ok}
use fabric_ca_gm.World.ReadOnly.{IsReadOnly, Keeps, keeps_flow, get_row-IsReadOnly}
use fabric_ca_gm.World.Atomic.{read_rules}
use fabric_ca_gm.Registry.{update_rows, get_user}
use fabric_ca_gm.Registry.Rows.{In-of-select}
use fabric_ca_gm.Registry.Reads.{get_user-eq-ok, get_user-IsReadOnly}
use fabric_ca_gm.Context.{can_manage_user}
use fabric_ca_gm.Context.Checks.{can_manage_user-IsReadOnly}
use fabric_ca_gm.Context.Managing.{can_manage_user-MayManage}
use fabric_ca_gm.Revoke.{
  is_cert, get_certificate_with_id, callers, mark_revoked, CertStore, may_revoke,
  revoke_certificate, err_rev_cert_not_found, err_cert_already_revoked, err_cert_wrong_owner,
  err_revoke_id_not_found, err_revoke_failure,
}
use fabric_ca_gm.Revoke.Effect.{ByManager, back}

-- The certificate of the request itself
abbrev pub IsOwn : String → String → CertId → Type 0
IsOwn serial aki own = (aki ≡ callers own.aki) × (serial ≡ callers own.serial)

-- A certificate in the table that was not revoked is revoked, by its user, who is known, or by a manager of
-- that user; and nothing else has changed.
pub record CertificateRevoked (name serial aki : String) (reason : ℕ) (w w' : World) : Type 0 where
  pub certificate : CertRecord
  pub listed : In certificate w.db.certificates
  pub serial_of : certificate.serial ≡ serial
  pub aki_of : certificate.aki ≡ aki
  pub live : certificate.status ≢ "revoked"
  pub owner : (name ≡ "") ⊎ (name ≡ certificate.id)
  pub user : UserRecord
  pub row : In user w.db.users
  pub user_name : user.name ≡ certificate.id
  pub allowed : IsOwn serial aki w.enrollment_cert ⊎ ByManager user w
  pub time : ℕ
  pub db : w'.db ≡ record w.db {
    certificates = update_rows (is_cert serial aki) (mark_revoked time reason) w.db.certificates;
  }

get_certificate_with_id-eq-ok :
    (serial aki : String) (w w' : World) (cert : CertRecord)
    → get_certificate_with_id serial aki w ≡ (ok cert, w')
    → In cert w.db.certificates × (cert.serial ≡ serial) × (cert.aki ≡ aki)
unfolding get_certificate_with_id
get_certificate_with_id-eq-ok serial aki w w' cert h =
    let rows : Db → List CertRecord = λ db. select (is_cert serial aki) db.certificates in
    let (i, e) =
      In-of-select (is_cert serial aki) cert w.db.certificates
        (get_row-eq-ok rows w w' cert (failing_as-eq-ok get_error (get_row rows) w w' cert h)) in
    (i, ground (arith, e, eq_iff cert.serial serial), ground (arith, e, eq_iff cert.aki aki))

get_certificate_with_id-IsReadOnly :
    (serial aki : String) → IsReadOnly (get_certificate_with_id serial aki)
unfolding get_certificate_with_id
get_certificate_with_id-IsReadOnly serial aki = search (read_rules, get_row-IsReadOnly)

may_revoke-allowed :
    (serial aki : String) (own : CertId) (user : UserRecord) (w w' : World) (t : Unit {0})
    → may_revoke serial aki own user w ≡ (ok t, w')
    → (IsOwn serial aki own ⊎ ByManager user w) × Keeps w w'
unfolding may_revoke
may_revoke-allowed serial aki own user w w' t h =
    elim (Bool-cases (aki == callers own.aki && serial == callers own.serial)) [
      | inl self ↦ (
        inl (
            ground (arith, self, eq_iff aki (callers own.aki), eq_iff serial (callers own.serial))),
        subst (Keeps w) (ap (λ r. r.1) (rw self at h)) (keeps_flow.stay w),
      )
      | inr other ↦
          let checked : can_manage_user user w ≡ (ok t, w') = rw other at h in
          (
            inr (can_manage_user-MayManage user w w' t checked),
            subst (Keeps w) (ap (λ r. r.1) checked) ((can_manage_user-IsReadOnly user).at w),
          )
    ]

module _ (store : CertStore) (name serial aki : String) (reason : ℕ) (own : CertId) where
  abbrev mark : M (List CertId)
  mark =
      failing_as (replaced (new_http_err 500 err_revoke_failure)) (store.revoke serial aki reason)
      >> pure (record { serial = serial; aki = aki } ∷ [])

  abbrev allowed_mark : UserRecord → M (List CertId)
  allowed_mark user = may_revoke serial aki own user >> mark

  abbrev owned_mark : CertRecord → M (List CertId)
  owned_mark certificate =
      failing_as (replaced (new_http_err 404 err_revoke_id_not_found)) (get_user certificate.id)
      >>= allowed_mark

  abbrev is_named : CertRecord → M (Unit {0})
  is_named certificate =
      require (name == "" || name == certificate.id) (new_http_err 400 err_cert_wrong_owner)

  abbrev is_live : CertRecord → M (Unit {0})
  is_live certificate =
      require (not (certificate.status == "revoked")) (new_http_err 404 err_cert_already_revoked)

  abbrev live_mark : CertRecord → M (List CertId)
  live_mark certificate = is_live certificate >> (is_named certificate >> owned_mark certificate)

  abbrev find_cert : M CertRecord
  find_cert =
      failing_as (replaced (new_http_err 404 err_rev_cert_not_found))
        (get_certificate_with_id serial aki)

  rest-CertificateRevoked :
      (w w' : World) (ids : List CertId)
      → w.enrollment_cert ≡ own
      → (find_cert >>= live_mark) w ≡ (ok ids, w')
      → CertificateRevoked name serial aki reason w w'
  rest-CertificateRevoked w w' ids mine h =
      let (cert, w₁, e₁, h₁) = bind-eq-ok find_cert live_mark w w' h in
      let (t₂, w₂, e₂, h₂) =
        bind-eq-ok (is_live cert) (λ _. is_named cert >> owned_mark cert) w₁ w' h₁ in
      let (t₃, w₃, e₃, h₃) = bind-eq-ok (is_named cert) (λ _. owned_mark cert) w₂ w' h₂ in
      let (user, w₄, e₄, h₄) =
        bind-eq-ok
          (failing_as (replaced (new_http_err 404 err_revoke_id_not_found)) (get_user cert.id))
          allowed_mark w₃ w' h₃ in
      let (t₅, w₅, e₅, h₅) = bind-eq-ok (may_revoke serial aki own user) (λ _. mark) w₄ w' h₄ in
      let (t₆, w₆, e₆, h₆) =
        bind-eq-ok
          (failing_as (replaced (new_http_err 500 err_revoke_failure))
            (store.revoke serial aki reason))
          (λ _. pure (record { serial = serial; aki = aki } ∷ [])) w₅ w' h₅ in
      let read =
        failing_as-eq-ok (replaced (new_http_err 404 err_rev_cert_not_found))
          (get_certificate_with_id serial aki) w w₁ cert e₁ in
      let (listed, serial_of, aki_of) = get_certificate_with_id-eq-ok serial aki w w₁ cert read in
      let k₁ : Keeps w w₁ =
        subst (Keeps w) (ap (λ r. r.1) read)
          ((get_certificate_with_id-IsReadOnly serial aki).at w) in
      let (live, s₂) =
        require-eq-ok (not (cert.status == "revoked")) (new_http_err 404 err_cert_already_revoked)
          w₁ w₂ t₂ e₂ in
      let (owner, s₃) =
        require-eq-ok (name == "" || name == cert.id) (new_http_err 400 err_cert_wrong_owner) w₂ w₃
          t₃ e₃ in
      let k₃ : Keeps w w₃ = subst (Keeps w) (sym (s₃ ∙ s₂)) k₁ in
      let found =
        failing_as-eq-ok (replaced (new_http_err 404 err_revoke_id_not_found)) (get_user cert.id) w₃
          w₄ user e₄ in
      let (row, user_name) = get_user-eq-ok cert.id w₃ w₄ user found in
      let k₄ : Keeps w w₄ =
        keeps_flow.chain w w₃ w₄ k₃
          (subst (Keeps w₃) (ap (λ r. r.1) found) ((get_user-IsReadOnly cert.id).at w₃)) in
      let (allowed, k₅') = may_revoke-allowed serial aki own user w₄ w₅ t₅ e₅ in
      let k₅ = keeps_flow.chain w w₄ w₅ k₄ k₅' in
      let (time, marked) = store.revoke_marks serial aki reason w₅ w₆ t₆ (
        failing_as-eq-ok (replaced (new_http_err 500 err_revoke_failure))
          (store.revoke serial aki reason) w₅ w₆ t₆ e₆) in
      record {
        certificate = cert;
        listed = listed;
        serial_of = serial_of;
        aki_of = aki_of;
        live = ground (arith, live, eq_iff cert.status "revoked");
        owner = ground (arith, owner, eq_iff name "", eq_iff name cert.id);
        user = user;
        row = rw k₃.db at row;
        user_name = user_name;
        allowed = elim allowed [
          | inl self ↦ inl (rw mine self)
          | inr (m, is, may) ↦ inr (m, back m w w₄ k₄ is, may)
        ];
        time = time;
        db = ap (λ r. r.1.db) (sym h₆) ∙ rw k₅.db at marked;
      }

-- A revocation by serial number and AKI that succeeds found the certificate, which was not revoked and is that of
-- the name if one is given; it is the one that authenticated the request or that of an identity that the caller may manage;
-- and only it was revoked.
pub revoke_certificate-CertificateRevoked :
    (store : CertStore) (name serial aki : String) (reason : ℕ) (w w' : World) (ids : List CertId)
    → revoke_certificate store name serial aki reason w ≡ (ok ids, w')
    → CertificateRevoked name serial aki reason w w'
unfolding revoke_certificate
revoke_certificate-CertificateRevoked store name serial aki reason w w' ids h =
    rest-CertificateRevoked store name serial aki reason w.enrollment_cert w w' ids refl h
