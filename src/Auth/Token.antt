-- ===== src/Auth/Token.antt =====
-- What a token authentication that succeeds has established.
use fabric_ca_gm.Prelude.{
  is_empty, String, ◌≡◌, refl, sym, ap, ◌∙◌, ◌≢◌, inl, true, false, not, List, [], ◌∷◌, any, arith,
  eq_iff, In, ◌==◌,
}
use fabric_ca_gm.Result
use fabric_ca_gm.Result.{Err, Result, ok, err, plain, replaced, new_http_err, new_auth_err}
use fabric_ca_gm.Exec.{◌>>=◌, ◌>>◌, lift, require, failing_as}
use fabric_ca_gm.Exec.Rules.{require-eq-ok, bind-eq-ok, failing_as-eq-ok}
use fabric_ca_gm.World.{CertRecord, World, M}
use fabric_ca_gm.Registry.Rows.{In-select, In-of-select}
use fabric_ca_gm.TokenSignature.{Certificate, verify_token}
use fabric_ca_gm.TokenSignature.Signed.{Signed, verify_token-Signed}
use fabric_ca_gm.Revoke.{is_cert, callers}
use fabric_ca_gm.Auth.{
  TokenChecks, verify_certificate, is_revoked, check_rows, accept, token_authentication,
  err_no_auth_hdr, err_invalid_token, err_untrusted_certificate, err_cert_expired, err_cert_revoked,
  err_cert_revoke_check_failure, err_cert_not_found,
}

-- A row of the certificate, by its numbers in the normal form
abbrev pub IsRowOf : Certificate → CertRecord → Type 0
IsRowOf cert row = (row.serial ≡ callers cert.serial) × (row.aki ≡ callers cert.aki)

-- The certificate stands in the table, and no row of it is revoked.
pub record Registered (cert : Certificate) (w : World) : Type 0 where
  pub row : CertRecord
  pub listed : In row w.db.certificates
  pub row_of : IsRowOf cert row
  pub good : (r : CertRecord) → In r w.db.certificates → IsRowOf cert r → r.status ≢ "revoked"

first_of : (rows : List CertRecord) → not (is_empty rows) ≡ true → (r : CertRecord) × In r rows
first_of [] h = cc
first_of (r ∷ rows) h = (r, inl refl)

none_revoked :
    (rows : List CertRecord) (r : CertRecord)
    → not (any is_revoked rows) ≡ true
    → In r rows
    → r.status ≢ "revoked"
none_revoked [] r h i = absurd i
none_revoked (s ∷ rows) r h i = ground (arith, none_revoked rows r, eq_iff s.status "revoked")

module _ (checks : TokenChecks) (cert : Certificate) where
  abbrev rows_read : M (List CertRecord)
  rows_read =
      failing_as (replaced (new_http_err 500 err_cert_not_found))
        (checks.get_certificate (callers cert.serial) (callers cert.aki))

  abbrev rows_tested : List CertRecord → M (Unit {0})
  rows_tested certs =
      require (not (is_empty certs)) (new_auth_err err_cert_not_found)
      >> require (not (any is_revoked certs)) (new_auth_err err_cert_revoked)

  check_rows-Registered :
      (w w' : World) (t : Unit {0})
      → check_rows checks cert w ≡ (ok t, w')
      → Registered cert w × (w'.db ≡ w.db)
  unfolding check_rows
  check_rows-Registered w w' t h =
      let (certs, w₁, e₁, h₁) = bind-eq-ok rows_read rows_tested w w' h in
      let (t₂, w₂, e₂, h₂) =
        bind-eq-ok (require (not (is_empty certs)) (new_auth_err err_cert_not_found))
          (λ _. require (not (any is_revoked certs)) (new_auth_err err_cert_revoked)) w₁ w' h₁ in
      let (some', s₂) =
        require-eq-ok (not (is_empty certs)) (new_auth_err err_cert_not_found) w₁ w₂ t₂ e₂ in
      let (live, s₃) =
        require-eq-ok (not (any is_revoked certs)) (new_auth_err err_cert_revoked) w₂ w' t h₂ in
      let (rows, same) =
        checks.get_certificate_rows (callers cert.serial) (callers cert.aki) w w₁ certs (
          failing_as-eq-ok (replaced (new_http_err 500 err_cert_not_found))
            (checks.get_certificate (callers cert.serial) (callers cert.aki)) w w₁ certs e₁) in
      let (r, i) = first_of certs some' in
      let (listed, matches) =
        In-of-select (is_cert (callers cert.serial) (callers cert.aki)) r w.db.certificates
          (rw rows at i) in
      (
        record {
          row = r;
          listed = listed;
          row_of = (
            ground (arith, matches, eq_iff r.serial (callers cert.serial)),
            ground (arith, matches, eq_iff r.aki (callers cert.aki)),
          );
          good = λ s j is. none_revoked certs s live (
              rw rows (
                In-select (is_cert (callers cert.serial) (callers cert.aki)) s w.db.certificates j (
                  ground (
                    arith,
                    is,
                    eq_iff s.serial (callers cert.serial),
                    eq_iff s.aki (callers cert.aki),
                  ))));
        },
        ap (λ v. v.db) (s₃ ∙ s₂) ∙ same,
      )

replaced-eq-ok :
    {A : Type 0} (e : Err) (r : Result A) (a : A) → Result.on_err (replaced e) r ≡ ok a → r ≡ ok a
replaced-eq-ok e (ok b) a h = h
replaced-eq-ok e (err x) a h = absurd (cc h)

verify_certificate-eq-ok :
    (checks : TokenChecks) (cert : Certificate) (t : Unit {0})
    → verify_certificate checks cert ≡ ok t
    → (pools : String) × (checks.verify_options ≡ ok pools)
      × (checks.verify_chain pools cert ≡ ok t)
unfolding verify_certificate
verify_certificate-eq-ok checks cert t h =
    let (pools, e, k) =
      Result.bind-eq-ok (Result.on_err (replaced plain) checks.verify_options)
        (λ opts. Result.on_err (replaced plain) (checks.verify_chain opts cert)) h in
    (
      pools,
      replaced-eq-ok plain checks.verify_options pools e,
      replaced-eq-ok plain (checks.verify_chain pools cert) t k,
    )

-- What was authenticated, and what the request context then holds
pub record Authenticated (checks : TokenChecks) (auth_hdr : String) (body : Result String)
    (w : World) (id : String) (w' : World) : Type 0 where
  pub text : String
  pub read : body ≡ ok text
  pub cert : Certificate
  pub token : verify_token checks.crypto auth_hdr text ≡ ok cert
  pub signed : Signed checks.crypto auth_hdr text cert
  pub trusted : verify_certificate checks cert ≡ ok tt
  pub pools : String
  pub options : checks.verify_options ≡ ok pools
  pub chain : checks.verify_chain pools cert ≡ ok tt
  pub fresh : (checks.expired_checked cert).0 ≡ false
  pub registered : Registered cert w
  pub id_of : cert.enrollment_id ≡ id
  pub enrollment_id : w'.enrollment_id ≡ id
  pub db : w'.db ≡ w.db

module _ (checks : TokenChecks) (auth_hdr : String) (body : Result String) where
  abbrev row_checks : Certificate → M String
  row_checks cert = check_rows checks cert >> accept checks cert

  abbrev age_checks : Certificate → M String
  age_checks cert =
      require (checks.expired_checked cert).1 (new_http_err 401 err_cert_revoke_check_failure)
      >> (require (not (checks.expired_checked cert).0) (new_auth_err err_cert_expired)
          >> row_checks cert)

  abbrev trust : Certificate → M (Unit {0})
  trust cert = lift (
      Result.on_err (replaced (new_auth_err err_untrusted_certificate))
        (verify_certificate checks cert))

  abbrev trust_checks : Certificate → M String
  trust_checks cert = trust cert >> age_checks cert

  abbrev verify : String → M Certificate
  verify text = lift (
      Result.on_err (replaced (new_auth_err err_invalid_token))
        (verify_token checks.crypto auth_hdr text))

  abbrev token_checks : String → M String
  token_checks text = verify text >>= trust_checks

  -- A token authentication that succeeds returns the name in a certificate that stands in the token before its
  -- dot, with behind it a signature by the certificate's key over the request's body and the certificate; the
  -- chains of the CA verify the certificate, it is not expired, and it stands in the table with none of its rows
  -- revoked; the context holds that name, and no table changes.
  pub token_authentication-Authenticated :
      (w w' : World) (id : String)
      → token_authentication checks auth_hdr body w ≡ (ok id, w')
      → Authenticated checks auth_hdr body w id w'
  unfolding token_authentication accept
  token_authentication-Authenticated w w' id h =
      let (t₁, w₁, e₁, h₁) =
        bind-eq-ok (require (not (auth_hdr == "")) (new_http_err 401 err_no_auth_hdr))
          (λ _. lift body >>= token_checks) w w' h in
      let (text, w₂, e₂, h₂) = bind-eq-ok (lift body) token_checks w₁ w' h₁ in
      let (cert, w₃, e₃, h₃) = bind-eq-ok (verify text) trust_checks w₂ w' h₂ in
      let (t₄, w₄, e₄, h₄) = bind-eq-ok (trust cert) (λ _. age_checks cert) w₃ w' h₃ in
      let (t₅, w₅, e₅, h₅) =
        bind-eq-ok
          (require (checks.expired_checked cert).1 (new_http_err 401 err_cert_revoke_check_failure))
          (λ _.
            require (not (checks.expired_checked cert).0) (new_auth_err err_cert_expired)
            >> row_checks cert)
          w₄ w' h₄ in
      let (t₆, w₆, e₆, h₆) =
        bind-eq-ok (require (not (checks.expired_checked cert).0) (new_auth_err err_cert_expired))
          (λ _. row_checks cert) w₅ w' h₅ in
      let (t₇, w₇, e₇, h₇) =
        bind-eq-ok (check_rows checks cert) (λ _. accept checks cert) w₆ w' h₆ in
      let (_, s₁) =
        require-eq-ok (not (auth_hdr == "")) (new_http_err 401 err_no_auth_hdr) w w₁ t₁ e₁ in
      let verified =
        failing_as-eq-ok (replaced (new_auth_err err_invalid_token))
          (lift (verify_token checks.crypto auth_hdr text)) w₂ w₃ cert e₃ in
      let trusted =
        failing_as-eq-ok (replaced (new_auth_err err_untrusted_certificate))
          (lift (verify_certificate checks cert)) w₃ w₄ t₄ e₄ in
      let (pools, options, chain) =
        verify_certificate-eq-ok checks cert t₄ (ap (λ r. r.0) trusted) in
      let (_, s₅) =
        require-eq-ok (checks.expired_checked cert).1
          (new_http_err 401 err_cert_revoke_check_failure) w₄ w₅ t₅ e₅ in
      let (fresh, s₆) =
        require-eq-ok (not (checks.expired_checked cert).0) (new_auth_err err_cert_expired) w₅ w₆ t₆
          e₆ in
      let at_w : w₆ ≡ w =
        s₆
        ∙ s₅
        ∙ ap (λ r. r.1) (sym trusted)
        ∙ ap (λ r. r.1) (sym verified)
        ∙ ap (λ r. r.1) (sym e₂)
        ∙ s₁ in
      let (registered, same) = check_rows-Registered checks cert w₆ w₇ t₇ e₇ in
      let it : cert.enrollment_id ≡ id = ground (arith, h₇) in
      record {
        text = text;
        read = ap (λ r. r.0) e₂;
        cert = cert;
        token = ap (λ r. r.0) verified;
        signed = verify_token-Signed checks.crypto auth_hdr text cert (ap (λ r. r.0) verified);
        trusted = ap (λ r. r.0) trusted;
        pools = pools;
        options = options;
        chain = chain;
        fresh = ground (arith, fresh);
        registered = rw at_w at registered;
        id_of = it;
        enrollment_id = ap (λ r. r.1.enrollment_id) (sym h₇) ∙ it;
        db = ap (λ r. r.1.db) (sym h₇) ∙ same ∙ ap (λ v. v.db) at_w;
      }
