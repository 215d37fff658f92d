-- ===== src/Auth.antt =====
-- BasicAuthentication and TokenAuthentication of lib/serverrequestcontext.go, with the CA resolved, and
-- VerifyCertificate of lib/ca.go. Cryptography, chains and the certificates' store of cfssl are parameters.
pub mod Token
pub mod Basic
mod Tests
use fabric_ca_gm.Prelude.{
  is_empty, ℕ, String, ◌≡◌, Bool, true, false, not, Option, none, some, List, [], ◌∷◌, any, ◌==◌,
  if◌then◌else◌, select,
}
use fabric_ca_gm.Prelude.Int.{ℤ, pos, eqℤ}
use fabric_ca_gm.Result.{Err, Result, ok, err, plain, new_http_err, new_auth_err, replaced}
use fabric_ca_gm.Result
use fabric_ca_gm.Exec.{pure, lift, failing_as, ◌>>=◌, ◌>>◌, require}
use fabric_ca_gm.World.{UserRecord, CertRecord, CertId, World, M}
use fabric_ca_gm.Registry.{Bcrypt, get_user, login}
use fabric_ca_gm.TokenSignature.{Certificate, Crypto, verify_token}
use fabric_ca_gm.Revoke.{is_cert, callers}

abbrev pub err_no_auth_hdr : ℕ
err_no_auth_hdr = 2

abbrev pub err_no_user_pass : ℕ
err_no_user_pass = 21

abbrev pub err_enroll_disabled : ℕ
err_enroll_disabled = 22

abbrev pub err_invalid_user : ℕ
err_invalid_user = 23

abbrev pub err_invalid_pass : ℕ
err_invalid_pass = 24

abbrev pub err_invalid_token : ℕ
err_invalid_token = 25

abbrev pub err_untrusted_certificate : ℕ
err_untrusted_certificate = 26

abbrev pub err_cert_expired : ℕ
err_cert_expired = 27

abbrev pub err_cert_revoked : ℕ
err_cert_revoked = 28

abbrev pub err_cert_revoke_check_failure : ℕ
err_cert_revoke_check_failure = 29

abbrev pub err_cert_not_found : ℕ
err_cert_not_found = 30

-- The code of util.VerifyToken, the verification of chains in sm2 with the pools that getVerifyOptions reads from
-- files, cfssl's revoke.VerifyCertificate with the two flags that it returns, and GetCertificate of cfssl's certdb,
-- which returns the rows of a serial number and AKI.
pub record TokenChecks : Type 0 where
  pub crypto : Crypto
  pub verify_options : Result String
  pub verify_chain : String → Certificate → Result (Unit {0})
  pub expired_checked : Certificate → Bool × Bool
  pub get_certificate : String → String → M (List CertRecord)
  pub get_certificate_rows :
      (serial aki : String) (w w' : World) (certs : List CertRecord)
      → get_certificate serial aki w ≡ (ok certs, w')
      → (certs ≡ select (is_cert serial aki) w.db.certificates) × (w'.db ≡ w.db)

abbrev pub is_revoked : CertRecord → Bool
is_revoked c = c.status == "revoked"

module _ (checks : TokenChecks) where
  -- VerifyCertificate of the CA
  unfoldable pub verify_certificate : Certificate → Result (Unit {0})
  verify_certificate cert =
      Result.◌>>=◌ (Result.on_err (replaced plain) checks.verify_options)
        (λ opts. Result.on_err (replaced plain) (checks.verify_chain opts cert))

  -- The tests on the certificate and on its rows
  unfoldable pub check_rows : Certificate → M (Unit {0})
  check_rows cert = do
    certs ←
        failing_as (replaced (new_http_err 500 err_cert_not_found))
          (checks.get_certificate (callers cert.serial) (callers cert.aki))
    require (not (is_empty certs)) (new_auth_err err_cert_not_found)
    require (not (any is_revoked certs)) (new_auth_err err_cert_revoked)

  accept : Certificate → M String
  accept cert w = (
    ok cert.enrollment_id,
    record w {
      enrollment_id = cert.enrollment_id;
      enrollment_cert = record { serial = cert.serial; aki = cert.aki };
    },
  )

  -- TokenAuthentication
  unfoldable pub token_authentication : String → Result String → M String
  unfolding accept
  token_authentication auth_hdr body = do
    require (not (auth_hdr == "")) (new_http_err 401 err_no_auth_hdr)
    text ← lift body
    cert ← lift (
        Result.on_err (replaced (new_auth_err err_invalid_token))
          (verify_token checks.crypto auth_hdr text))
    lift (
        Result.on_err (replaced (new_auth_err err_untrusted_certificate)) (verify_certificate cert))
    require (checks.expired_checked cert).1 (new_http_err 401 err_cert_revoke_check_failure)
    require (not (checks.expired_checked cert).0) (new_auth_err err_cert_expired)
    check_rows cert
    accept cert

-- BasicAuthentication. The header is none where it is missing, else what its decoding gives; the user
-- info object that the context keeps is returned beside the name.
module _ (bcrypt : Bcrypt) (ca_max_enrollments : ℤ) where
  sign_in : String → UserRecord → M (String × UserRecord)
  sign_in username user w = (ok (username, user), record w { enrollment_id = username })

  unfoldable pub basic_authentication : Option (Option (String × String)) → M (String × UserRecord)
  unfolding sign_in
  basic_authentication auth_hdr = do
    decoded ← lift (Result.from_option (new_http_err 401 err_no_auth_hdr) auth_hdr)
    user_pass ← lift (Result.from_option (new_auth_err err_no_user_pass) decoded)
    require (not (eqℤ ca_max_enrollments (pos 0))) (new_auth_err err_enroll_disabled)
    ui ← failing_as (replaced (new_auth_err err_invalid_user)) (get_user user_pass.0)
    ui' ← lift (
        Result.on_err (replaced (new_auth_err err_invalid_pass))
          (login bcrypt ui user_pass.1 ca_max_enrollments))
    sign_in user_pass.0 ui'
