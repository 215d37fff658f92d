-- ===== src/Revoke.antt =====
-- lib/serverrevoke.go: revoking a certificate, or an identity with all of its certificates, up to the
-- generation of a CRL; and attributeIsTrue of lib/ca.go. The certificates' store of cfssl is a parameter.
pub mod Effect
pub mod Certificates
pub mod Handler
mod Tests
use fabric_ca_gm.Prelude.{
  ℕ, String, ◌≡◌, Bool, true, false, not, ◌&&◌, ◌||◌, Option, none, some, List, [], ◌∷◌, map, ◌==◌,
  if◌then◌else◌, select,
}
use fabric_ca_gm.Text.{to_lower, trim_left}
use fabric_ca_gm.Result.{Err, Result, ok, err, plain, new_http_err, replaced}
use fabric_ca_gm.Result
use fabric_ca_gm.Attr.{Attribute, parse_bool}
use fabric_ca_gm.Exec.{pure, fail, lift, gets, failing_as, ◌>>=◌, ◌>>◌, require}
use fabric_ca_gm.World.{UserRecord, CertRecord, CertId, Db, World, M, query, get_row, get_error}
use fabric_ca_gm.Registry.{
  get_attribute, get_user, update_rows, revoke_user, revoke_certificates_of,
}
use fabric_ca_gm.Context.{get_caller, can_manage_user}

abbrev pub err_not_revoker : ℕ
err_not_revoker = 7

abbrev pub err_rev_cert_not_found : ℕ
err_rev_cert_not_found = 8

abbrev pub err_cert_wrong_owner : ℕ
err_cert_wrong_owner = 9

abbrev pub err_revoke_id_not_found : ℕ
err_revoke_id_not_found = 10

abbrev pub err_revoke_failure : ℕ
err_revoke_failure = 12

abbrev pub err_revoke_update_user : ℕ
err_revoke_update_user = 13

abbrev pub err_no_certs_revoked : ℕ
err_no_certs_revoked = 14

abbrev pub err_missing_revoke_args : ℕ
err_missing_revoke_args = 15

abbrev pub err_cert_already_revoked : ℕ
err_cert_already_revoked = 66

-- api.RevocationRequest without the flag for a CRL
pub record RevocationRequest : Type 0 where
  pub name : String
  pub serial : String
  pub aki : String
  pub reason : String

-- attributeIsTrue, with userHasAttribute and getUserAttrValue
unfoldable pub attribute_is_true : String → String → M (Unit {0})
attribute_is_true username attrname = do
  user ← get_user username
  attr ← lift (Result.from_option plain (get_attribute user.attributes attrname))
  require (not (attr.value == "")) plain
  val ← lift (Result.from_option plain (parse_bool attr.value))
  require val plain

-- util.RevocationReasonCodes, where a word that is not a key gives 0
unfoldable pub revocation_reason_code : String → ℕ
revocation_reason_code reason =
    if reason == "keycompromise"
    then 1
    else if reason == "cacompromise"
    then 2
    else if reason == "affiliationchanged"
    then 3
    else if reason == "superseded"
    then 4
    else if reason == "cessationofoperation"
    then 5
    else if reason == "certificatehold"
    then 6
    else if reason == "removefromcrl"
    then 8
    else if reason == "privilegewithdrawn"
    then 9
    else if reason == "aacompromise"
    then 10
    else 0

abbrev pub is_cert : String → String → CertRecord → Bool
is_cert serial aki c = c.serial == serial && c.aki == aki

-- GetCertificateWithID
unfoldable pub get_certificate_with_id : String → String → M CertRecord
get_certificate_with_id serial aki =
    failing_as get_error (get_row (λ db. select (is_cert serial aki) db.certificates))

-- RevokeCertificatesByID
unfoldable pub revoke_certificates_by_id : String → ℕ → M (List CertRecord)
revoke_certificates_by_id id reason = do
  crs ← query (λ db. select (λ c. c.id == id && not (c.status == "revoked")) db.certificates)
  revoke_certificates_of (λ c. c.id == id) reason
  pure crs

abbrev pub cert_id : CertRecord → CertId
cert_id c = record { serial = c.serial; aki = c.aki }

-- The normal form of the numbers in a request and in the caller's certificate
unfoldable pub normal : String → String
normal s = trim_left b'0' (to_lower s)

unfoldable pub callers : String → String
callers s = to_lower (trim_left b'0' s)

abbrev pub mark_revoked : ℕ → ℕ → CertRecord → CertRecord
mark_revoked time reason c = record c { status = "revoked"; reason = reason; revoked_at = time }

-- RevokeCertificate of cfssl's certdb: where it reports success, the certificate's row is marked.
pub record CertStore : Type 0 where
  pub revoke : String → String → ℕ → M (Unit {0})
  pub revoke_marks :
      (serial aki : String) (reason : ℕ) (w w' : World) (t : Unit {0})
      → revoke serial aki reason w ≡ (ok t, w')
      → (time : ℕ) × (w'.db ≡ record w.db {
        certificates =
            update_rows (is_cert serial aki) (mark_revoked time reason) w.db.certificates;
      })

-- The test on the owner of a certificate: the caller's own one needs no authority.
unfoldable pub may_revoke : String → String → CertId → UserRecord → M (Unit {0})
may_revoke serial aki own user =
    if aki == callers own.aki && serial == callers own.serial then pure tt else can_manage_user user

-- The test on the identity: the caller may revoke itself.
unfoldable pub may_revoke_user : UserRecord → UserRecord → M (Unit {0})
may_revoke_user user caller = if caller.name == user.name then pure tt else can_manage_user user

module _ (store : CertStore) where
  -- The branch for a serial number and an AKI
  unfoldable pub revoke_certificate : String → String → String → ℕ → M (List CertId)
  revoke_certificate name serial aki reason = do
    own ← gets (λ w. w.enrollment_cert)
    certificate ←
        failing_as (replaced (new_http_err 404 err_rev_cert_not_found))
          (get_certificate_with_id serial aki)
    require (not (certificate.status == "revoked")) (new_http_err 404 err_cert_already_revoked)
    require (name == "" || name == certificate.id) (new_http_err 400 err_cert_wrong_owner)
    user_info ←
        failing_as (replaced (new_http_err 404 err_revoke_id_not_found)) (get_user certificate.id)
    may_revoke serial aki own user_info
    failing_as (replaced (new_http_err 500 err_revoke_failure)) (store.revoke serial aki reason)
    pure (record { serial = serial; aki = aki } ∷ [])

  -- The branch for a name
  unfoldable pub revoke_identity : String → ℕ → M (List CertId)
  revoke_identity name reason = do
    user ← failing_as (replaced (new_http_err 404 err_revoke_id_not_found)) (get_user name)
    caller ← get_caller
    may_revoke_user user caller
    failing_as (replaced (new_http_err 500 err_revoke_update_user)) (revoke_user user)
    recs ←
        failing_as (replaced (new_http_err 500 err_no_certs_revoked))
          (revoke_certificates_by_id name reason)
    pure (map cert_id recs)

  -- revokeHandler behind the authentication of `id`
  unfoldable pub revoke : String → RevocationRequest → M (List CertId)
  revoke id req = do
    failing_as (replaced (new_http_err 401 err_not_revoker)) (attribute_is_true id "hf.Revoker")
    let aki = normal req.aki
    let serial = normal req.serial
    let reason = revocation_reason_code req.reason
    if not (serial == "") && not (aki == "")
        then revoke_certificate req.name serial aki reason
        else if not (req.name == "")
        then revoke_identity req.name reason
        else fail (new_http_err 400 err_missing_revoke_args)
