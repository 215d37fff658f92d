-- ===== src/Enroll/Signing.antt =====
-- lib/serverenroll.go: the handlers, with GetAttrExtension of lib/serverrequestcontext.go, signCert and
-- parseCertificateRequest of lib/gmca.go and InsertCertificate of lib/certdbaccessor.go.
use fabric_ca_gm.Prelude.{
  ℕ, ◌+◌, String, Bool, true, false, not, ◌||◌, Option, none, some, List, [], ◌∷◌, ◌++◌, any, ◌==◌,
  if◌then◌else◌,
}
use fabric_ca_gm.Prelude.Int.{ℤ}
use fabric_ca_gm.Text.{trim_left}
use fabric_ca_gm.Result.{Err, Result, ok, err, plain, panicked, replaced}
use fabric_ca_gm.Result
use fabric_ca_gm.Exec.{pure, lift, gets, ◌>>=◌, ◌>>◌, require}
use fabric_ca_gm.Attr.{Attribute}
use fabric_ca_gm.World.{CertRecord, Db, M, statement}
use fabric_ca_gm.Registry.{Bcrypt, get_user, get_attributes, login_complete}
use fabric_ca_gm.Context.{get_caller}
use fabric_ca_gm.Revoke.{attribute_is_true, is_cert}
use fabric_ca_gm.Auth.{TokenChecks, token_authentication, basic_authentication}
use fabric_ca_gm.Enroll.{
  EnrollmentRequest, Subject, NameEntry, Extension, CertificateRequest, SigningConfig,
  AttributeRequest, Unmarshal, eq_oid, basic_constraints_oid, subject_key_id_oid,
  csr_input_length_check, is_request_for_ca_signing_cert, settle_not_after, set_request_ous,
  get_default_attr_reqs,
}

-- sm2.Certificate as signCert makes it from a request. The public key stands for the key and its algorithms;
-- MaxPathLenZero is whether max_path_len is 0.
pub record Template : Type 0 where
  pub common_name : String
  pub names : List NameEntry
  pub public_key : String
  pub dns_names : List String
  pub ip_addresses : List String
  pub email_addresses : List String
  pub not_before : ℕ
  pub not_after : ℕ
  pub basic_constraints_valid : Bool
  pub is_ca : Bool
  pub max_path_len : ℕ
  pub subject_key_id : String
  pub serial_number : ℕ

-- What the code reads of a certificate that it has made: its number as GetSerialAsHex writes it, its AKI in
-- hexadecimal, its expiry
pub record CertInfo : Type 0 where
  pub serial : String
  pub aki : String
  pub expiry : ℕ

-- The code outside: encoding/pem, sm2.ParseCertificateRequest with the conversion to x509, encoding/asn1,
-- the random serial number, the making of a certificate (the bytes that it returns, whatever its error,
-- which the code drops), its reading, the name in it, and ProcessAttributeRequests of attrmgr.
pub record Pki : Type 0 where
  pub gm_config : Bool
  pub decode : String → Option (String × String)
  pub parse : String → Option CertificateRequest
  pub unmarshal : Unmarshal
  pub random_serial : Result ℕ
  pub ca_key : Result (Unit {0})
  pub create : Template → String
  pub read : String → Option CertInfo
  pub enrollment_id_of : String → Option String
  pub process_attribute_requests : List AttributeRequest → List Attribute → Result (Option String)

-- The configuration of the CA, with the expiry of its certificate and its chain, whose reading may fail
pub record EnrollCa : Type 0 where
  pub signing : SigningConfig
  pub expiry : Result (Option ℕ)
  pub chain : Result String

abbrev pub is_request_block : String → Bool
is_request_block type = type == "NEW CERTIFICATE REQUEST" || type == "CERTIFICATE REQUEST"

abbrev pub differs : Option Subject → String → Bool
differs none id = false
differs (some s) id = not (s.cn == id)

module _ (pki : Pki) where
  -- The parsing in processSignRequest: the code keeps a nil request where it does not parse one, or not as SM2.
  unfoldable pub parsed : String → M CertificateRequest
  parsed bytes =
      lift (Result.from_option panicked (if pki.gm_config then pki.parse bytes else none))

  unfoldable pub check_ca_request : String → Bool → M (Unit {0})
  check_ca_request id for_ca = if for_ca then attribute_is_true id "hf.IntermediateCA" else pure tt

  -- processSignRequest; the request that it changes is its result.
  unfoldable pub process_sign_request :
      String → EnrollmentRequest → SigningConfig → M EnrollmentRequest
  process_sign_request id req signing = do
    block ← lift (Result.from_option plain (pki.decode req.request))
    require (is_request_block block.0) plain
    csr ← parsed block.1
    require (not (differs req.subject id || not (csr.common_name == id))) plain
    for_ca ← lift (is_request_for_ca_signing_cert pki.unmarshal signing csr req.profile)
    check_ca_request id for_ca
    lift (csr_input_length_check csr.names)
    caller ← get_caller
    pure (set_request_ous req caller)

  abbrev pub process_requests : List Attribute → Option (List AttributeRequest) → M (Option String)
  process_requests attrs none = pure none
  process_requests attrs (some reqs) = lift (pki.process_attribute_requests reqs attrs)

  -- GetAttrExtension
  unfoldable pub get_attr_extension : Option (List AttributeRequest) → M (Option String)
  get_attr_extension attr_reqs w =
      (do
        ui ← get_user w.enrollment_id
        let attrs = get_attributes ui.attributes
        process_requests attrs
            (elim attr_reqs [ none ↦ get_default_attr_reqs attrs | some reqs ↦ some reqs ]))
        w

  abbrev pub set_constraints : Extension → Template → Template
  set_constraints e t =
      if eq_oid e.id basic_constraints_oid
      then record t {
        basic_constraints_valid = true;
        is_ca = (pki.unmarshal e.value).0.is_ca;
        max_path_len = (pki.unmarshal e.value).0.max_path_len;
      }
      else t

  abbrev pub set_key_id : Extension → Template → Template
  set_key_id e t =
      if eq_oid e.id subject_key_id_oid then record t { subject_key_id = e.value } else t

  -- The loop over the extensions of a request: the last one on the constraints counts, and errors are dropped.
  unfoldable pub with_constraints : List Extension → Template → Template
  with_constraints [] t = t
  with_constraints (e ∷ es) t = with_constraints es (set_key_id e (set_constraints e t))

  -- parseCertificateRequest, which reads the request's own subject. The expiry is 1000 hours away.
  unfoldable pub template_of : CertificateRequest → ℕ → ℕ → Template
  template_of csr now serial = with_constraints csr.extensions (record {
    common_name = csr.common_name;
    names = csr.names;
    public_key = csr.public_key;
    dns_names = csr.dns_names;
    ip_addresses = csr.ip_addresses;
    email_addresses = csr.email_addresses;
    not_before = now;
    not_after = now + 3600000;
    basic_constraints_valid = false;
    is_ca = false;
    max_path_len = 0;
    subject_key_id = "";
    serial_number = serial;
  })

  -- InsertCertificate: no two rows have the same number and AKI.
  unfoldable pub add_certificate : CertRecord → Db → Bool × Db
  add_certificate c db =
      if any (is_cert c.serial c.aki) db.certificates
      then (false, db)
      else (true, record db { certificates = db.certificates ++ c ∷ [] })

  unfoldable pub insert_certificate : String → CertInfo → M (Unit {0})
  insert_certificate pem info = do
    id ← lift (Result.from_option plain (pki.enrollment_id_of pem))
    done ← statement (
        add_certificate (record {
          id = id;
          serial = info.serial;
          aki = trim_left b'0' info.aki;
          status = "good";
          reason = 0;
          expiry = info.expiry;
          revoked_at = 0;
        }))
    require done plain

  unfoldable pub make_certificate : CertificateRequest → ℕ → ℕ → M String
  make_certificate csr serial now = do
    lift pki.ca_key
    let pem = pki.create (template_of csr now serial)
    info ← lift (Result.from_option panicked (pki.read pem))
    insert_certificate pem info
    pure pem

  -- signCert
  unfoldable pub sign_cert : EnrollmentRequest → M String
  unfolding make_certificate
  sign_cert req = do
    block ← lift (Result.from_option plain (pki.decode req.request))
    require (is_request_block block.0) plain
    csr ← lift (Result.from_option plain (pki.parse block.1))
    serial ← lift pki.random_serial
    now ← gets (λ w. w.now)
    make_certificate csr serial now

  abbrev pub with_extension : EnrollmentRequest → Option String → EnrollmentRequest
  with_extension req none = req
  with_extension req (some ext) = record req { extensions = req.extensions ++ ext ∷ [] }

  module _ (ca : EnrollCa) where
    unfoldable pub prepare : String → EnrollmentRequest → M EnrollmentRequest
    prepare id req = do
      ca_expiry ← lift (Result.on_err (replaced plain) ca.expiry)
      now ← gets (λ w. w.now)
      not_after ← lift (settle_not_after ca.signing ca_expiry req now)
      process_sign_request id (record req { not_after = some not_after }) ca.signing

    unfoldable pub sign_prepared : EnrollmentRequest → M String
    sign_prepared req = do
      ext ← get_attr_extension req.attr_reqs
      cert ← sign_cert (with_extension req ext)
      lift ca.chain
      pure cert

    -- handleEnroll
    unfoldable pub handle_enroll : String → Result EnrollmentRequest → M String
    unfolding prepare sign_prepared
    handle_enroll id body = do req ← lift body; req' ← prepare id req; sign_prepared req'

    -- enrollHandler
    unfoldable pub enroll_handler :
        Bcrypt → ℤ → Option (Option (String × String)) → Result EnrollmentRequest → M String
    enroll_handler bcrypt ca_max auth_hdr body = do
      found ← basic_authentication bcrypt ca_max auth_hdr
      cert ← handle_enroll found.0 body
      login_complete found.1
      pure cert

    -- reenrollHandler; the body is read as text and decoded.
    unfoldable pub reenroll_handler :
        TokenChecks → String → Result String → Result EnrollmentRequest → M String
    reenroll_handler checks auth_hdr text body = do
      id ← token_authentication checks auth_hdr text
      handle_enroll id body
