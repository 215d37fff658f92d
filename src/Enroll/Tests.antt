-- ===== src/Enroll/Tests.antt =====
-- An enrollment on the sample tables.
use fabric_ca_gm.Prelude.{String, ◌≡◌, refl, true, false, Option, none, some, [], ◌∷◌}
use fabric_ca_gm.Result.{Result, ok}
use fabric_ca_gm.Attr.{exists}
use fabric_ca_gm.World.{World, statement, query, get_row}
use fabric_ca_gm.Registry.{
  get_user, get_attributes, login, login_complete, may_count, count_login, update_users,
  update_rows, expect_one,
}
use fabric_ca_gm.Context.{get_caller}
use fabric_ca_gm.Enroll.{
  EnrollmentRequest, CertificateRequest, len, limit_of, csr_input_length_check, get_signing_profile,
  expiry_profile, settle_not_after, any_is_ca, is_request_for_ca_signing_cert, set_request_ous,
  get_default_attr_reqs, basic_constraints_oid,
}
use fabric_ca_gm.Enroll.Signing.{
  Pki, EnrollCa, parsed, check_ca_request, process_sign_request, get_attr_extension,
  with_constraints, template_of, add_certificate, insert_certificate, make_certificate, sign_cert,
  prepare, sign_prepared, handle_enroll, enroll_handler,
}
use fabric_ca_gm.Enroll.Issued.{Issued, handle_enroll-Issued}
use fabric_ca_gm.Enroll.Enrolled.{Enrolled, enroll_handler-Enrolled}
use fabric_ca_gm.Auth.{basic_authentication}
use fabric_ca_gm.Prelude.Int.{pos}
use fabric_ca_gm.Samples.{plain_text, world}

abbrev csr : CertificateRequest
csr = record {
  common_name = "admin";
  names =
      record { type = 2 ∷ 5 ∷ 4 ∷ 3 ∷ []; value = some "admin" }
      ∷ record { type = 2 ∷ 5 ∷ 4 ∷ 11 ∷ []; value = some "another" }
      ∷ [];
  public_key = "key";
  dns_names = "ca.org1" ∷ [];
  ip_addresses = [];
  email_addresses = [];
  extensions = record { id = basic_constraints_oid; value = "no CA" } ∷ [];
}

-- Certificates that are their subject's name
abbrev pki : Pki
pki = record {
  gm_config = true;
  decode = λ request. some ("CERTIFICATE REQUEST", request);
  parse = λ bytes. some csr;
  unmarshal = λ value. (record { is_ca = false; max_path_len = 0 }, some false);
  random_serial = ok 31;
  ca_key = ok tt;
  create = λ t. t.common_name;
  read = λ cert. some (record { serial = "1f"; aki = "00b2"; expiry = 900 });
  enrollment_id_of = some;
  process_attribute_requests = λ reqs attrs. ok none;
}

abbrev ca : EnrollCa
ca = record {
  signing = record { default = some (record { expiry = 600; is_ca = false }); profiles = [] };
  expiry = ok (some 800);
  chain = ok "chain";
}

abbrev request : EnrollmentRequest
request = record {
  request = "csr";
  subject = none;
  profile = "";
  not_after = none;
  extensions = [];
  attr_reqs = none;
}

abbrev after : World
after = (handle_enroll pki ca "admin" (ok request) world).1

issues : handle_enroll pki ca "admin" (ok request) world ≡ (ok "admin", after)
unfolding handle_enroll prepare sign_prepared settle_not_after expiry_profile process_sign_request
    parsed is_request_for_ca_signing_cert get_signing_profile any_is_ca check_ca_request
    csr_input_length_check limit_of len get_caller get_user get_row query statement set_request_ous
    get_attr_extension get_attributes get_default_attr_reqs sign_cert make_certificate
    insert_certificate add_certificate exists template_of with_constraints
issues = refl

handle_enroll-Issued_example :
    (req : EnrollmentRequest) × (◌≡◌ {A = Result EnrollmentRequest} (ok request) (ok req))
    × Issued pki ca "admin" req world "admin" after.db
handle_enroll-Issued_example =
    handle_enroll-Issued pki ca "admin" (ok request) world after "admin" issues

abbrev signed_header : Option (Option (String × String))
signed_header = some (some ("admin", "adminpw"))

abbrev enrolled : World
enrolled = (enroll_handler pki ca plain_text (pos 9) signed_header (ok request) world).1

enrolls :
    enroll_handler pki ca plain_text (pos 9) signed_header (ok request) world
    ≡ (ok "admin", enrolled)
unfolding enroll_handler basic_authentication login login_complete may_count count_login
    update_users update_rows expect_one handle_enroll prepare sign_prepared settle_not_after
    expiry_profile process_sign_request parsed is_request_for_ca_signing_cert get_signing_profile
    any_is_ca check_ca_request csr_input_length_check limit_of len get_caller get_user get_row query
    statement set_request_ous get_attr_extension get_attributes get_default_attr_reqs sign_cert
    make_certificate insert_certificate add_certificate exists template_of with_constraints
enrolls = refl

enroll_handler-Enrolled_example :
    Enrolled pki ca plain_text (pos 9) signed_header (ok request) world "admin" enrolled.db
enroll_handler-Enrolled_example =
    enroll_handler-Enrolled pki ca plain_text (pos 9) signed_header (ok request) world enrolled
      "admin" enrolls
