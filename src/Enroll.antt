-- ===== src/Enroll.antt =====
-- lib/serverenroll.go: what an enrollment asks for, and the checks of the signing request. Parsing, the
-- signing keys and attrmgr of the fabric are parameters; times are seconds.
pub mod Signing
pub mod Checked
pub mod Issued
pub mod Enrolled
mod Tests
use Prim.Native.Nat.{◌*◌, ◌/◌}
use Prim.Native.String
use fabric_ca_gm.Prelude.{
  ℕ, zero, suc, ◌+◌, String, Bool, true, false, not, ◌&&◌, ◌||◌, Option, none, some, List, [], ◌∷◌,
  ◌++◌, map, eqb, leb, ◌==◌, if◌then◌else◌, select, is_empty,
}
use fabric_ca_gm.Result.{Err, Result, ok, err, plain, panicked, new_http_err, ensure, ◌>>=◌, ◌>>◌}
use fabric_ca_gm.Result
use fabric_ca_gm.Attr.{Attribute}
use fabric_ca_gm.World.{UserRecord}
use fabric_ca_gm.Registry.{get_affiliation_path}

abbrev pub err_bad_csr : ℕ
err_bad_csr = 31

-- csr.Name of cfssl, with the fields that the code reads
pub record Name : Type 0 where
  pub c : String
  pub st : String
  pub l : String
  pub o : String
  pub ou : String
  pub serial_number : String

-- signer.Subject
pub record Subject : Type 0 where
  pub cn : String
  pub names : List Name

-- An entry of pkix.Name.Names: its type, and its value where that is a text
pub record NameEntry : Type 0 where
  pub type : List ℕ
  pub value : Option String

-- pkix.Extension
pub record Extension : Type 0 where
  pub id : List ℕ
  pub value : String

-- x509.CertificateRequest
pub record CertificateRequest : Type 0 where
  pub common_name : String
  pub names : List NameEntry
  pub public_key : String
  pub dns_names : List String
  pub ip_addresses : List String
  pub email_addresses : List String
  pub extensions : List Extension

-- csr.BasicConstraints
pub record BasicConstraints : Type 0 where
  pub is_ca : Bool
  pub max_path_len : ℕ

-- config.SigningProfile
pub record Profile : Type 0 where
  pub expiry : ℕ
  pub is_ca : Bool

-- config.Signing
pub record SigningConfig : Type 0 where
  pub default : Option Profile
  pub profiles : List (String × Profile)

-- api.AttributeRequest
pub record AttributeRequest : Type 0 where
  pub name : String
  pub optional : Bool

-- api.EnrollmentRequestNet with its signer.SignRequest
pub record EnrollmentRequest : Type 0 where
  pub request : String
  pub subject : Option Subject
  pub profile : String
  pub not_after : Option ℕ
  pub extensions : List String
  pub attr_reqs : Option (List AttributeRequest)

abbrev pub eq_oid : List ℕ → List ℕ → Bool
eq_oid [] [] = true
eq_oid [] (b ∷ bs) = false
eq_oid (a ∷ as') [] = false
eq_oid (a ∷ as') (b ∷ bs) = eqb a b && eq_oid as' bs

abbrev pub basic_constraints_oid : List ℕ
basic_constraints_oid = 2 ∷ 5 ∷ 29 ∷ 19 ∷ []

-- The identifier of the key that an extension may give
abbrev pub subject_key_id_oid : List ℕ
subject_key_id_oid = 2 ∷ 5 ∷ 29 ∷ 14 ∷ []

-- len(s)
unfoldable pub len : String → ℕ
len String.[] = 0
len (String.◌∷◌ c s) = suc (len s)

-- The limit on the value of a name by its type
unfoldable pub limit_of : List ℕ → Option ℕ
limit_of type =
    if eq_oid type (2 ∷ 5 ∷ 4 ∷ 3 ∷ [])
    then some 64
    else if eq_oid type (2 ∷ 5 ∷ 4 ∷ 5 ∷ [])
    then some 64
    else if eq_oid type (2 ∷ 5 ∷ 4 ∷ 11 ∷ [])
    then some 64
    else if eq_oid type (2 ∷ 5 ∷ 4 ∷ 10 ∷ [])
    then some 64
    else if eq_oid type (2 ∷ 5 ∷ 4 ∷ 6 ∷ [])
    then some 2
    else if eq_oid type (2 ∷ 5 ∷ 4 ∷ 7 ∷ [])
    then some 128
    else if eq_oid type (2 ∷ 5 ∷ 4 ∷ 8 ∷ [])
    then some 128
    else none

abbrev pub within : Option ℕ → String → Bool
within none value = true
within (some limit) value = leb (len value) limit

-- The type assertion n.Value.(string) panics for a value that is not a text.
abbrev pub entry_check : NameEntry → Result (Unit {0})
entry_check n =
    Result.from_option panicked n.value >>= λ value. ensure (within (limit_of n.type) value) plain

-- csrInputLengthCheck
unfoldable pub csr_input_length_check : List NameEntry → Result (Unit {0})
csr_input_length_check [] = ok tt
csr_input_length_check (n ∷ names) =
    let rest = csr_input_length_check names in entry_check n >> rest

abbrev pub find_profile : List (String × Profile) → String → Option Profile
find_profile [] name = none
find_profile ((n, p) ∷ profiles) name = if n == name then some p else find_profile profiles name

-- getSigningProfile
unfoldable pub get_signing_profile : SigningConfig → String → Option Profile
get_signing_profile signing profile =
    if profile == "" then signing.default else find_profile signing.profiles profile

-- The profile whose expiry holds where the request sets none
unfoldable pub expiry_profile : SigningConfig → String → Option Profile
expiry_profile signing profile =
    if profile == ""
    then signing.default
    else elim (find_profile signing.profiles profile) [ none ↦ signing.default | some p ↦ some p ]

-- time.Now().Round(time.Minute)
abbrev pub round_minute : ℕ → ℕ
round_minute t = (t + 30) / 60 * 60

abbrev pub clipped : Option ℕ → ℕ → ℕ
clipped none t = t
clipped (some limit) t = if leb t limit then t else limit

-- The expiry that handleEnroll settles on: that of the request, or of a profile, up to that of the CA
unfoldable pub settle_not_after : SigningConfig → Option ℕ → EnrollmentRequest → ℕ → Result ℕ
settle_not_after signing ca_expiry req now = elim req.not_after [
  | some t ↦ ok (clipped ca_expiry t)
  | none ↦ Result.from_option panicked (expiry_profile signing req.profile) >>= λ p.
      ok (clipped ca_expiry (round_minute now + p.expiry))
]

-- asn1.Unmarshal on the constraints: the value that it leaves, and whether there is data behind it or an
-- error
abbrev pub Unmarshal : Type 0
Unmarshal = String → BasicConstraints × Option Bool

abbrev pub extension_is_ca : Unmarshal → Extension → Result Bool
extension_is_ca unmarshal e =
    if eq_oid e.id basic_constraints_oid
    then elim (unmarshal e.value).1 [
      | none ↦ err (new_http_err 400 err_bad_csr)
      | some true ↦ err (new_http_err 400 err_bad_csr)
      | some false ↦ ok (unmarshal e.value).0.is_ca
    ]
    else ok false

-- The loop over the extensions stops at the first that asks for a CA.
unfoldable pub any_is_ca : Unmarshal → List Extension → Result Bool
any_is_ca unmarshal [] = ok false
any_is_ca unmarshal (e ∷ es) =
    let rest = any_is_ca unmarshal es in
    extension_is_ca unmarshal e >>= λ found. if found then ok true else rest

-- isRequestForCASigningCert
unfoldable pub is_request_for_ca_signing_cert :
    Unmarshal → SigningConfig → CertificateRequest → String → Result Bool
is_request_for_ca_signing_cert unmarshal signing csr profile =
    Result.from_option plain (get_signing_profile signing profile) >>= λ p.
    if p.is_ca then ok true else any_is_ca unmarshal csr.extensions

abbrev has_other_field : Name → Bool
has_other_field n =
    not (n.c == "")
    || not (n.l == "")
    || not (n.o == "")
    || not (n.st == "")
    || not (n.serial_number == "")

abbrev pub unit_name : String → Name
unit_name ou = record { c = ""; st = ""; l = ""; o = ""; ou = ou; serial_number = "" }

abbrev pub names_of : Option Subject → List Name
names_of none = []
names_of (some s) = s.names

abbrev pub cn_of : Option Subject → String
cn_of none = ""
cn_of (some s) = s.cn

abbrev pub without_unit : Name → Name
without_unit n = record n { ou = "" }

-- setRequestOUs
unfoldable pub set_request_ous : EnrollmentRequest → UserRecord → EnrollmentRequest
set_request_ous req caller = record req {
  subject = some (record {
    cn = cn_of req.subject;
    names =
        map without_unit (select has_other_field (names_of req.subject))
        ++ unit_name caller.type ∷ map unit_name (get_affiliation_path caller);
  });
}

abbrev requested : Attribute → AttributeRequest
requested a = record { name = a.name; optional = false }

-- getDefaultAttrReqs of lib/serverrequestcontext.go
unfoldable pub get_default_attr_reqs : List Attribute → Option (List AttributeRequest)
get_default_attr_reqs attrs =
    let chosen = select (λ a. a.e_cert) attrs in
    if is_empty chosen then none else some (map requested chosen)
