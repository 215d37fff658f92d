-- ===== src/TokenSignature.antt =====
-- util/util.go: VerifyToken, DecodeToken and GetX509CertificateFromPEM. Base64, PEM, the parsing of certificates and
-- the cryptographic provider are parameters; the conversion of a certificate to sm2 is left out.
pub mod Signed
use Prim.Native.String
use fabric_ca_gm.Prelude.{
  String, Bool, true, false, Option, none, some, List, [], ◌∷◌, ◌==◌, if◌then◌else◌,
}
use fabric_ca_gm.Text.{split}
use fabric_ca_gm.Result.{
  Err, Result, ok, err, plain, panicked, replaced, from_option, on_err, ensure, ◌>>=◌, ◌>>◌,
}

-- What the server reads of an x509 certificate: the name in its subject, and its numbers in hexadecimal
pub record Certificate : Type 0 where
  pub enrollment_id : String
  pub serial : String
  pub aki : String

-- encoding/base64 and encoding/pem, the two parsers, and the provider: the key of a certificate, which may be nil, a
-- hash, and the verification of a signature by a key over a digest
pub record Crypto : Type 0 where
  pub has_csp : Bool
  pub gm_config : Bool
  pub b64_decode : String → Option String
  pub b64_encode : String → String
  pub pem_decode : String → Option String
  pub parse_sm2 : String → Option Certificate
  pub parse_x509 : String → Option Certificate
  pub key_import : Certificate → Result (Option String)
  pub hash : String → Result String
  pub verify : String → String → String → Result Bool

abbrev found : Option Certificate → Result (Option Certificate)
found none = err plain
found (some cert) = ok (some cert)

abbrev two_parts : List String → Option (String × String)
two_parts [] = none
two_parts (a ∷ []) = none
two_parts (a ∷ b ∷ []) = some (a, b)
two_parts (a ∷ b ∷ c ∷ parts) = none

module _ (crypto : Crypto) where
  -- GetX509CertificateFromPEM; with the GM configuration an error of the parser is shadowed, and the result nil.
  unfoldable pub get_x509_certificate_from_pem : String → Result (Option Certificate)
  get_x509_certificate_from_pem cert = do
    block ← from_option plain (crypto.pem_decode cert)
    if crypto.gm_config then ok (crypto.parse_sm2 block) else found (crypto.parse_x509 block)

  -- DecodeToken: the certificate, and the two parts of the token
  unfoldable pub decode_token : String → Result (Option Certificate × (String × String))
  decode_token token = do
    ensure (if token == "" then false else true) plain
    parts ← from_option plain (two_parts (split b'.' token))
    cert_decoded ← from_option plain (crypto.b64_decode parts.0)
    x509_cert ← on_err (replaced plain) (get_x509_certificate_from_pem cert_decoded)
    ok (x509_cert, parts)

  -- VerifyToken
  unfoldable pub verify_token : String → String → Result Certificate
  verify_token token body = do
    ensure crypto.has_csp plain
    decoded ← decode_token token
    sig ← from_option plain (crypto.b64_decode decoded.1.1)
    cert ← from_option panicked decoded.0
    pk2 ← on_err (replaced plain) (crypto.key_import cert)
    key ← from_option plain pk2
    digest ←
        on_err (replaced plain)
          (crypto.hash (String.◌++◌ (crypto.b64_encode body) (String.◌++◌ "." decoded.1.0)))
    valid ← on_err (replaced plain) (crypto.verify key sig digest)
    if valid then ok cert else err plain
