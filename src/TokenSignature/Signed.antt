-- ===== src/TokenSignature/Signed.antt =====
-- What a token that is accepted consists of.
use Prim.Native.String
use fabric_ca_gm.Prelude.{
  String, ◌≡◌, refl, ap, sym, ◌∙◌, Bool, true, false, Option, none, some, List, [], ◌∷◌, arith,
  if◌then◌else◌, ◌==◌,
}
use fabric_ca_gm.Text.{split}
use fabric_ca_gm.Result.{
  Err, Result, ok, err, plain, panicked, replaced, from_option, on_err, ensure, bind-eq-ok,
}
use fabric_ca_gm.TokenSignature.{
  Certificate, Crypto, found, two_parts, get_x509_certificate_from_pem, decode_token, verify_token,
}

-- A token is a certificate and a signature, each in base64, with a dot between; the certificate's key has signed
-- the body and the certificate.
pub record Signed (crypto : Crypto) (token body : String) (cert : Certificate) : Type 0 where
  pub b64_cert : String
  pub b64_sig : String
  pub parts : split b'.' token ≡ b64_cert ∷ b64_sig ∷ []
  pub pem : String
  pub cert_decoded : crypto.b64_decode b64_cert ≡ some pem
  pub block : String
  pub pem_decoded : crypto.pem_decode pem ≡ some block
  pub parsed :
      (if crypto.gm_config then crypto.parse_sm2 block else crypto.parse_x509 block) ≡ some cert
  pub key : String
  pub imported : crypto.key_import cert ≡ ok (some key)
  pub sig : String
  pub sig_decoded : crypto.b64_decode b64_sig ≡ some sig
  pub digest : String
  pub hashed :
      crypto.hash (String.◌++◌ (crypto.b64_encode body) (String.◌++◌ "." b64_cert)) ≡ ok digest
  pub verified : crypto.verify key sig digest ≡ ok true

some_of : {A : Type 0} (e : Err) (o : Option A) (a : A) → from_option e o ≡ ok a → o ≡ some a
some_of e none a h = absurd (cc h)
some_of e (some b) a h = ground (arith, h)

ok_of : {A : Type 0} (f : Err → Err) (r : Result A) (a : A) → on_err f r ≡ ok a → r ≡ ok a
ok_of f (ok b) a h = h
ok_of f (err x) a h = absurd (cc h)

two_parts-eq-some :
    (parts : List String) (a b : String) → two_parts parts ≡ some (a, b) → parts ≡ a ∷ b ∷ []
two_parts-eq-some [] a b h = absurd (cc h)
two_parts-eq-some (p ∷ []) a b h = absurd (cc h)
two_parts-eq-some (p ∷ q ∷ []) a b h = ground (arith, h)
two_parts-eq-some (p ∷ q ∷ r ∷ parts) a b h = absurd (cc h)

found-eq-ok :
    (o : Option Certificate) (cert : Certificate) → found o ≡ ok (some cert) → o ≡ some cert
found-eq-ok none cert h = absurd (cc h)
found-eq-ok (some c) cert h = ground (arith, h)

module _ (crypto : Crypto) where
  chosen :
      (gm : Bool) (sm2 x509 : Option Certificate) (cert : Certificate)
      → (if gm then ok sm2 else found x509) ≡ ok (some cert)
      → (if gm then sm2 else x509) ≡ some cert
  chosen true sm2 x509 cert h = ground (arith, h)
  chosen false sm2 x509 cert h = found-eq-ok x509 cert h

  get_x509_certificate_from_pem-eq-ok :
      (pem : String) (cert : Certificate)
      → get_x509_certificate_from_pem crypto pem ≡ ok (some cert)
      → (block : String) × (crypto.pem_decode pem ≡ some block)
        × ((if crypto.gm_config then crypto.parse_sm2 block else crypto.parse_x509 block)
            ≡ some cert)
  unfolding get_x509_certificate_from_pem
  get_x509_certificate_from_pem-eq-ok pem cert h =
      let (block, e, k) = bind-eq-ok (from_option plain (crypto.pem_decode pem)) _ h in
      (
        block,
        some_of plain (crypto.pem_decode pem) block e,
        chosen crypto.gm_config (crypto.parse_sm2 block) (crypto.parse_x509 block) cert k,
      )

  decode_token-eq-ok :
      (token : String) (cert : Option Certificate) (a b : String)
      → decode_token crypto token ≡ ok (cert, (a, b))
      → (split b'.' token ≡ a ∷ b ∷ [])
        × (pem : String) × (crypto.b64_decode a ≡ some pem)
        × (get_x509_certificate_from_pem crypto pem ≡ ok cert)
  unfolding decode_token
  decode_token-eq-ok token cert a b h =
      let (_, _, h₁) = bind-eq-ok (ensure (if token == "" then false else true) plain) _ h in
      let (parts, e₂, h₂) = bind-eq-ok (from_option plain (two_parts (split b'.' token))) _ h₁ in
      let (pem, e₃, h₃) = bind-eq-ok (from_option plain (crypto.b64_decode parts.0)) _ h₂ in
      let (x, e₄, h₄) =
        bind-eq-ok (on_err (replaced plain) (get_x509_certificate_from_pem crypto pem)) _ h₃ in
      let it : parts.0 ≡ a = ground (arith, h₄) in
      let two : parts ≡ (a, b) = ground (arith, h₄) in
      let same : x ≡ cert = ground (arith, h₄) in
      (
        two_parts-eq-some (split b'.' token) a b
            (some_of plain (two_parts (split b'.' token)) parts e₂ ∙ ap some two),
        pem,
        ap crypto.b64_decode (sym it) ∙ some_of plain (crypto.b64_decode parts.0) pem e₃,
        ok_of (replaced plain) (get_x509_certificate_from_pem crypto pem) x e₄ ∙ ap ok same,
      )

  judged :
      (valid : Bool) (c cert : Certificate)
      → (if valid then ok c else err plain) ≡ ok cert
      → (valid ≡ true) × (c ≡ cert)
  judged true c cert h = (refl, ground (arith, h))
  judged false c cert h = absurd (cc h)

  pub verify_token-Signed :
      (token body : String) (cert : Certificate)
      → verify_token crypto token body ≡ ok cert
      → Signed crypto token body cert
  unfolding verify_token
  verify_token-Signed token body cert h =
      let (_, _, h₁) = bind-eq-ok (ensure crypto.has_csp plain) _ h in
      let ((x, (a, b)), e₂, h₂) = bind-eq-ok (decode_token crypto token) _ h₁ in
      let (sig, e₃, h₃) = bind-eq-ok (from_option plain (crypto.b64_decode b)) _ h₂ in
      let (c, e₄, h₄) = bind-eq-ok (from_option panicked x) _ h₃ in
      let (pk2, e₅, h₅) = bind-eq-ok (on_err (replaced plain) (crypto.key_import c)) _ h₄ in
      let (key, e₆, h₆) = bind-eq-ok (from_option plain pk2) _ h₅ in
      let text = String.◌++◌ (crypto.b64_encode body) (String.◌++◌ "." a) in
      let (digest, e₇, h₇) = bind-eq-ok (on_err (replaced plain) (crypto.hash text)) _ h₆ in
      let (valid, e₈, h₈) =
        bind-eq-ok (on_err (replaced plain) (crypto.verify key sig digest)) _ h₇ in
      let (yes', same) = judged valid c cert h₈ in
      let (parts, pem, decoded, read) = decode_token-eq-ok token x a b e₂ in
      let (block, unwrapped, parsed) =
        get_x509_certificate_from_pem-eq-ok pem cert
          (read ∙ ap ok (some_of panicked x c e₄ ∙ ap some same)) in
      record {
        b64_cert = a;
        b64_sig = b;
        parts = parts;
        pem = pem;
        cert_decoded = decoded;
        block = block;
        pem_decoded = unwrapped;
        parsed = parsed;
        key = key;
        imported =
            ap crypto.key_import (sym same)
            ∙ ok_of (replaced plain) (crypto.key_import c) pk2 e₅
            ∙ ap ok (some_of plain pk2 key e₆);
        sig = sig;
        sig_decoded = some_of plain (crypto.b64_decode b) sig e₃;
        digest = digest;
        hashed = ok_of (replaced plain) (crypto.hash text) digest e₇;
        verified = ok_of (replaced plain) (crypto.verify key sig digest) valid e₈ ∙ ap ok yes';
      }
