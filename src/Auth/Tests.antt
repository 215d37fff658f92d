-- ===== src/Auth/Tests.antt =====
-- Authentications on the sample tables.
use fabric_ca_gm.Prelude.{
  String, ◌≡◌, refl, sym, ap, ◌∙◌, true, false, none, some, ◌==◌, List, [], ◌∷◌, select,
}
use fabric_ca_gm.Prelude.Int.{pos}
use fabric_ca_gm.Result.{ok}
use fabric_ca_gm.TokenSignature.{
  Certificate, Crypto, get_x509_certificate_from_pem, decode_token, verify_token,
}
use fabric_ca_gm.Text.{split, to_lower, trim_left}
use fabric_ca_gm.World.{CertRecord, Db, World, query, get_row, statement}
use fabric_ca_gm.World.Statements.{query-eq-ok, query-db}
use fabric_ca_gm.Registry.{get_user, login}
use fabric_ca_gm.Revoke.{is_cert, callers}
use fabric_ca_gm.Auth.{
  TokenChecks, verify_certificate, check_rows, token_authentication, basic_authentication,
}
use fabric_ca_gm.Auth.Token.{Authenticated, token_authentication-Authenticated}
use fabric_ca_gm.Auth.Basic.{SignedIn, basic_authentication-SignedIn}
use fabric_ca_gm.Samples.{plain_text, peer, world}

abbrev rows_of : String → String → Db → List CertRecord
rows_of serial aki db = select (is_cert serial aki) db.certificates

abbrev peers : Certificate
peers = record { enrollment_id = "peer1"; serial = "0A"; aki = "B1" }

-- A texts' code that changes nothing, and signatures that are what is signed
abbrev clear : Crypto
clear = record {
  has_csp = true;
  gm_config = true;
  b64_decode = some;
  b64_encode = λ text. text;
  pem_decode = some;
  parse_sm2 = λ block. some peers;
  parse_x509 = λ block. none;
  key_import = λ cert. ok (some "key");
  hash = ok;
  verify = λ key sig digest. ok (digest == "body.cert");
}

-- Checks that accept one certificate
abbrev trusting : TokenChecks
trusting = record {
  crypto = clear;
  verify_options = ok "pools";
  verify_chain = λ pools cert. ok tt;
  expired_checked = λ cert. (false, true);
  get_certificate = λ serial aki. query (rows_of serial aki);
  get_certificate_rows = λ serial aki w w' certs h. (
    query-eq-ok (rows_of serial aki) w certs (ap (λ r. r.0) h),
    ap (λ r. r.1.db) (sym h) ∙ query-db (rows_of serial aki) w,
  );
}

abbrev stored : World
stored = record world {
  db = record world.db {
    certificates =
        record {
          id = "peer1";
          serial = "a";
          aki = "b1";
          status = "good";
          reason = 0;
          expiry = 900;
          revoked_at = 0;
        }
        ∷ [];
  };
}

abbrev after : World
after = (token_authentication trusting "cert.signature" (ok "body") stored).1

authenticates :
    token_authentication trusting "cert.signature" (ok "body") stored ≡ (ok "peer1", after)
unfolding token_authentication verify_token decode_token get_x509_certificate_from_pem
    verify_certificate split check_rows query statement callers to_lower trim_left
authenticates = refl

token_authentication-Authenticated_example :
    Authenticated trusting "cert.signature" (ok "body") stored "peer1" after
token_authentication-Authenticated_example =
    token_authentication-Authenticated trusting "cert.signature" (ok "body") stored after "peer1"
      authenticates

abbrev signed_in : World
signed_in = (basic_authentication plain_text (pos 9) (some (some ("peer1", "peerpw"))) world).1

signs_in :
    basic_authentication plain_text (pos 9) (some (some ("peer1", "peerpw"))) world
    ≡ (ok ("peer1", peer), signed_in)
unfolding basic_authentication get_user get_row query statement login
signs_in = refl

basic_authentication-SignedIn_example :
    SignedIn plain_text (pos 9) (some (some ("peer1", "peerpw"))) world "peer1" peer signed_in
basic_authentication-SignedIn_example =
    basic_authentication-SignedIn plain_text (pos 9) (some (some ("peer1", "peerpw"))) world
      signed_in "peer1" peer signs_in
