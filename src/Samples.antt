-- ===== src/Samples.antt =====
-- Data for tests: a registrar, an identity that is not one, and tables that hold both.
use fabric_ca_gm.Prelude.{String, ◌≡◌, true, false, none, some, List, [], ◌∷◌, ◌==◌, arith, eq_iff}
use fabric_ca_gm.Prelude.Int.{pos, minus_one}
use fabric_ca_gm.Attr
use fabric_ca_gm.Attr.{Attribute}
use fabric_ca_gm.World.{UserRecord, AffiliationRecord, CertRecord, World}
use fabric_ca_gm.Registry.{Bcrypt}

-- A hash that keeps the password
pub same_text : (p h : String) → some p ≡ some h → (h == p) ≡ true
same_text p h e = ground (arith, eq_iff h p)

abbrev pub plain_text : Bcrypt
plain_text = record { generate = some; compare = λ h p. h == p; compare_generated = same_text }

abbrev pub attribute : String → String → Attribute
attribute name value = record { name = name; value = value; e_cert = false }

abbrev pub admin : UserRecord
admin = record {
  name = "admin";
  pass = "adminpw";
  type = "client";
  affiliation = "org1";
  attributes =
      attribute Attr.roles "client,peer"
      ∷ attribute Attr.registrar_attr "*"
      ∷ attribute "hf.Revoker" "true"
      ∷ attribute Attr.affiliation_mgr "true"
      ∷ [];
  state = pos 0;
  max_enrollments = minus_one;
  level = 1;
}

abbrev pub peer : UserRecord
peer = record {
  name = "peer1";
  pass = "peerpw";
  type = "peer";
  affiliation = "org1.sales";
  attributes = [];
  state = pos 1;
  max_enrollments = pos 2;
  level = 1;
}

abbrev pub affiliations : List AffiliationRecord
affiliations =
    record { name = "org1"; prekey = ""; level = 1 }
    ∷ record { name = "org1.sales"; prekey = "org1"; level = 1 }
    ∷ record { name = "org2"; prekey = ""; level = 1 }
    ∷ []

abbrev pub peer_cert : CertRecord
peer_cert = record {
  id = "peer1";
  serial = "0a";
  aki = "b1";
  status = "good";
  reason = 0;
  expiry = 900;
  revoked_at = 0;
}

-- A request that the registrar makes
abbrev pub world : World
world = record {
  db = record {
    users = admin ∷ peer ∷ [];
    affiliations = affiliations;
    certificates = peer_cert ∷ [];
  };
  faults = [];
  now = 100;
  enrollment_id = "admin";
  enrollment_cert = record { serial = "01"; aki = "a0" };
  caller = none;
  caller_roles = [];
}

-- The same, after the caller was read
abbrev pub known_world : World
known_world = record world { caller = some admin }
