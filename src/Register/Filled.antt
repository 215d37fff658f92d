-- ===== src/Register/Filled.antt =====
-- The defaults of a registration's request.
use fabric_ca_gm.Prelude.{◌≡◌, ◌≢◌, ◌⊎◌, arith, eq_iff}
use fabric_ca_gm.World.{UserRecord}
use fabric_ca_gm.Context.Authority.{get_user_affiliation_lem}
use fabric_ca_gm.Register.{RegistrationRequest, normalize_registration_request, or_client}

-- The request with its defaults filled in: an empty affiliation stands for the caller's and "." for the root, an
-- empty type for the caller's, or for "client" where that is empty too.
pub record Filled (req : RegistrationRequest) (caller : UserRecord) (filled : RegistrationRequest)
    : Type 0 where
  pub name : filled.name ≡ req.name
  pub secret : filled.secret ≡ req.secret
  pub max_enrollments : filled.max_enrollments ≡ req.max_enrollments
  pub attributes : filled.attributes ≡ req.attributes
  pub affiliation :
      ((req.affiliation ≡ "") × (filled.affiliation ≡ caller.affiliation))
      ⊎ (((req.affiliation ≡ ".") × (filled.affiliation ≡ ""))
          ⊎ ((req.affiliation ≢ "")
              × (req.affiliation ≢ ".")
              × (filled.affiliation ≡ req.affiliation)))
  pub type :
      ((req.type ≢ "") × (filled.type ≡ req.type))
      ⊎ (((req.type ≡ "") × (caller.type ≢ "") × (filled.type ≡ caller.type))
          ⊎ ((req.type ≡ "") × (caller.type ≡ "") × (filled.type ≡ "client")))

module _ (req : RegistrationRequest) (caller : UserRecord) where
  abbrev pub completed : RegistrationRequest
  completed = or_client (normalize_registration_request req caller)

  pub completed-Filled : Filled req caller completed
  unfolding or_client normalize_registration_request
  completed-Filled = record {
    name = ground arith;
    secret = ground arith;
    max_enrollments = ground arith;
    attributes = ground arith;
    affiliation = ground (
      arith,
      eq_iff req.affiliation "",
      eq_iff req.affiliation ".",
      get_user_affiliation_lem caller,
    );
    type = ground (arith, eq_iff req.type "", eq_iff caller.type "");
  }
