-- ===== src/Register/Effect.antt =====
-- What registering an identity does to the tables.
use fabric_ca_gm.Prelude.{
  String, ◌≡◌, ◌≢◌, sym, ap, ◌∙◌, ◌⊎◌, inl, inr, true, none, some, List, [], ◌∷◌, ◌++◌, All, arith,
  eq_iff,
}
use fabric_ca_gm.Prelude.Int.{ℤ, pos}
use fabric_ca_gm.Result.{Result, ok, err}
use fabric_ca_gm.Attr.{Attribute}
use fabric_ca_gm.Attr.Grants.{Registrable}
use fabric_ca_gm.Exec.{◌>>=◌, ◌>>◌, lift, pure, attempt}
use fabric_ca_gm.Exec.Rules.{bind-eq-ok}
use fabric_ca_gm.World.{UserRecord, World, M}
use fabric_ca_gm.Registry.{Bcrypt, control_of, get_user, insert_user, set_users}
use fabric_ca_gm.Registry.Reads.{get_user-IsReadOnly, insert_user-cases}
use fabric_ca_gm.Affiliations.Reads.{IsListed}
use fabric_ca_gm.Context.{get_caller}
use fabric_ca_gm.Context.Caller.{get_caller-IsReadOnly, get_caller-known}
use fabric_ca_gm.Context.Authority.{MayRegisterType, CoversAffiliation}
use fabric_ca_gm.Register.{
  Ca, RegistrationRequest, get_max_enrollments, normalize_registration_request, can_register,
  new_identity, secret_of, require_unregistered, register_user_id, register_user,
}
use fabric_ca_gm.Register.Filled.{Filled, completed, completed-Filled}
use fabric_ca_gm.Register.Success.{can_register-Permitted}

-- An attribute that goes into each certificate
abbrev certified : String → String → List Attribute
certified name value = record { name = name; value = value; e_cert = true } ∷ []

module _ (bcrypt : Bcrypt) (ca : Ca) (random_string : String) where
  -- The row of an identity that is asked for by `req`, with a limit and a hash of its secret
  abbrev pub row_of : RegistrationRequest → ℤ → String → UserRecord
  row_of req limit pwd = record {
    name = req.name;
    pass = pwd;
    type = req.type;
    affiliation = req.affiliation;
    attributes =
        ((req.attributes ++ certified "hf.EnrollmentID" req.name) ++ certified "hf.Type" req.type)
        ++ certified "hf.Affiliation" req.affiliation;
    state = pos 0;
    max_enrollments = limit;
    level = ca.identity_level;
  }

  -- The last step of a registration: one row, with the hash of the secret that is returned.
  pub record Inserted (req : RegistrationRequest) (w : World) (secret : String) (w' : World)
      : Type 0 where
    pub limit : ℤ
    pub granted : get_max_enrollments req.max_enrollments ca.max_enrollments ≡ ok limit
    pub returned :
        ((req.secret ≡ "") × (secret ≡ random_string)) ⊎ ((req.secret ≢ "") × (secret ≡ req.secret))
    pub pwd : String
    pub hashed : bcrypt.generate secret ≡ some pwd
    pub db : w'.db ≡ set_users w.db (w.db.users ++ row_of req limit pwd ∷ [])

  Inserted-from :
      (req : RegistrationRequest) (v w : World) (secret : String) (w' : World)
      → v.db ≡ w.db
      → Inserted req v secret w'
      → Inserted req w secret w'
  Inserted-from req v w secret w' same i = record {
    limit = i.limit;
    granted = i.granted;
    returned = i.returned;
    pwd = i.pwd;
    hashed = i.hashed;
    db = rw same at i.db;
  }

  abbrev insert_row : RegistrationRequest → ℤ → M String
  insert_row req limit =
      insert_user bcrypt (new_identity ca req (secret_of random_string req) limit)
      >> pure (secret_of random_string req)

  abbrev insert_unless : RegistrationRequest → ℤ → Result UserRecord → M String
  insert_unless req limit found = require_unregistered found >> insert_row req limit

  abbrev look_up_and_insert : RegistrationRequest → ℤ → M String
  look_up_and_insert req limit = attempt (get_user req.name) >>= insert_unless req limit

  secret_of-cases :
      (req : RegistrationRequest) (secret : String)
      → secret ≡ secret_of random_string req
      → ((req.secret ≡ "") × (secret ≡ random_string)) ⊎ ((req.secret ≢ "") × (secret ≡ req.secret))
  unfolding secret_of
  secret_of-cases req secret e = ground (arith, eq_iff req.secret "")

  module _ (req : RegistrationRequest) (limit : ℤ) where
    insert_row-Inserted :
        (w w' : World) (secret : String)
        → get_max_enrollments req.max_enrollments ca.max_enrollments ≡ ok limit
        → insert_row req limit w ≡ (ok secret, w')
        → Inserted req w secret w'
    unfolding new_identity
    insert_row-Inserted w w' secret granted h =
        let (t, v, e, k) =
          bind-eq-ok (insert_user bcrypt (new_identity ca req (secret_of random_string req) limit))
            (λ _. pure (secret_of random_string req)) w w' h in
        let same : secret ≡ secret_of random_string req = ground (arith, k) in
        elim (insert_user-cases bcrypt (new_identity ca req (secret_of random_string req) limit)
          w) [
            | inl (failed, _) ↦ absurd (cc)
            | inr (pwd, hashed, _, added) ↦ record {
              limit = limit;
              granted = granted;
              returned = secret_of-cases req secret same;
              pwd = pwd;
              hashed = rw same hashed;
              db = ap (λ r. r.1.db) (sym k) ∙ ap (λ r. r.1.db) (sym e) ∙ added;
            }
          ]

    insert_unless-free :
        (found : Result UserRecord) (w w' : World) (secret : String)
        → insert_unless req limit found w ≡ (ok secret, w')
        → insert_row req limit w ≡ (ok secret, w')
    insert_unless-free (ok user) w w' secret h = cc
    insert_unless-free (err e) w w' secret h = h

  register_user_id-Inserted :
      (req : RegistrationRequest) (w w' : World) (secret : String)
      → register_user_id bcrypt ca random_string req w ≡ (ok secret, w')
      → Inserted req w secret w'
  unfolding register_user_id
  register_user_id-Inserted req w w' secret h =
      let (limit, w₁, e₁, h₁) =
        bind-eq-ok (lift (get_max_enrollments req.max_enrollments ca.max_enrollments))
          (look_up_and_insert req) w w' h in
      let (found, w₂, e₂, h₂) =
        bind-eq-ok (attempt (get_user req.name)) (insert_unless req limit) w₁ w' h₁ in
      let done =
        insert_row-Inserted req limit w₂ w' secret (ap (λ r. r.0) e₁)
          (insert_unless-free req limit found w₂ w' secret h₂) in
      let kept : w₂.db ≡ w.db =
        ap (λ r. r.1.db) (sym e₂)
        ∙ ((get_user-IsReadOnly req.name).at w₁).db
        ∙ ap (λ r. r.1.db) (sym e₁) in
      Inserted-from req w₂ w secret w' kept done

  -- Who asked for a registration that succeeds, what it was allowed, and what it inserted.
  pub record Registered (req : RegistrationRequest) (w : World) (secret : String) (w' : World)
      : Type 0 where
    pub caller : UserRecord
    pub known : (get_caller w).0 ≡ ok caller
    pub filled : RegistrationRequest
    pub fills : Filled req caller filled
    pub type : MayRegisterType caller filled.type
    pub affiliation : CoversAffiliation caller filled.affiliation
    pub listed : (filled.affiliation ≡ "") ⊎ IsListed filled.affiliation w.db.affiliations
    pub attributes : All (Registrable filled.attributes none (control_of caller)) filled.attributes
    pub inserted : Inserted filled w secret w'

  -- A registration that succeeds was asked for by a known caller who may register the type, covers the
  -- affiliation, which exists or is the root, and may give each of the attributes, all of the request with its
  -- defaults filled in; and its only effect is a row at the end of the table, of an identity with the name, type,
  -- affiliation and attributes asked for, three attributes that repeat the name, the type and the affiliation,
  -- no enrollments, the limit that is granted, and the hash of the secret that is returned, which is the
  -- requested one, or the random one where none is.
  pub register_user-Registered :
      (req : RegistrationRequest) (w w' : World) (secret : String)
      → register_user bcrypt ca random_string req w ≡ (ok secret, w')
      → Registered req w secret w'
  unfolding register_user
  register_user-Registered req w w' secret h =
      let (c, w₁, e₁, h₁) =
        bind-eq-ok get_caller
          (λ c.
            can_register c (normalize_registration_request req c)
            >>= register_user_id bcrypt ca random_string)
          w w' h in
      let (req', w₂, e₂, h₂) =
        bind-eq-ok (can_register c (normalize_registration_request req c))
          (register_user_id bcrypt ca random_string) w₁ w' h₁ in
      let (p, same) =
        can_register-Permitted w₁ c (get_caller-known w w₁ c e₁)
          (normalize_registration_request req c) req' w₂ e₂ in
      let kept : w₁.db ≡ w.db = ap (λ r. r.1.db) (sym e₁) ∙ (get_caller-IsReadOnly.at w).db in
      record {
        caller = c;
        known = ap (λ r. r.0) e₁;
        filled = completed req c;
        fills = completed-Filled req c;
        type = rw same at p.type;
        affiliation = rw same at p.affiliation;
        listed = rw (same, kept) at p.listed;
        attributes = rw same at p.attributes;
        inserted = rw same at (
            Inserted-from req' w₂ w secret w' (p.db ∙ kept)
              (register_user_id-Inserted req' w₂ w' secret h₂));
      }
