-- ===== src/Housing/Changes.antt =====
-- The operations on identities keep their affiliations listed, whether they succeed or fail.
use fabric_ca_gm.Prelude.{
  String, ◌≡◌, refl, sym, ap, subst, ◌∙◌, ◌⊎◌, inl, inr, Bool, true, false, List, [], ◌∷◌, ◌==◌,
  arith, eq_iff, Bool-cases, select, if◌then◌else◌,
}
use fabric_ca_gm.Result.{Result, Result-cases, ok, err}
use fabric_ca_gm.Exec.{◌>>=◌, continue, attempt, pure}
use fabric_ca_gm.World.{UserRecord, AffiliationRecord, World, M}
use fabric_ca_gm.World.ReadOnly.{IsReadOnly, keeps_flow}
use fabric_ca_gm.World.Atomic.{read_rules}
use fabric_ca_gm.Registry.{
  Bcrypt, get_user, update_user, update_rows, update_users, expect_one, named, hash_password,
}
use fabric_ca_gm.Registry.Rows.{update_users-UpdatesOne}
use fabric_ca_gm.Registry.Reads.{get_user-IsReadOnly}
use fabric_ca_gm.Affiliations.{get_affiliation}
use fabric_ca_gm.Affiliations.Reads.{IsListed, get_affiliation-IsReadOnly}
use fabric_ca_gm.Context.Checks.{require_affiliation-IsReadOnly, require_type-IsReadOnly}
use fabric_ca_gm.Register.{Ca, RegistrationRequest, new_identity, register_user}
use fabric_ca_gm.Register.Effect.{register_user-Registered}
use fabric_ca_gm.Register.Failure.{failed_register_user}
use fabric_ca_gm.Identities.{
  ModifyIdentityRequest, IdentityResponse, check_modification, get_modify_req, supported,
  require_supported, stored_caller, can_modify_user, may_set_affiliation, may_set_type,
  may_set_attributes, check_attributes, store_and_answer, get_id_resp,
}
use fabric_ca_gm.Housing.{HasHome, Housed, select-Housed, append-Housed, update_rows-Housed}

-- What a step makes of tables in which all are at home
abbrev pub Houses : {A : Type 0} → M A → World → Type 0
Houses m w = Housed w.db → Housed (m w).1.db

pub unchanged-Houses : {A : Type 0} (m : M A) (w : World) → (m w).1.db ≡ w.db → Houses m w
unchanged-Houses m w same housed = subst Housed (sym same) housed

continue-Houses :
    {A B : Type 0} (r : Result A) (f : A → M B) (t : World)
    → ((a : A) → r ≡ ok a → Houses (f a) t)
    → Housed t.db
    → Housed (continue r f t).1.db
continue-Houses (ok a) f t next housed = next a refl housed
continue-Houses (err e) f t next housed = housed

-- A step that only reads, and then what follows from its answer
pub bind-Houses :
    {A B : Type 0} (m : M A) (f : A → M B) (w : World)
    → IsReadOnly m
    → ((a : A) → m w ≡ (ok a, (m w).1) → Houses (f a) (m w).1)
    → Houses (m >>= f) w
bind-Houses m f w reads next housed =
    continue-Houses (m w).0 f (m w).1 (λ a e. next a (λ i. (e i, (m w).1)))
      (subst Housed (sym (reads.at w).db) housed)

module _ (bcrypt : Bcrypt) where
  pub register_user-Houses :
      (ca : Ca) (random_string : String) (req : RegistrationRequest) (w : World)
      → Houses (register_user bcrypt ca random_string req) w
  unfolding new_identity
  register_user-Houses ca random_string req w housed =
      let m = register_user bcrypt ca random_string req in
      elim (Result-cases (m w).0) [
        | inl (secret, done) ↦
            let r =
              register_user-Registered bcrypt ca random_string req w (m w).1 secret
                (λ i. (done i, (m w).1)) in
            append-Housed w.db (m w).1.db housed _ r.listed (ap (λ d. d.users) r.inserted.db)
              (ap (λ d. d.affiliations) r.inserted.db)
        | inr (e, failed) ↦
            unchanged-Houses m w (failed_register_user bcrypt ca random_string req w e failed)
              housed
      ]

  hash_password-IsReadOnly : (pass : String) → IsReadOnly (hash_password bcrypt pass)
  unfolding hash_password
  hash_password-IsReadOnly pass = record { at = keeps_flow.stay }

  hashing-IsReadOnly :
      (update_pass : Bool) (pass : String)
      → IsReadOnly (if update_pass then hash_password bcrypt pass else pure pass)
  hashing-IsReadOnly true pass = hash_password-IsReadOnly pass
  hashing-IsReadOnly false pass = record { at = keeps_flow.stay }

  -- The write of a row, whatever becomes of it
  update_users-Houses :
      (user : UserRecord) (pwd : String) (w : World)
      → HasHome user.affiliation w.db.affiliations
      → Houses (update_users (named user.name) (λ row. record user { pass = pwd }) >>= expect_one) w
  update_users-Houses user pwd w home housed =
      let m = update_users (named user.name) (λ row. record user { pass = pwd }) >>= expect_one in
      let updates =
        update_users-UpdatesOne (named user.name) (λ row. record user { pass = pwd }) w in
      let changed : (m w).1.db.users
            ≡ update_rows (named user.name) (λ row. record user { pass = pwd }) w.db.users
          → Housed (m w).1.db =
        λ users.
          update_rows-Housed w.db (m w).1.db housed (named user.name)
            (λ row. record user { pass = pwd }) (λ v. home) users updates.affiliations in
      elim updates.users [
        | inl (_, same) ↦
            select-Housed w.db (m w).1.db housed (λ u. true) (same ∙ sym (all w.db.users))
              updates.affiliations
        | inr (inl (_, _, users)) ↦ changed users
        | inr (inr (_, _, users)) ↦ changed users
      ]
    where
      all : (users : List UserRecord) → select (λ u. true) users ≡ users
      all [] = refl
      all (u ∷ users) = ap (λ r. u ∷ r) (all users)

attempt_affiliation-IsReadOnly : (name : String) → IsReadOnly (attempt (get_affiliation name))
attempt_affiliation-IsReadOnly name = record { at = (get_affiliation-IsReadOnly name).at }

supported-IsReadOnly : (r : Result AffiliationRecord) → IsReadOnly (supported r)
supported-IsReadOnly (ok a) = record { at = keeps_flow.stay }
supported-IsReadOnly (err e) = record { at = keeps_flow.stay }

stored_caller-IsReadOnly : IsReadOnly stored_caller
unfolding stored_caller
stored_caller-IsReadOnly = record { at = keeps_flow.stay }

pub check_modification-IsReadOnly :
    (user : UserRecord) (req : ModifyIdentityRequest) → IsReadOnly (check_modification user req)
unfolding check_modification require_supported can_modify_user may_set_affiliation may_set_type
    may_set_attributes check_attributes
check_modification-IsReadOnly user req =
    search
      (
        read_rules, attempt_affiliation-IsReadOnly, supported-IsReadOnly,
        require_affiliation-IsReadOnly, require_type-IsReadOnly, stored_caller-IsReadOnly,
      )
      depth 14

-- The affiliation that a modification gives
pub modified_home :
    (user : UserRecord) (req : ModifyIdentityRequest) (rows : List AffiliationRecord)
    → HasHome user.affiliation rows
    → (req.affiliation ≡ "") ⊎ ((req.affiliation ≡ ".") ⊎ IsListed req.affiliation rows)
    → HasHome (get_modify_req user req).0.affiliation rows
unfolding get_modify_req
modified_home user req rows home listed = elim (Bool-cases (req.affiliation == ".")) [
  | inl root ↦ inl (rw root refl)
  | inr other ↦ elim (Bool-cases (req.affiliation == "")) [
    | inl same ↦ rw (other, same) home
    | inr given ↦
        rw (other, given)
          (elim listed [
            | inl empty ↦ absurd (ground (arith, empty, given, eq_iff req.affiliation ""))
            | inr (inl root) ↦ absurd (ground (arith, root, other, eq_iff req.affiliation "."))
            | inr (inr l) ↦ inr l
          ])
  ]
]

module _ (bcrypt : Bcrypt) where
  abbrev hashed_pass : UserRecord × Bool → M String
  hashed_pass change = if change.1 then hash_password bcrypt change.0.pass else pure change.0.pass

  update_user-Houses :
      (user : UserRecord) (update_pass : Bool) (w : World)
      → HasHome user.affiliation w.db.affiliations
      → Houses (update_user bcrypt user update_pass) w
  unfolding update_user
  update_user-Houses user update_pass w home =
      bind-Houses (hashed_pass (user, update_pass))
        (λ pwd. update_users (named user.name) (λ row. record user { pass = pwd }) >>= expect_one) w
        (hashing-IsReadOnly bcrypt update_pass user.pass)
        (λ pwd e. update_users-Houses bcrypt user pwd _ (
          subst (λ d. HasHome user.affiliation d.affiliations)
            (sym ((hashing-IsReadOnly bcrypt update_pass user.pass).at w).db) home))

  answering-IsReadOnly :
      (id secret : String) → IsReadOnly (get_user id >>= λ user. pure (get_id_resp user secret))
  answering-IsReadOnly id secret = search (read_rules, get_user-IsReadOnly)

  pub store_and_answer-Houses :
      (id : String) (change : UserRecord × Bool) (secret : String) (w : World)
      → HasHome change.0.affiliation w.db.affiliations
      → Houses (store_and_answer bcrypt id change secret) w
  unfolding store_and_answer
  store_and_answer-Houses id change secret w home housed =
      let m = update_user bcrypt change.0 change.1 in
      let rest : M IdentityResponse = get_user id >>= λ user. pure (get_id_resp user secret) in
      continue-Houses (m w).0 (λ _. rest) (m w).1
        (λ a e. unchanged-Houses rest (m w).1 ((answering-IsReadOnly id secret).at (m w).1).db)
        (update_user-Houses change.0 change.1 w home housed)
