-- ===== src/Identities/Changes.antt =====
-- Changing an identity.
use fabric_ca_gm.Prelude.{
  String, ◌≡◌, sym, ap, subst, ◌∙◌, ◌≢◌, Bool, not, some, ◌==◌, arith, eq_iff,
}
use fabric_ca_gm.Result.{Result, ok, new_http_err}
use fabric_ca_gm.Exec.{◌>>=◌, ◌>>◌, lift, pure, require}
use fabric_ca_gm.Exec.Rules.{require-eq-ok, bind-eq-ok}
use fabric_ca_gm.World.{UserRecord, World, M}
use fabric_ca_gm.World.ReadOnly.{Keeps}
use fabric_ca_gm.Registry.{Bcrypt, update_user, get_user}
use fabric_ca_gm.Registry.Storing.{Stored, update_user-Stored}
use fabric_ca_gm.Registry.Reads.{get_user-IsReadOnly}
use fabric_ca_gm.Context.{get_managed_user}
use fabric_ca_gm.Context.Checks.{get_managed_user-IsReadOnly}
use fabric_ca_gm.Identities.{
  IdentityResponse, ModifyIdentityRequest, get_modify_req, check_modification, store_and_answer,
  process_put_request, err_modifying_identity, get_id_resp,
}
use fabric_ca_gm.Identities.Removal.{Managed, get_managed_user-Managed}
use fabric_ca_gm.Identities.Modified.{ModifiedTo, Replaced, Stored-ModifiedTo}
use fabric_ca_gm.Identities.Permission.{MayModify, check_modification-MayModify}

-- The write of a modification and the lookup behind it
store_and_answer-Stored :
    (bcrypt : Bcrypt) (id : String) (change : UserRecord × Bool) (secret : String) (w w' : World)
    (resp : IdentityResponse)
    → store_and_answer bcrypt id change secret w ≡ (ok resp, w')
    → Stored bcrypt change w.db w'.db
unfolding store_and_answer
store_and_answer-Stored bcrypt id change secret w w' resp h =
    let (t, w₁, e₁, h₁) =
      bind-eq-ok (update_user bcrypt change.0 change.1)
        (λ _. get_user id >>= λ user. pure (get_id_resp user secret)) w w' h in
    let (u, w₂, e₂, h₂) =
      bind-eq-ok (get_user id) (λ user. pure (get_id_resp user secret)) w₁ w' h₁ in
    let same : w₁.db ≡ w'.db =
      sym ((get_user-IsReadOnly id).at w₁).db ∙ ap (λ r. r.1.db) e₂ ∙ ap (λ r. r.1.db) h₂ in
    subst (Stored bcrypt change w.db) same (update_user-Stored bcrypt change w w₁ t e₁)

-- Why an identity may be changed, and what the change has stored
pub record Changed (bcrypt : Bcrypt) (c : UserRecord) (id : String)
    (body : Result ModifyIdentityRequest) (w w' : World) : Type 0 where
  pub given : id ≢ ""
  pub user : UserRecord
  pub managed : Managed c id w user
  pub req : ModifyIdentityRequest
  pub read : body ≡ ok req
  pub checked : MayModify c w user req
  pub row : UserRecord
  pub modified : ModifiedTo bcrypt user req row
  pub replaced : Replaced user.name row w.db w'.db

MayModify-from :
    (c : UserRecord) (v w : World) (user : UserRecord) (req : ModifyIdentityRequest)
    → v.db ≡ w.db
    → MayModify c v user req
    → MayModify c w user req
MayModify-from c v w user req same m = record {
  listed = rw same at m.listed;
  affiliation = m.affiliation;
  type = m.type;
  attributes = m.attributes;
}

module _ (bcrypt : Bcrypt) (c : UserRecord) (id : String)
    (body : Result ModifyIdentityRequest) where
  abbrev change_user : UserRecord → ModifyIdentityRequest → M IdentityResponse
  change_user user req =
      check_modification user req >> store_and_answer bcrypt id (get_modify_req user req) req.secret

  abbrev read_and_change : UserRecord → M IdentityResponse
  read_and_change user = lift body >>= change_user user

  -- For an authenticated caller, a modification that succeeds is of an identity that the caller may manage; a new
  -- affiliation exists or is the root and is one that the caller covers, a new type one that it may register,
  -- and every attribute one that it may give. The identity has one row, which is replaced: the new type,
  -- affiliation, limit and the hash of the new secret stand in it where the request has them, with the root for
  -- an affiliation "." and 0 for a limit of -2, the old ones where not; the attributes are merged with the
  -- requested ones and with those of a new type and affiliation; and nothing else has changed.
  pub process_put_request-Changed :
      (w w' : World) (resp : IdentityResponse)
      → w.caller ≡ some c
      → process_put_request bcrypt id body w ≡ (ok resp, w')
      → Changed bcrypt c id body w w'
  unfolding process_put_request
  process_put_request-Changed w w' resp known h =
      let (t₁, w₁, e₁, h₁) =
        bind-eq-ok (require (not (id == "")) (new_http_err 400 err_modifying_identity))
          (λ _. get_managed_user id >>= read_and_change) w w' h in
      let (given, s₁) =
        require-eq-ok (not (id == "")) (new_http_err 400 err_modifying_identity) w w₁ t₁ e₁ in
      let (user, w₂, e₂, h₂) =
        bind-eq-ok (get_managed_user id) read_and_change w w'
          (subst (λ v. (get_managed_user id >>= read_and_change) v ≡ (ok resp, w')) s₁ h₁) in
      let managed = get_managed_user-Managed c id w w₂ user known e₂ in
      let kept : Keeps w w₂ =
        subst (Keeps w) (ap (λ r. r.1) e₂) ((get_managed_user-IsReadOnly id).at w) in
      let (req, w₃, e₃, h₃) = bind-eq-ok (lift body) (change_user user) w₂ w' h₂ in
      let s₃ : w₃ ≡ w₂ = ap (λ r. r.1) (sym e₃) in
      let (t₄, w₄, e₄, h₄) =
        bind-eq-ok (check_modification user req)
          (λ _. store_and_answer bcrypt id (get_modify_req user req) req.secret) w₂ w'
          (subst (λ v. change_user user req v ≡ (ok resp, w')) s₃ h₃) in
      let (checked, kept₄) =
        check_modification-MayModify c user req w₂ w₄ t₄ (kept.caller c known) e₄ in
      let before : w₄.db ≡ w.db = kept₄.db ∙ kept.db in
      let (row, modified, replaced) = Stored-ModifiedTo bcrypt user req w.db w'.db (
        subst (λ d. Stored bcrypt (get_modify_req user req) d w'.db) before
          (store_and_answer-Stored bcrypt id (get_modify_req user req) req.secret w₄ w' resp h₄)) in
      record {
        given = ground (arith, given, eq_iff id "");
        user = user;
        managed = managed;
        req = req;
        read = ap (λ r. r.0) e₃;
        checked = MayModify-from c w₂ w user req kept.db checked;
        row = row;
        modified = modified;
        replaced = replaced;
      }
