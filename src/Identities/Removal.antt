-- ===== src/Identities/Removal.antt =====
-- Removing an identity.
use fabric_ca_gm.Prelude.{
  String, ◌≡◌, sym, ap, subst, ◌∙◌, ◌≢◌, ◌⊎◌, inl, inr, Bool, true, not, ◌&&◌, some, ◌==◌, arith,
  eq_iff, In,
}
use fabric_ca_gm.Result.{Err, Result, ok, err, replaced, new_http_err, panicked}
use fabric_ca_gm.Result
use fabric_ca_gm.Exec.{◌>>=◌, ◌>>◌, lift, pure, require, failing_as}
use fabric_ca_gm.Exec.Rules.{require-eq-ok, bind-eq-ok, failing_as-eq-ok}
use fabric_ca_gm.World.{UserRecord, World, M}
use fabric_ca_gm.World.ReadOnly.{IsReadOnly, keeps_flow}
use fabric_ca_gm.World.Atomic.{
  IsAtomic, read_rules, bind-IsAtomic, answer-IsAtomic, failing_as-IsAtomic,
}
use fabric_ca_gm.Registry.{get_user, delete_user}
use fabric_ca_gm.Registry.Reads.{get_user-eq-ok, get_user-IsReadOnly}
use fabric_ca_gm.Registry.Removal.{Deleted, delete_user-Deleted, delete_user-IsAtomic}
use fabric_ca_gm.Context.{can_manage_user, get_managed_user}
use fabric_ca_gm.Context.Authority.{MayRegisterType, CoversAffiliation, can_manage_user_iff}
use fabric_ca_gm.Context.Checks.{can_manage_user-IsReadOnly, get_managed_user-IsReadOnly}
use fabric_ca_gm.Register.{Ca}
use fabric_ca_gm.Identities.{
  IdentityResponse, stored_caller, may_remove, remove, process_delete_request, err_remove_identity,
  get_id_resp,
}

abbrev checked_removal : String → UserRecord → M IdentityResponse
checked_removal id user = can_manage_user user >> remove id user

abbrev removal : String → Bool → M IdentityResponse
removal id force = may_remove id force >> (get_managed_user id >>= checked_removal id)

forced_or_other :
    (force : Bool) (r : Result Bool)
    → r ≡ ok force
    → (P : Type 0) → (force ≡ true) ⊎ P
    → (r ≡ ok true) ⊎ P
forced_or_other force r e P (inl forced) = inl (cc (e, forced))
forced_or_other force r e P (inr other) = inr other

-- The row of an identity that the caller may manage
pub record Managed (c : UserRecord) (name : String) (w : World) (u : UserRecord) : Type 0 where
  pub row : In u w.db.users
  pub name_of : u.name ≡ name
  pub affiliation : CoversAffiliation c u.affiliation
  pub type : MayRegisterType c u.type

module _ (c : UserRecord) where
  pub managed_known :
      (u : UserRecord) (w w' : World) (t : Unit {0})
      → w.caller ≡ some c
      → can_manage_user u w ≡ (ok t, w')
      → CoversAffiliation c u.affiliation × MayRegisterType c u.type
  managed_known u w w' t known h = (can_manage_user_iff w c known u).0.0 (ap (λ r. r.0) h)

  pub get_managed_user-Managed :
      (name : String) (w w' : World) (u : UserRecord)
      → w.caller ≡ some c
      → get_managed_user name w ≡ (ok u, w')
      → Managed c name w u
  unfolding get_managed_user
  get_managed_user-Managed name w w' u known h =
      let (v, w₁, e₁, h₁) = bind-eq-ok (get_user name) (λ v. can_manage_user v >> pure v) w w' h in
      let (t, w₂, e₂, h₂) = bind-eq-ok (can_manage_user v) (λ _. pure v) w₁ w' h₁ in
      let (row, named) = get_user-eq-ok name w w₁ v e₁ in
      let still : w₁.caller ≡ some c =
        rw (← ap (λ r. r.1) e₁) (((get_user-IsReadOnly name).at w).caller c known) in
      let (covers, typed) = managed_known v w₁ w₂ t still e₂ in
      let same : v ≡ u = ground (arith, h₂) in
      record {
        row = rw same at row;
        name_of = rw same at named;
        affiliation = rw same at covers;
        type = rw same at typed;
      }

  pub stored_caller_known : (w : World) → w.caller ≡ some c → stored_caller w ≡ (ok c, w)
  unfolding stored_caller
  stored_caller_known w known = λ i. (Result.from_option panicked (known i), w)

  may_remove_known :
      (id : String) (force : Bool) (w w' : World) (t : Unit {0})
      → w.caller ≡ some c
      → may_remove id force w ≡ (ok t, w')
      → ((force ≡ true) ⊎ (id ≢ c.name)) × (w' ≡ w)
  unfolding may_remove
  may_remove_known id force w w' t known h =
      let (checked, same) =
        require-eq-ok (not (id == c.name && not force)) (new_http_err 403 err_remove_identity) w w'
          t (rw (stored_caller_known w known) at h) in
      (ground (arith, eq_iff id c.name), same)

  rest_of_removal :
      (id : String) (w w' : World) (resp : IdentityResponse)
      → w.caller ≡ some c
      → (get_managed_user id >>= checked_removal id) w ≡ (ok resp, w')
      → (u : UserRecord) × Managed c id w u × (gone : UserRecord) × Deleted id gone w.db w'.db
  unfolding remove
  rest_of_removal id w w' resp known h =
      let (u, w₁, e₁, h₁) = bind-eq-ok (get_managed_user id) (checked_removal id) w w' h in
      let (t₂, w₂, e₂, h₂) = bind-eq-ok (can_manage_user u) (λ _. remove id u) w₁ w' h₁ in
      let (gone, w₃, e₃, h₃) =
        bind-eq-ok (failing_as (replaced (new_http_err 500 err_remove_identity)) (delete_user id))
          (λ _. pure (get_id_resp u "")) w₂ w' h₂ in
      let first : w₁.db ≡ w.db =
        ap (λ r. r.1.db) (sym e₁) ∙ ((get_managed_user-IsReadOnly id).at w).db in
      let second : w₂.db ≡ w₁.db =
        ap (λ r. r.1.db) (sym e₂) ∙ ((can_manage_user-IsReadOnly u).at w₁).db in
      let deleted = delete_user-Deleted id w₂ w₃ gone (
        failing_as-eq-ok (replaced (new_http_err 500 err_remove_identity)) (delete_user id) w₂ w₃
          gone e₃) in
      let before : w₂.db ≡ w.db = second ∙ first in
      let after : w₃.db ≡ w'.db = ap (λ r. r.1.db) h₃ in
      (
        u,
        get_managed_user-Managed id w w₁ u known e₁,
        gone,
        subst (Deleted id gone w.db) after (subst (λ d. Deleted id gone d w₃.db) before deleted),
      )

  -- Why an identity may be removed, and what removing it has done
  pub record Removed (ca : Ca) (id : String) (force : Result Bool) (w w' : World) : Type 0 where
    pub allowed : ca.allow_remove_identities ≡ true
    pub given : id ≢ ""
    pub not_self : (force ≡ ok true) ⊎ (id ≢ c.name)
    pub user : UserRecord
    pub managed : Managed c id w user
    pub gone : UserRecord
    pub deleted : Deleted id gone w.db w'.db

  -- For an authenticated caller, a removal that succeeds was enabled, is not of the caller itself unless forced,
  -- and is of an identity that the caller may manage; it has dropped the identity's rows and revoked its certificates,
  -- and changed nothing else.
  pub process_delete_request-Removed :
      (ca : Ca) (id : String) (force_parm : Result Bool) (w w' : World) (resp : IdentityResponse)
      → w.caller ≡ some c
      → process_delete_request ca id force_parm w ≡ (ok resp, w')
      → Removed ca id force_parm w w'
  unfolding process_delete_request
  process_delete_request-Removed ca id force_parm w w' resp known h =
      let (t₁, w₁, e₁, h₁) =
        bind-eq-ok (require ca.allow_remove_identities (new_http_err 403 err_remove_identity))
          (λ _.
            require (not (id == "")) (new_http_err 400 err_remove_identity)
            >> (lift force_parm >>= removal id))
          w w' h in
      let (t₂, w₂, e₂, h₂) =
        bind-eq-ok (require (not (id == "")) (new_http_err 400 err_remove_identity))
          (λ _. lift force_parm >>= removal id) w₁ w' h₁ in
      let (force, w₃, e₃, h₃) = bind-eq-ok (lift force_parm) (removal id) w₂ w' h₂ in
      let (t₄, w₄, e₄, h₄) =
        bind-eq-ok (may_remove id force) (λ _. get_managed_user id >>= checked_removal id) w₃ w'
          h₃ in
      let (allowed, s₁) =
        require-eq-ok ca.allow_remove_identities (new_http_err 403 err_remove_identity) w w₁ t₁
          e₁ in
      let (given, s₂) =
        require-eq-ok (not (id == "")) (new_http_err 400 err_remove_identity) w₁ w₂ t₂ e₂ in
      let s₃ : w₃ ≡ w = ap (λ r. r.1) (sym e₃) ∙ s₂ ∙ s₁ in
      let (free, s₄) = may_remove_known id force w₃ w₄ t₄ (rw s₃ known) e₄ in
      let at_w : w₄ ≡ w = s₄ ∙ s₃ in
      let (u, managed, gone, deleted) =
        rest_of_removal id w w' resp known
          (subst (λ v. (get_managed_user id >>= checked_removal id) v ≡ (ok resp, w')) at_w h₄) in
      record {
        allowed = allowed;
        given = ground (arith, given, eq_iff id "");
        not_self = forced_or_other force force_parm (ap (λ r. r.0) e₃) (id ≢ c.name) free;
        user = u;
        managed = managed;
        gone = gone;
        deleted = deleted;
      }

pub stored_caller-IsReadOnly : IsReadOnly stored_caller
unfolding stored_caller
stored_caller-IsReadOnly = record { at = keeps_flow.stay }

may_remove-IsReadOnly : (id : String) (force : Bool) → IsReadOnly (may_remove id force)
unfolding may_remove
may_remove-IsReadOnly id force = search (read_rules, stored_caller-IsReadOnly)

remove-IsAtomic : (id : String) (user : UserRecord) → IsAtomic (remove id user)
unfolding remove
remove-IsAtomic id user = search (answer-IsAtomic, failing_as-IsAtomic, delete_user-IsAtomic)

process_delete_request-IsAtomic :
    (ca : Ca) (id : String) (force_parm : Result Bool)
    → IsAtomic (process_delete_request ca id force_parm)
unfolding process_delete_request
process_delete_request-IsAtomic ca id force_parm =
    search
      (
        read_rules, bind-IsAtomic, may_remove-IsReadOnly, get_managed_user-IsReadOnly,
        can_manage_user-IsReadOnly, remove-IsAtomic,
      )
      depth 16

-- A removal that reports an error, whether refused or broken off, leaves every table as it was.
pub failed_process_delete_request :
    (ca : Ca) (id : String) (force_parm : Result Bool) (w : World) (e : Err)
    → (process_delete_request ca id force_parm w).0 ≡ err e
    → (process_delete_request ca id force_parm w).1.db ≡ w.db
failed_process_delete_request ca id force_parm =
    (process_delete_request-IsAtomic ca id force_parm).at
