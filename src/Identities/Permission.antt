-- ===== src/Identities/Permission.antt =====
-- The checks of a modification: what they establish.
use fabric_ca_gm.Prelude.{
  String, ◌≡◌, refl, sym, ap, subst, ◌∙◌, ◌⊎◌, inl, inr, Bool, true, false, not, ◌||◌, some, List,
  [], ◌∷◌, ◌==◌, arith, eq_iff, All, Bool-cases,
}
use fabric_ca_gm.Result.{Result, ok, err, replaced, new_auth_err}
use fabric_ca_gm.Exec.{◌>>◌, lift, attempt, failing_as}
use fabric_ca_gm.Exec.Rules.{bind-eq-ok}
use fabric_ca_gm.Attr.{Attribute, can_register_requested_attributes}
use fabric_ca_gm.Attr.Grants.{Registrable, can_register_requested_attributes_sound}
use fabric_ca_gm.World.{UserRecord, AffiliationRecord, World, M}
use fabric_ca_gm.World.ReadOnly.{keeps_flow, Keeps}
use fabric_ca_gm.Registry.{control_of}
use fabric_ca_gm.Affiliations.{get_affiliation}
use fabric_ca_gm.Affiliations.Reads.{IsListed, get_affiliation-IsListed, get_affiliation-IsReadOnly}
use fabric_ca_gm.Context.{err_reg_attr_auth}
use fabric_ca_gm.Context.Authority.{
  MayRegisterType, CoversAffiliation, require_affiliation_known, require_type_known,
}
use fabric_ca_gm.Register.Success.{attributes_checked}
use fabric_ca_gm.Identities.{
  ModifyIdentityRequest, may_set_affiliation, may_set_type, check_attributes, may_set_attributes,
  can_modify_user, supported, require_supported, has_any, check_modification,
}
use fabric_ca_gm.Identities.Removal.{stored_caller_known}

module _ (c : UserRecord) (w : World) (known : w.caller ≡ some c) where
  affiliation_set :
      (check : Bool) (affiliation : String) (w' : World) (t : Unit {0})
      → may_set_affiliation check affiliation w ≡ (ok t, w')
      → ((check ≡ false) ⊎ CoversAffiliation c affiliation) × (w' ≡ w)
  unfolding may_set_affiliation
  affiliation_set true affiliation w' t h =
      let (covers, same) = require_affiliation_known w c known affiliation in
      (inr (covers.0 (ap (λ r. r.0) h)), ap (λ r. r.1) (sym h) ∙ same)
  affiliation_set false affiliation w' t h = (inl refl, ap (λ r. r.1) (sym h))

  type_set :
      (check : Bool) (type : String) (w' : World) (t : Unit {0})
      → may_set_type check type w ≡ (ok t, w')
      → ((check ≡ false) ⊎ MayRegisterType c type) × (w' ≡ w)
  unfolding may_set_type
  type_set true type w' t h =
      let (may, same) = require_type_known w c known type in
      (inr (may.0 (ap (λ r. r.0) h)), ap (λ r. r.1) (sym h) ∙ same)
  type_set false type w' t h = (inl refl, ap (λ r. r.1) (sym h))

  attributes_set :
      (attrs : List Attribute) (user : UserRecord) (w' : World) (t : Unit {0})
      → may_set_attributes (has_any attrs) attrs user w ≡ (ok t, w')
      → All (Registrable attrs (some (control_of user)) (control_of c)) attrs × (w' ≡ w)
  unfolding may_set_attributes check_attributes
  attributes_set [] user w' t h = (tt, ap (λ r. r.1) (sym h))
  attributes_set (a ∷ attrs) user w' t h =
      let passed : failing_as (replaced (new_auth_err err_reg_attr_auth))
            (lift (
              can_register_requested_attributes (a ∷ attrs) (some (control_of user))
                (control_of c)))
            w
          ≡ (ok t, w') =
        rw (stored_caller_known c w known) at h in
      let (allowed, same) = attributes_checked _ _ w w' t passed in
      (
        can_register_requested_attributes_sound (a ∷ attrs) (some (control_of user)) (control_of c)
            allowed,
        same,
      )

  supported_found :
      (affiliation : String) (found : Result AffiliationRecord) (w₁ w' : World) (t : Unit {0})
      → (get_affiliation affiliation w).1 ≡ w₁
      → (get_affiliation affiliation w).0 ≡ found
      → Keeps w w₁
      → supported found w₁ ≡ (ok t, w')
      → ((affiliation ≡ "") ⊎ ((affiliation ≡ ".") ⊎ IsListed affiliation w.db.affiliations))
        × Keeps w w'
  supported_found affiliation (ok a) w₁ w' t e f kept h = (
    inr (inr (get_affiliation-IsListed affiliation w w₁ a (λ i. (f i, e i)))),
    subst (Keeps w) (ap (λ r. r.1) h) kept,
  )
  supported_found affiliation (err e') w₁ w' t e f kept h = cc

  supported-IsListed :
      (affiliation : String) (w' : World) (t : Unit {0})
      → require_supported affiliation w ≡ (ok t, w')
      → ((affiliation ≡ "") ⊎ ((affiliation ≡ ".") ⊎ IsListed affiliation w.db.affiliations))
        × Keeps w w'
  unfolding require_supported
  supported-IsListed affiliation w' t h =
      elim (Bool-cases (affiliation == "" || affiliation == ".")) [
        | inl root ↦
            let same : w ≡ w' = ap (λ r. r.1) (rw root at h) in
            (
              ground (arith, eq_iff affiliation "", eq_iff affiliation "."),
              subst (Keeps w) same (keeps_flow.stay w),
            )
        | inr other ↦
            let (found, w₁, e₁, h₁) =
              bind-eq-ok (attempt (get_affiliation affiliation)) supported w w' (rw other at h) in
            let kept = (get_affiliation-IsReadOnly affiliation).at w in
            let first : (get_affiliation affiliation w).1 ≡ w₁ = ap (λ r. r.1) e₁ in
            supported_found affiliation found w₁ w' t first (ground (arith, e₁))
              (subst (Keeps w) first kept) h₁
      ]

-- What a modification that passes the checks has established.
pub record MayModify (c : UserRecord) (w : World) (user : UserRecord) (req : ModifyIdentityRequest)
    : Type 0 where
  pub listed :
      (req.affiliation ≡ "")
      ⊎ ((req.affiliation ≡ ".") ⊎ IsListed req.affiliation w.db.affiliations)
  pub affiliation : (req.affiliation ≡ "") ⊎ CoversAffiliation c req.affiliation
  pub type : (req.type ≡ "") ⊎ MayRegisterType c req.type
  pub attributes :
      All (Registrable req.attributes (some (control_of user)) (control_of c)) req.attributes

unset : (s : String) → (not (s == "") ≡ false) → s ≡ ""
unset s h = ground (arith, eq_iff s "")

module _ (c user : UserRecord) (req : ModifyIdentityRequest) where
  abbrev modify : M (Unit {0})
  modify =
      can_modify_user req (not (req.affiliation == "")) (not (req.type == ""))
        (has_any req.attributes) user

  pub check_modification-MayModify :
      (w w' : World) (t : Unit {0})
      → w.caller ≡ some c
      → check_modification user req w ≡ (ok t, w')
      → MayModify c w user req × Keeps w w'
  unfolding check_modification can_modify_user
  check_modification-MayModify w w' t known h =
      let (t₁, w₁, e₁, h₁) = bind-eq-ok (require_supported req.affiliation) (λ _. modify) w w' h in
      let (listed, kept) = supported-IsListed c w known req.affiliation w₁ t₁ e₁ in
      let known₁ = kept.caller c known in
      let (t₂, w₂, e₂, h₂) =
        bind-eq-ok (may_set_affiliation (not (req.affiliation == "")) req.affiliation)
          (λ _.
            may_set_type (not (req.type == "")) req.type
            >> may_set_attributes (has_any req.attributes) req.attributes user)
          w₁ w' h₁ in
      let (covers, s₂) =
        affiliation_set c w₁ known₁ (not (req.affiliation == "")) req.affiliation w₂ t₂ e₂ in
      let (t₃, w₃, e₃, h₃) =
        bind-eq-ok (may_set_type (not (req.type == "")) req.type)
          (λ _. may_set_attributes (has_any req.attributes) req.attributes user) w₂ w' h₂ in
      let (typed, s₃) = type_set c w₂ (rw s₂ known₁) (not (req.type == "")) req.type w₃ t₃ e₃ in
      let at_w₁ : w₃ ≡ w₁ = s₃ ∙ s₂ in
      let (given, s₄) = attributes_set c w₃ (rw at_w₁ known₁) req.attributes user w' t h₃ in
      (
        record {
          listed = listed;
          affiliation = elim covers [
            | inl no' ↦ inl (unset req.affiliation no')
            | inr yes' ↦ inr yes'
          ];
          type = elim typed [ inl no' ↦ inl (unset req.type no') | inr yes' ↦ inr yes' ];
          attributes = given;
        },
        subst (Keeps w) (sym (s₄ ∙ at_w₁)) kept,
      )
