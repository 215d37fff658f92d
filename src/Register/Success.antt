-- ===== src/Register/Success.antt =====
-- What a registration that succeeds has checked and done.
use fabric_ca_gm.Prelude.{
  String, ◌≡◌, refl, sym, ap, subst, ◌∙◌, ◌⊎◌, inl, inr, Bool, true, none, some, arith, eq_iff,
  ◌==◌, All, Bool-cases, Option-cases,
}
use fabric_ca_gm.Text.{str_contained}
use fabric_ca_gm.Result.{Err, Result, ok, err, plain, reworded, replaced, new_auth_err}
use fabric_ca_gm.Attr.{roles, can_register_requested_attributes}
use fabric_ca_gm.Attr.Grants.{Registrable, can_register_requested_attributes_sound}
use fabric_ca_gm.Exec.{lift, pure, require, failing_as}
use fabric_ca_gm.Exec.Rules.{require-eq-ok, bind-eq-ok, failing_as-eq-ok}
use fabric_ca_gm.World.{UserRecord, World}
use fabric_ca_gm.Registry.{control_of, get_attribute}
use fabric_ca_gm.Affiliations.{get_affiliation}
use fabric_ca_gm.Affiliations.Reads.{IsListed, get_affiliation-IsListed, get_affiliation-IsReadOnly}
use fabric_ca_gm.Context.{is_registrar, types_of, require_affiliation, err_reg_attr_auth}
use fabric_ca_gm.Context.Authority.{
  MayRegisterType, CoversAffiliation, is_registrar_known, require_affiliation_known,
}
use fabric_ca_gm.Register.{RegistrationRequest, or_client, is_valid_affiliation, can_register}

-- What canRegister has established of the request that it passes on.
pub record Permitted (c : UserRecord) (w : World) (req : RegistrationRequest) (w' : World)
    : Type 0 where
  pub type : MayRegisterType c req.type
  pub affiliation : CoversAffiliation c req.affiliation
  pub listed : (req.affiliation ≡ "") ⊎ IsListed req.affiliation w.db.affiliations
  pub attributes : All (Registrable req.attributes none (control_of c)) req.attributes
  pub db : w'.db ≡ w.db

answered :
    {v : String} {found : String × Bool} {w w' : World}
    → ◌≡◌ {A = Result (String × Bool) × World} (ok (v, true), w) (ok found, w')
    → (v ≡ found.0) × (w' ≡ w)
answered h = ground arith

-- The requested affiliation is the root or stands in the table.
valid-IsListed :
    (affiliation : String) (w w' : World) (t : Unit {0})
    → is_valid_affiliation affiliation w ≡ (ok t, w')
    → ((affiliation ≡ "") ⊎ IsListed affiliation w.db.affiliations) × (w'.db ≡ w.db)
unfolding is_valid_affiliation
valid-IsListed affiliation w w' t h = elim (Bool-cases (affiliation == "")) [
  | inl root ↦
      let same = rw root at h in (inl ((eq_iff affiliation "").0 root), ap (λ r. r.1.db) (sym same))
  | inr other ↦
      let (a, w₁, e, k) =
        bind-eq-ok (get_affiliation affiliation) (λ _. pure tt) w w' (rw other at h) in
      (
        inr (get_affiliation-IsListed affiliation w w₁ a e),
        ap (λ r. r.1.db) (sym k)
            ∙ ap (λ r. r.1.db) (sym e)
            ∙ ((get_affiliation-IsReadOnly affiliation).at w).db,
      )
]

pub attributes_checked :
    (r : Result (Unit {0})) (f : Err → Err) (w w' : World) (t : Unit {0})
    → failing_as f (lift r) w ≡ (ok t, w')
    → (r ≡ ok tt) × (w' ≡ w)
attributes_checked (ok tt) f w w' t h = (refl, ap (λ r. r.1) (sym h))
attributes_checked (err e) f w w' t h = cc

module _ (w : World) (c : UserRecord) (known : w.caller ≡ some c) where
  registrar_types :
      (found : String × Bool) (w' : World) (type : String)
      → is_registrar w ≡ (ok found, w')
      → found.1 ≡ true
      → str_contained type (types_of found.0) ≡ true
      → MayRegisterType c type × (w' ≡ w)
  unfolding types_of
  registrar_types found w' type h registrar contained =
      let answer = is_registrar_known w c known in
      elim (Option-cases (get_attribute c.attributes roles)) [
        | inl missing ↦ absurd (cc)
        | inr (r, held) ↦ elim (Bool-cases (r.value == "")) [
          | inl empty ↦ absurd (ground (arith, rw (held, empty) at (sym answer ∙ h)))
          | inr given ↦
              let same = rw (held, given) at (sym answer ∙ h) in
              let (named, kept) = answered same in
              (
                (
                  r,
                  held,
                  ground (arith, eq_iff r.value ""),
                  rw named (ground (arith, eq_iff found.0 "")),
                ),
                kept,
              )
        ]
      ]

  affiliation_checked :
      (affiliation : String) (w' : World) (t : Unit {0})
      → failing_as reworded (require_affiliation affiliation) w ≡ (ok t, w')
      → CoversAffiliation c affiliation × (w' ≡ w)
  affiliation_checked affiliation w' t h =
      let passed = failing_as-eq-ok reworded (require_affiliation affiliation) w w' t h in
      let (covers, same) = require_affiliation_known w c known affiliation in
      (covers.0 (ap (λ r. r.0) passed), ap (λ r. r.1) (sym passed) ∙ same)

  -- The check passes only a request that is permitted, and changes no table.
  pub can_register-Permitted :
      (req req' : RegistrationRequest) (w' : World)
      → can_register c req w ≡ (ok req', w')
      → Permitted c w req' w' × (req' ≡ or_client req)
  unfolding can_register is_valid_affiliation
  can_register-Permitted req req' w' h =
      let req₁ = or_client req in
      let (found, w₁, e₁, h₁) = bind-eq-ok is_registrar _ w w' h in
      let (t₂, w₂, e₂, h₂) = bind-eq-ok (require found.1 plain) _ w₁ w' h₁ in
      let (t₃, w₃, e₃, h₃) =
        bind-eq-ok (require (str_contained req₁.type (types_of found.0)) plain) _ w₂ w' h₂ in
      let (t₄, w₄, e₄, h₄) =
        bind-eq-ok (failing_as reworded (require_affiliation req₁.affiliation)) _ w₃ w' h₃ in
      let (t₅, w₅, e₅, h₅) = bind-eq-ok (is_valid_affiliation req₁.affiliation) _ w₄ w' h₄ in
      let (t₆, w₆, e₆, h₆) =
        bind-eq-ok
          (failing_as (replaced (new_auth_err err_reg_attr_auth))
            (lift (can_register_requested_attributes req₁.attributes none (control_of c))))
          _ w₅ w' h₅ in
      let (registrar, s₂) = require-eq-ok _ _ w₁ w₂ t₂ e₂ in
      let (contained, s₃) = require-eq-ok _ _ w₂ w₃ t₃ e₃ in
      let (typed, s₁) = registrar_types found w₁ req₁.type e₁ registrar contained in
      let at_w : w₃ ≡ w = s₃ ∙ s₂ ∙ s₁ in
      let (covers, s₄) = affiliation_checked req₁.affiliation w₄ t₄ (
        subst (λ v. failing_as reworded (require_affiliation req₁.affiliation) v ≡ (ok t₄, w₄)) at_w
          e₄) in
      let (listed, s₅) = valid-IsListed req₁.affiliation w₄ w₅ t₅ e₅ in
      let (allowed, s₆) = attributes_checked _ _ w₅ w₆ t₆ e₆ in
      let same : req' ≡ req₁ = ground (arith, h₆) in
      let db : w'.db ≡ w.db =
        ap (λ r. r.1.db) (sym h₆) ∙ ap (λ v. v.db) s₆ ∙ s₅ ∙ ap (λ v. v.db) s₄ in
      (
        rw same (record {
          type = typed;
          affiliation = covers;
          listed =
              subst (λ v. (req₁.affiliation ≡ "") ⊎ IsListed req₁.affiliation v.db.affiliations) s₄
                listed;
          attributes =
              can_register_requested_attributes_sound req₁.attributes none (control_of c) allowed;
          db = db;
        }),
        same,
      )
