-- ===== src/Context/Managing.antt =====
-- What a check of a caller's authority that succeeds says, whether the caller was read before or is read by it.
use fabric_ca_gm.Prelude.{String, ◌≡◌, refl, sym, ap, ◌∙◌, inl, inr}
use fabric_ca_gm.Result.{Err, Result-cases, ok, err}
use fabric_ca_gm.World.{UserRecord, World}
use fabric_ca_gm.World.ReadOnly.{IsCaller}
use fabric_ca_gm.Context.{get_caller, contains_affiliation, require_affiliation, can_manage_user}
use fabric_ca_gm.Context.Caller.{get_caller-known, get_caller-IsReadOnly}
use fabric_ca_gm.Context.Authority.{
  MayRegisterType, CoversAffiliation, get_caller_known, can_manage_user_iff,
}

-- The caller covers the identity's affiliation and may register its type.
abbrev pub MayManage : UserRecord → UserRecord → Type 0
MayManage c u = CoversAffiliation c u.affiliation × MayRegisterType c u.type

pub get_caller-IsCaller : (w w' : World) (c : UserRecord) → get_caller w ≡ (ok c, w') → IsCaller c w
get_caller-IsCaller w w' c h =
    (get_caller-IsReadOnly.at w).origin c (ap (λ r. r.1.caller) h ∙ get_caller-known w w' c h)

module _ (w w₁ : World) (c : UserRecord) (e : get_caller w ≡ (ok c, w₁)) where
  require_affiliation_after :
      (affiliation : String)
      → require_affiliation affiliation w ≡ require_affiliation affiliation w₁
  unfolding require_affiliation contains_affiliation
  require_affiliation_after affiliation =
      rw (e, get_caller_known w₁ c (get_caller-known w w₁ c e)) refl

  can_manage_user_after : (u : UserRecord) → can_manage_user u w ≡ can_manage_user u w₁
  unfolding can_manage_user
  can_manage_user_after u = rw require_affiliation_after refl

can_manage_user_refused :
    (u : UserRecord) (w : World) (e : Err) (t : Unit {0})
    → (get_caller w).0 ≡ err e
    → (can_manage_user u w).0 ≡ ok t
    → ⊥
unfolding can_manage_user require_affiliation contains_affiliation
can_manage_user_refused u w e t f h = cc (rw f at h)

-- An identity is managed by a caller that may manage it.
pub can_manage_user-MayManage :
    (u : UserRecord) (w w' : World) (t : Unit {0})
    → can_manage_user u w ≡ (ok t, w')
    → (c : UserRecord) × IsCaller c w × MayManage c u
can_manage_user-MayManage u w w' t h = elim (Result-cases (get_caller w).0) [
  | inl (c, f) ↦
      let w₁ = (get_caller w).1 in
      let e : get_caller w ≡ (ok c, w₁) = λ i. (f i, w₁) in
      let there = ap (λ r. r.0) (sym (can_manage_user_after w w₁ c e u) ∙ h) in
      (
        c,
        get_caller-IsCaller w w₁ c e,
        (can_manage_user_iff w₁ c (get_caller-known w w₁ c e) u).0.0 there,
      )
  | inr (e, f) ↦ absurd (can_manage_user_refused u w e t f (ap (λ r. r.0) h))
]
