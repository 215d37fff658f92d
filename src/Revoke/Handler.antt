-- ===== src/Revoke/Handler.antt =====
-- The whole of a revocation.
use fabric_ca_gm.Prelude.{
  String, ◌≡◌, ap, subst, ◌∙◌, ◌≢◌, ◌⊎◌, inl, inr, Bool, true, not, ◌&&◌, Option, none, some, List,
  ◌==◌, arith, eq_iff, In, Bool-cases, if◌then◌else◌,
}
use fabric_ca_gm.Result
use fabric_ca_gm.Result.{Err, Result, ok, err, plain, replaced, new_http_err}
use fabric_ca_gm.Exec.{◌>>=◌, ◌>>◌, lift, fail, require, failing_as}
use fabric_ca_gm.Exec.Rules.{require-eq-ok, bind-eq-ok, failing_as-eq-ok}
use fabric_ca_gm.Attr.{Attribute, parse_bool}
use fabric_ca_gm.World.{UserRecord, CertId, World, M}
use fabric_ca_gm.World.ReadOnly.{IsReadOnly, Keeps}
use fabric_ca_gm.World.Atomic.{read_rules}
use fabric_ca_gm.Registry.{get_attribute, get_user}
use fabric_ca_gm.Registry.Reads.{get_user-eq-ok, get_user-IsReadOnly}
use fabric_ca_gm.Revoke.{
  RevocationRequest, attribute_is_true, revocation_reason_code, normal, CertStore,
  revoke_certificate, revoke_identity, revoke, err_not_revoker, err_missing_revoke_args,
}
use fabric_ca_gm.Revoke.Effect.{IdentityRevoked, revoke_identity-IdentityRevoked}
use fabric_ca_gm.Revoke.Certificates.{CertificateRevoked, revoke_certificate-CertificateRevoked}

-- An identity of the name has the attribute, with a value that reads as true.
abbrev pub HoldsTrue : String → String → World → Type 0
HoldsTrue id attrname w =
    (u : UserRecord) × In u w.db.users
    × (u.name ≡ id)
    × (a : Attribute) × (get_attribute u.attributes attrname ≡ some a)
    × (parse_bool a.value ≡ some true)

option-eq-ok :
    {A : Type 0} (o : Option A) (w w' : World) (a : A)
    → lift (Result.from_option plain o) w ≡ (ok a, w')
    → o ≡ some a
option-eq-ok none w w' a h = cc
option-eq-ok (some b) w w' a h = ground (arith, h)

module _ (id attrname : String) where
  abbrev test_value : Attribute → M (Unit {0})
  test_value attr =
      require (not (attr.value == "")) plain
      >> (lift (Result.from_option plain (parse_bool attr.value)) >>= λ val. require val plain)

  abbrev read_value : UserRecord → M (Unit {0})
  read_value user =
      lift (Result.from_option plain (get_attribute user.attributes attrname)) >>= test_value

  pub attribute_is_true-HoldsTrue :
      (w w' : World) (t : Unit {0})
      → attribute_is_true id attrname w ≡ (ok t, w')
      → HoldsTrue id attrname w
  unfolding attribute_is_true
  attribute_is_true-HoldsTrue w w' t h =
      let (u, w₁, e₁, h₁) = bind-eq-ok (get_user id) read_value w w' h in
      let (a, w₂, e₂, h₂) =
        bind-eq-ok (lift (Result.from_option plain (get_attribute u.attributes attrname)))
          test_value w₁ w' h₁ in
      let (t₃, w₃, e₃, h₃) =
        bind-eq-ok (require (not (a.value == "")) plain)
          (λ _. lift (Result.from_option plain (parse_bool a.value)) >>= λ val. require val plain)
          w₂ w' h₂ in
      let (val, w₄, e₄, h₄) =
        bind-eq-ok (lift (Result.from_option plain (parse_bool a.value))) (λ val. require val plain)
          w₃ w' h₃ in
      let (row, name) = get_user-eq-ok id w w₁ u e₁ in
      let (holds, _) = require-eq-ok val plain w₄ w' t h₄ in
      (
        u,
        row,
        name,
        a,
        option-eq-ok (get_attribute u.attributes attrname) w₁ w₂ a e₂,
        option-eq-ok (parse_bool a.value) w₃ w₄ val e₄ ∙ ap some holds,
      )

pub attribute_is_true-IsReadOnly :
    (id attrname : String) → IsReadOnly (attribute_is_true id attrname)
unfolding attribute_is_true
attribute_is_true-IsReadOnly id attrname = search (read_rules, get_user-IsReadOnly) depth 12

-- What was revoked: a certificate where serial number and AKI are given, else an identity.
abbrev pub Target : RevocationRequest → World → World → Type 0
Target req w w' =
    ((normal req.serial ≢ "")
      × (normal req.aki ≢ "")
      × CertificateRevoked req.name (normal req.serial) (normal req.aki)
          (revocation_reason_code req.reason) w w')
    ⊎ (((normal req.serial ≡ "") ⊎ (normal req.aki ≡ ""))
        × (req.name ≢ "")
        × IdentityRevoked req.name (revocation_reason_code req.reason) w w')

module _ (store : CertStore) (req : RevocationRequest) where
  abbrev given : Bool
  given = not (normal req.serial == "") && not (normal req.aki == "")

  abbrev dispatch : M (List CertId)
  dispatch =
      if given
      then revoke_certificate store req.name (normal req.serial) (normal req.aki)
          (revocation_reason_code req.reason)
      else if not (req.name == "")
      then revoke_identity store req.name (revocation_reason_code req.reason)
      else fail (new_http_err 400 err_missing_revoke_args)

  dispatch-Target : (w w' : World) (ids : List CertId) → dispatch w ≡ (ok ids, w') → Target req w w'
  dispatch-Target w w' ids h = elim (Bool-cases given) [
    | inl both ↦
        let done =
          revoke_certificate-CertificateRevoked store req.name (normal req.serial) (normal req.aki)
            (revocation_reason_code req.reason) w w' ids (rw both at h) in
        inl (
          ground (arith, both, eq_iff (normal req.serial) ""),
          ground (arith, both, eq_iff (normal req.aki) ""),
          done,
        )
    | inr missing ↦ elim (Bool-cases (not (req.name == ""))) [
      | inl named ↦
          let done =
            revoke_identity-IdentityRevoked store req.name (revocation_reason_code req.reason) w w'
              ids (rw (missing, named) at h) in
          inr (
            ground (arith, missing, eq_iff (normal req.serial) "", eq_iff (normal req.aki) ""),
            ground (arith, named, eq_iff req.name ""),
            done,
          )
      | inr nothing ↦ absurd (cc (rw (missing, nothing) at h))
    ]
  ]

-- A revocation that succeeds was asked for by an identity whose hf.Revoker reads as true. Then, on the same
-- tables and for the same request: with a serial number and an AKI, it found that certificate, which was
-- not revoked and is that of the given name, if any; it is the one of the request or its user is one that the caller may
-- manage; and only it was revoked. Else it found the identity of the given name, which is the caller itself or
-- one that the caller may manage; the identity's row and all of its certificates that were not revoked are
-- revoked, and nothing else has changed.
pub revoke-Target :
    (store : CertStore) (id : String) (req : RevocationRequest) (w w' : World) (ids : List CertId)
    → revoke store id req w ≡ (ok ids, w')
    → HoldsTrue id "hf.Revoker" w × (v : World) × Keeps w v × Target req v w'
unfolding revoke
revoke-Target store id req w w' ids h =
    let test = attribute_is_true id "hf.Revoker" in
    let (t, v, e, k) =
      bind-eq-ok (failing_as (replaced (new_http_err 401 err_not_revoker)) test)
        (λ _. dispatch store req) w w' h in
    let passed = failing_as-eq-ok (replaced (new_http_err 401 err_not_revoker)) test w v t e in
    (
      attribute_is_true-HoldsTrue id "hf.Revoker" w v t passed,
      v,
      subst (Keeps w) (ap (λ r. r.1) passed) ((attribute_is_true-IsReadOnly id "hf.Revoker").at w),
      dispatch-Target store req v w' ids k,
    )
