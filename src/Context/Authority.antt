-- ===== src/Context/Authority.antt =====
-- What a caller may act on: the checks of serverrequestcontext.go against the order of affiliation paths
-- and the caller's own roles.
use mathlib.Core.Logic.{◌≢◌}
use fabric_ca_gm.Prelude.{
  String, ◌≡◌, refl, ◌↔◌, ◌⊎◌, inl, inr, Bool, true, false, Option, none, some, arith, eq_iff, ◌==◌,
  Bool-cases, Option-cases, if◌then◌else◌,
}
use fabric_ca_gm.Text.{split, str_contained}
use fabric_ca_gm.Text.Split.{join-split}
use fabric_ca_gm.Text.Under.{Under, Below-iff}
use fabric_ca_gm.Result.{Result, ok, err, new_auth_err, Result-cases}
use fabric_ca_gm.Attr.{Attribute, roles}
use fabric_ca_gm.World.{UserRecord, World}
use fabric_ca_gm.Registry.{get_attribute, get_affiliation_path, get_user_affiliation}
use fabric_ca_gm.Context.{
  get_caller, caller_or_user, affiliation_covers, contains_affiliation, require_affiliation,
  is_registrar, can_act_on_type, types_of, require_type, can_manage_user, err_reg_attr_auth,
}

-- Splitting and joining gives the column back.
pub get_user_affiliation_lem : (u : UserRecord) → get_user_affiliation u ≡ u.affiliation
unfolding get_user_affiliation get_affiliation_path
get_user_affiliation_lem u = join-split "." u.affiliation

-- A caller at the root covers every affiliation; any other covers exactly the affiliations whose path,
-- part by part, begins with its own.
pub affiliation_covers_iff :
    (caller_path affiliation : String)
    → (affiliation_covers caller_path affiliation ≡ true)
      ↔ ((caller_path ≡ "") ⊎ Under (split b'.' caller_path) (split b'.' affiliation))
unfolding affiliation_covers
affiliation_covers_iff p a = ground (arith, eq_iff p "", eq_iff a p, Below-iff p a)

-- The caller has a value for hf.Registrar.Roles, and the type is in it.
abbrev pub MayRegisterType : UserRecord → String → Type 0
MayRegisterType c type =
    (r : Attribute) × (get_attribute c.attributes roles ≡ some r)
    × (r.value ≢ "")
    × (str_contained type (split b',' r.value) ≡ true)

abbrev pub CoversAffiliation : UserRecord → String → Type 0
CoversAffiliation c affiliation =
    (c.affiliation ≡ "") ⊎ Under (split b'.' c.affiliation) (split b'.' affiliation)

-- The answers of isRegistrar and canActOnType for a known caller
abbrev registrar_answer : Option Attribute → Result (String × Bool)
registrar_answer none = err (new_auth_err err_reg_attr_auth)
registrar_answer (some r) = ok (if r.value == "" then ("", false) else (r.value, true))

abbrev type_answer : String → Result (String × Bool) → Result Bool
type_answer type (err e) = err e
type_answer type (ok (types, false)) = err (new_auth_err err_reg_attr_auth)
type_answer type (ok (types, true)) = ok (str_contained type (types_of types))

module _ (w : World) (c : UserRecord) (known : w.caller ≡ some c) where
  pub get_caller_known : get_caller w ≡ (ok c, w)
  unfolding get_caller caller_or_user
  get_caller_known = rw (known, caller_or_user)

  pub require_affiliation_known :
      (affiliation : String)
      → (((require_affiliation affiliation w).0 ≡ ok tt) ↔ CoversAffiliation c affiliation)
        × ((require_affiliation affiliation w).1 ≡ w)
  unfolding require_affiliation contains_affiliation
  require_affiliation_known affiliation =
      rw (get_caller_known, get_user_affiliation_lem)
        (ground (arith, affiliation_covers_iff c.affiliation affiliation))

  pub is_registrar_known : is_registrar w ≡ (registrar_answer (get_attribute c.attributes roles), w)
  unfolding is_registrar
  is_registrar_known = rw get_caller_known (elim (Option-cases (get_attribute c.attributes roles)) [
    | inl missing ↦ rw missing
    | inr (r, found) ↦ rw found
  ])

  can_act_on_type_known :
      (type : String)
      → can_act_on_type type w
        ≡ (type_answer type (registrar_answer (get_attribute c.attributes roles)), w)
  unfolding can_act_on_type
  can_act_on_type_known type =
      rw (get_caller_known, is_registrar_known)
        (elim (Option-cases (get_attribute c.attributes roles)) [
          | inl missing ↦ rw missing
          | inr (r, found) ↦ elim (Bool-cases (r.value == "")) [
            | inl empty ↦ rw (found, empty)
            | inr given ↦ rw (found, given)
          ]
        ])

  pub require_type_known :
      (type : String)
      → (((require_type type w).0 ≡ ok tt) ↔ MayRegisterType c type) × ((require_type type w).1 ≡ w)
  unfolding require_type types_of
  require_type_known type =
      rw can_act_on_type_known (elim (Option-cases (get_attribute c.attributes roles)) [
        | inl missing ↦ rw missing ((λ e. absurd (cc), λ m. absurd (cc m.1)), refl)
        | inr (r, found) ↦ elim (Bool-cases (r.value == "")) [
          | inl empty ↦
              rw (found, empty)
                (
                  (λ e. absurd (cc), λ m. absurd (ground (arith, eq_iff r.value "", m.1, m.2))),
                  refl,
                )
          | inr given ↦ rw (found, given) (ground (arith, eq_iff r.value ""))
        ]
      ])

  -- A known caller may manage exactly the identities whose affiliation it covers and whose type is one
  -- that its hf.Registrar.Roles names; the check changes nothing.
  pub can_manage_user_iff :
      (user : UserRecord)
      → (((can_manage_user user w).0 ≡ ok tt)
          ↔ (CoversAffiliation c user.affiliation × MayRegisterType c user.type))
        × ((can_manage_user user w).1 ≡ w)
  unfolding can_manage_user
  can_manage_user_iff user =
      let (covers, kept) = require_affiliation_known user.affiliation in
      let (named, kept') = require_type_known user.type in
      rw get_user_affiliation_lem (elim (Result-cases (require_affiliation user.affiliation w).0) [
        | inl (_, passed) ↦
            rw (passed, kept) ((λ h. (covers.0 passed, named.0 h), λ h. named.1 h.1), kept')
        | inr (e, refused) ↦
            rw (refused, kept) ((λ h. absurd (cc), λ h. cc (refused, covers.1 h.0)), refl)
      ])
