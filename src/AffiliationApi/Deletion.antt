-- ===== src/AffiliationApi/Deletion.antt =====
-- The removal of an affiliation by a request.
use fabric_ca_gm.Prelude.{
  String, ◌≡◌, ◌≢◌, sym, ap, subst, ◌∙◌, inl, inr, Bool, true, not, none, some, ◌==◌, arith, eq_iff,
  Option-cases, Bool-cases,
}
use fabric_ca_gm.Result.{Err, Result, Result-cases, ok, err, new_auth_err}
use fabric_ca_gm.Attr.{Attribute, roles}
use fabric_ca_gm.Exec.{◌>>=◌, ◌>>◌, lift, require}
use fabric_ca_gm.Exec.Rules.{bind-eq-ok, stay-eq-ok, lift-eq-ok, pass-eq-ok}
use fabric_ca_gm.World.{UserRecord, World, M}
use fabric_ca_gm.Registry.{get_attribute, get_user_affiliation}
use fabric_ca_gm.Affiliations.{Like, TxResult}
use fabric_ca_gm.Affiliations.Remove.{delete_affiliation, err_update_config_remove_aff}
use fabric_ca_gm.Affiliations.Removed.{Removed, delete_affiliation-Removed}
use fabric_ca_gm.Context.{require_affiliation}
use fabric_ca_gm.Context.Authority.{
  CoversAffiliation, get_user_affiliation_lem, require_affiliation_known, is_registrar_known,
}
use fabric_ca_gm.Register.{Ca}
use fabric_ca_gm.Identities.{stored_caller}
use fabric_ca_gm.Identities.Removal.{stored_caller_known}
use fabric_ca_gm.AffiliationTree.{Info}
use fabric_ca_gm.AffiliationApi.{get_response}
use fabric_ca_gm.AffiliationApi.Handlers.{find_registrar, process_affiliation_delete_request}

-- The attribute hf.Registrar.Roles of a caller says whether it is a registrar.
pub record Registrar (c : UserRecord) (is_registrar : Bool) : Type 0 where
  pub attribute : Attribute
  pub found : get_attribute c.attributes roles ≡ some attribute
  pub answer : is_registrar ≡ not (attribute.value == "")

module _ (w : World) (c : UserRecord) (known : w.caller ≡ some c) where
  pub require_affiliation-eq-ok :
      (affiliation : String) (w' : World) (t : Unit {0})
      → require_affiliation affiliation w ≡ (ok t, w')
      → CoversAffiliation c affiliation × (w' ≡ w)
  require_affiliation-eq-ok affiliation w' t h =
      let (covers, same) = require_affiliation_known w c known affiliation in
      (covers.0 (ap (λ r. r.0) h), ap (λ r. r.1) (sym h) ∙ same)

  pub find_registrar-Registrar :
      (w' : World) (b : Bool) → find_registrar w ≡ (ok b, w') → Registrar c b × (w' ≡ w)
  unfolding find_registrar
  find_registrar-Registrar w' b h =
      let h' = rw (is_registrar_known w c known) at h in
      elim (Option-cases (get_attribute c.attributes roles)) [
        | inl missing ↦ absurd (cc (rw missing at h'))
        | inr (r, found) ↦ elim (Bool-cases (r.value == "")) [
          | inl empty ↦
              let k = rw (found, empty) at h' in
              (
                record { attribute = r; found = found; answer = rw empty (ground (arith, k)) },
                ap (λ p. p.1) (sym k),
              )
          | inr given ↦
              let k = rw (found, given) at h' in
              (
                record { attribute = r; found = found; answer = rw given (ground (arith, k)) },
                ap (λ p. p.1) (sym k),
              )
        ]
      ]

-- Why an affiliation may be removed, and what its removal has done
pub record RemovedFor (like : Like) (ca : Ca) (c : UserRecord) (path : Result String)
    (force_parm : Result Bool) (w w' : World) : Type 0 where
  pub enabled : ca.allow_remove_affiliations ≡ true
  pub name : String
  pub read : path ≡ ok name
  pub other : c.affiliation ≢ name
  pub covered : CoversAffiliation c name
  pub force : Bool
  pub forced : force_parm ≡ ok force
  pub is_registrar : Bool
  pub registrar : Registrar c is_registrar
  pub result : TxResult
  pub removed : Removed like name force ca.allow_remove_identities is_registrar result w.db w'.db

module _ (like : Like) (ca : Ca) (c : UserRecord) (path : Result String)
    (force_parm : Result Bool) where
  abbrev delete_and_answer : String → Bool → Bool → M Info
  delete_and_answer name force reg =
      delete_affiliation like name force ca.allow_remove_identities reg >>= λ result.
      lift (get_response result)

  abbrev with_force : String → Bool → M Info
  with_force name force = find_registrar >>= delete_and_answer name force

  abbrev as_other : String → UserRecord → M Info
  as_other name caller =
      require (not (get_user_affiliation caller == name))
        (new_auth_err err_update_config_remove_aff)
      >> (require_affiliation name >> (lift force_parm >>= with_force name))

  abbrev with_name : String → M Info
  with_name name = stored_caller >>= as_other name

  abbrev covering : String → M Info
  covering name = require_affiliation name >> (lift force_parm >>= with_force name)

  delete_and_answer-Removed :
      (name : String) (force reg : Bool) (w w' : World) (resp : Info)
      → delete_and_answer name force reg w ≡ (ok resp, w')
      → (result : TxResult) × Removed like name force ca.allow_remove_identities reg result w.db
          w'.db
  delete_and_answer-Removed name force reg w w' resp h =
      let (result, v, e, k) =
        bind-eq-ok (delete_affiliation like name force ca.allow_remove_identities reg)
          (λ result. lift (get_response result)) w w' h in
      let last : v ≡ w' = ap (λ r. r.1) k in
      (
        result,
        subst (λ u. Removed like name force ca.allow_remove_identities reg result w.db u.db) last
            (delete_affiliation-Removed like name force ca.allow_remove_identities reg w v result
              e),
      )

  module _ (w w' : World) (resp : Info) (known : w.caller ≡ some c) where
    with_name-other :
        (name : String)
        → with_name name w ≡ (ok resp, w')
        → (c.affiliation ≢ name) × (covering name w ≡ (ok resp, w'))
    with_name-other name h =
        let (d, same, k) =
          stay-eq-ok (λ d. d ≡ c) stored_caller (as_other name) w w'
            (λ d t e. (
              ground (arith, sym e ∙ stored_caller_known c w known),
              ap (λ r. r.1) (sym e ∙ stored_caller_known c w known),
            ))
            h in
        let (other, rest) =
          pass-eq-ok (not (get_user_affiliation d == name))
            (new_auth_err err_update_config_remove_aff) (covering name) w w' k in
        (
          λ own. absurd (
              ground (
                arith,
                other,
                eq_iff (get_user_affiliation d) name,
                get_user_affiliation_lem d,
                ap (λ u. u.affiliation) same,
                own,
              )),
          rest,
        )

    covering-RemovedFor :
        (name : String)
        → ca.allow_remove_affiliations ≡ true
        → path ≡ ok name
        → c.affiliation ≢ name
        → covering name w ≡ (ok resp, w')
        → RemovedFor like ca c path force_parm w w'
    covering-RemovedFor name enabled read other h =
        let (_, covered, h₁) =
          stay-eq-ok (λ _. CoversAffiliation c name) (require_affiliation name)
            (λ _. lift force_parm >>= with_force name) w w'
            (λ t v e. require_affiliation-eq-ok w c known name v t e) h in
        let (force, forced, h₂) = lift-eq-ok force_parm (with_force name) w w' h₁ in
        let (reg, registrar, h₃) =
          stay-eq-ok (Registrar c) find_registrar (delete_and_answer name force) w w'
            (λ b v e. find_registrar-Registrar w c known v b e) h₂ in
        let (result, removed) = delete_and_answer-Removed name force reg w w' resp h₃ in
        record {
          enabled = enabled;
          name = name;
          read = read;
          other = other;
          covered = covered;
          force = force;
          forced = forced;
          is_registrar = reg;
          registrar = registrar;
          result = result;
          removed = removed;
        }

  -- For an authenticated caller, a request to remove an affiliation that succeeds is on a server that allows such
  -- removals; the affiliation is not the caller's own but one that the caller covers; and it is removed with
  -- all below it, as a registrar or not by the caller's hf.Registrar.Roles.
  pub process_affiliation_delete_request-RemovedFor :
      (w w' : World) (resp : Info)
      → w.caller ≡ some c
      → process_affiliation_delete_request like ca path force_parm w ≡ (ok resp, w')
      → RemovedFor like ca c path force_parm w w'
  unfolding process_affiliation_delete_request
  process_affiliation_delete_request-RemovedFor w w' resp known h =
      let (enabled, h₁) =
        pass-eq-ok ca.allow_remove_affiliations (new_auth_err err_update_config_remove_aff)
          (lift path >>= with_name) w w' h in
      let (name, read, h₂) = lift-eq-ok path with_name w w' h₁ in
      let (other, h₃) = with_name-other w w' resp known name h₂ in
      covering-RemovedFor w w' resp known name enabled read other h₃

  -- An authenticated caller without the attribute hf.Registrar.Roles cannot remove any affiliation, whatever
  -- else it holds: the answer is always an error.
  pub process_affiliation_delete_request_refuses :
      (w : World)
      → w.caller ≡ some c
      → get_attribute c.attributes roles ≡ none
      → (e : Err) × ((process_affiliation_delete_request like ca path force_parm w).0 ≡ err e)
  process_affiliation_delete_request_refuses w known missing =
      elim (Result-cases (process_affiliation_delete_request like ca path force_parm w).0) [
        | inl (resp, done) ↦
            let w' = (process_affiliation_delete_request like ca path force_parm w).1 in
            let r =
              process_affiliation_delete_request-RemovedFor w w' resp known (λ i. (done i, w')) in
            absurd (cc (missing, r.registrar.found))
        | inr failed ↦ failed
      ]
