-- ===== src/Revoke/Tests.antt =====
-- Revocations on the sample tables.
use fabric_ca_gm.Prelude.{ℕ, String, ◌≡◌, refl, [], ◌∷◌}
use fabric_ca_gm.Result.{ok}
use fabric_ca_gm.Text.{split, join, has_prefix, str_contained, to_lower, trim_left}
use fabric_ca_gm.Attr.{parse_bool}
use fabric_ca_gm.World.{Db, World, query, get_row, statement}
use fabric_ca_gm.World.ReadOnly.{Keeps}
use fabric_ca_gm.Registry.{
  get_attribute, get_affiliation_path, get_user_affiliation, get_user, update_rows, update_users,
  expect_one, revoke_user, revoke_certificates_of,
}
use fabric_ca_gm.Registry.Removal.{statement-eq-ok}
use fabric_ca_gm.Context.{
  get_caller, affiliation_covers, contains_affiliation, require_affiliation, is_registrar, types_of,
  can_act_on_type, require_type, can_manage_user,
}
use fabric_ca_gm.Revoke.{
  RevocationRequest, attribute_is_true, revocation_reason_code, is_cert, revoke_certificates_by_id,
  normal, callers, mark_revoked, CertStore, may_revoke_user, revoke_certificate, revoke_identity,
  revoke,
}
use fabric_ca_gm.Revoke.Handler.{HoldsTrue, Target, revoke-Target}
use fabric_ca_gm.Samples.{world}

-- A store that marks the rows
abbrev mark_rows : String → String → ℕ → Db → Unit {0} × Db
mark_rows serial aki reason db = (
  tt,
  record db {
    certificates = update_rows (is_cert serial aki) (mark_revoked 7 reason) db.certificates;
  },
)

abbrev marking : CertStore
marking = record {
  revoke = λ serial aki reason. statement (mark_rows serial aki reason);
  revoke_marks =
      λ serial aki reason w w' t h. (7, statement-eq-ok (mark_rows serial aki reason) w w' t h);
}

abbrev by_name : RevocationRequest
by_name = record { name = "peer1"; serial = ""; aki = ""; reason = "keycompromise" }

abbrev after : World
after = (revoke marking "admin" by_name world).1

revokes :
    revoke marking "admin" by_name world ≡ (ok (record { serial = "0a"; aki = "b1" } ∷ []), after)
unfolding revoke attribute_is_true revocation_reason_code normal callers trim_left to_lower
    revoke_certificate revoke_identity may_revoke_user revoke_certificates_by_id get_user get_row
    query statement can_manage_user require_affiliation contains_affiliation get_caller
    affiliation_covers get_user_affiliation join get_affiliation_path split has_prefix
    can_act_on_type is_registrar require_type types_of get_attribute update_rows update_users
    expect_one revoke_user revoke_certificates_of str_contained parse_bool
revokes = refl

revoke-Target_example :
    HoldsTrue "admin" "hf.Revoker" world × (v : World) × Keeps world v × Target by_name v after
revoke-Target_example =
    revoke-Target marking "admin" by_name world after (record { serial = "0a"; aki = "b1" } ∷ [])
      revokes
