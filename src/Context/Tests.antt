-- ===== src/Context/Tests.antt =====
-- The checks on what a caller may act on, at the sample tables.
use fabric_ca_gm.Prelude.{true, String, ◌≡◌, refl, ◌↔◌, ◌⊎◌}
use fabric_ca_gm.Text.{split}
use fabric_ca_gm.Text.Under.{Under}
use fabric_ca_gm.Result.{ok}
use fabric_ca_gm.Context.{affiliation_covers, can_manage_user}
use fabric_ca_gm.Context.Authority.{
  affiliation_covers_iff, can_manage_user_iff, CoversAffiliation, MayRegisterType,
}
use fabric_ca_gm.Samples.{admin, peer, known_world}

affiliation_covers_iff_example :
    (affiliation_covers "org1" "org1.sales" ≡ true)
    ↔ ((◌≡◌ {A = String} "org1" "") ⊎ Under (split b'.' "org1") (split b'.' "org1.sales"))
affiliation_covers_iff_example = affiliation_covers_iff "org1" "org1.sales"

can_manage_user_iff_example :
    (((can_manage_user peer known_world).0 ≡ ok tt)
      ↔ (CoversAffiliation admin peer.affiliation × MayRegisterType admin peer.type))
    × ((can_manage_user peer known_world).1 ≡ known_world)
can_manage_user_iff_example = can_manage_user_iff known_world admin refl peer
