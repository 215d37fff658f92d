-- ===== src/Housing/Tests.antt =====
-- A registration, a change and a removal on the sample tables.
use fabric_ca_gm.Prelude.{refl, sym, subst, inl, inr, true, false, List, [], ◌∷◌, In}
use fabric_ca_gm.Prelude.Int.{pos}
use fabric_ca_gm.Result.{ok}
use fabric_ca_gm.World.{UserRecord}
use fabric_ca_gm.Register.{Ca, RegistrationRequest}
use fabric_ca_gm.Affiliations.Tests.{plain_like}
use fabric_ca_gm.Housing.{HasHome, Housed}
use fabric_ca_gm.Housing.Sequences.{
  Operation, register, add_affiliation, remove_affiliation, perform_all, perform_all-Housed,
}
use fabric_ca_gm.Samples.{plain_text, affiliations, world, known_world}

abbrev ca : Ca
ca = record {
  max_enrollments = pos 9;
  allow_remove_identities = true;
  allow_remove_affiliations = true;
  identity_level = 1;
  affiliation_level = 1;
}

home_of : (u : UserRecord) → In u world.db.users → HasHome u.affiliation world.db.affiliations
home_of u (inl e) =
    subst (λ v. HasHome v.affiliation affiliations) (sym e)
      (inr (record { name = "org1"; prekey = ""; level = 1 }, inl refl, refl))
home_of u (inr (inl e)) =
    subst (λ v. HasHome v.affiliation affiliations) (sym e)
      (inr (record { name = "org1.sales"; prekey = "org1"; level = 1 }, inr (inl refl), refl))
home_of u (inr (inr none')) = absurd none'

all_at_home : Housed world.db
all_at_home = record { home = home_of }

abbrev newcomer : RegistrationRequest
newcomer = record {
  name = "peer2";
  type = "peer";
  secret = "pw";
  max_enrollments = pos 1;
  affiliation = "org1.it";
  attributes = [];
}

-- An affiliation is added, an identity registered in it, and then another affiliation is removed.
abbrev operations : List Operation
operations =
    add_affiliation known_world (ok "org1.it") (ok false)
    ∷ register known_world "" newcomer
    ∷ remove_affiliation known_world "org1.sales" true true true
    ∷ []

perform_all-Housed_example : Housed (perform_all plain_text plain_like ca operations world.db)
perform_all-Housed_example =
    perform_all-Housed plain_text plain_like ca operations world.db all_at_home
