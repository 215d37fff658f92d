-- ===== src/Registry/Tests.antt =====
-- Logins and completions on the sample tables.
use fabric_ca_gm.Prelude.{◌+◌, ◌≡◌, ◌≤◌, refl, [], ◌∷◌, select, arith, inl, inr}
use fabric_ca_gm.Prelude.Int.{pos, minus_one}
use fabric_ca_gm.Result.{ok}
use fabric_ca_gm.Exec.{◌>>◌}
use fabric_ca_gm.World.{UserRecord, statement}
use fabric_ca_gm.Registry.{
  named, insert_user, get_user, login, login_complete, update_users, may_count, expect_one,
}
use fabric_ca_gm.Registry.Login.{LoggedIn, login-LoggedIn}
use fabric_ca_gm.Registry.Enrollments.{
  System, Reach, sign_on, complete, here, next, enrollments_bounded,
}
use fabric_ca_gm.Registry.Inserted.{insert_user-get_user-login}
use fabric_ca_gm.Samples.{plain_text, peer, world}

logs_in : login plain_text peer "peerpw" (pos 9) ≡ ok peer
unfolding login
logs_in = refl

login-LoggedIn_example : LoggedIn plain_text peer "peerpw" (pos 9) peer
login-LoggedIn_example = login-LoggedIn plain_text peer "peerpw" (pos 9) peer logs_in

abbrev start : System
start = record { world = world; pending = []; done = 0 }

abbrev logged_in : System
logged_in = record { world = world; pending = peer ∷ []; done = 0 }

abbrev completed : System
completed = record { world = (login_complete peer world).1; pending = peer ∷ []; done = 1 }

completes : (login_complete peer world).0 ≡ ok tt
unfolding login_complete update_users may_count expect_one statement
completes = refl

enrolls : Reach plain_text (pos 9) "peer1" start completed
enrolls =
    next (next here (sign_on start peer peer "peerpw" (inr (inl refl)) refl logs_in))
      (complete logged_in peer (inl refl) completes)

enrollments_bounded_example :
    (1 + 1 ≤ 2)
    × ((row : UserRecord) × (select (named "peer1") completed.world.db.users ≡ row ∷ [])
        × (row.state ≡ pos (1 + 1)))
enrollments_bounded_example =
    enrollments_bounded plain_text (pos 9) "peer1" peer 1 2 world completed refl refl refl
      (omega arith) enrolls

abbrev newcomer : UserRecord
newcomer = record peer { name = "peer2"; state = pos 0 }

insert_user-get_user-login_example :
    (((insert_user plain_text newcomer >> get_user "peer2") world).0 ≡ ok newcomer)
    × (login plain_text newcomer "peerpw" minus_one ≡ ok newcomer)
insert_user-get_user-login_example =
    insert_user-get_user-login plain_text newcomer "peerpw" world refl refl refl
      (record { state = refl; limit = inr (1, refl) })
