-- ===== src/Registry/Login.antt =====
-- Logging in with a password.
use fabric_ca_gm.Prelude.{String, ◌≡◌, ◌≢◌, ◌⊎◌, true, arith, if◌then◌else◌}
use fabric_ca_gm.Prelude.Int.{ℤ, pos, minus_one, eqℤ, ltℤ, eqℤ_iff}
use fabric_ca_gm.Result.{ok}
use fabric_ca_gm.World.{UserRecord}
use fabric_ca_gm.Registry.{Bcrypt, login}

-- The limit that applies to an identity: its own and the CA's, where -1 is no limit.
abbrev pub effective_limit : ℤ → ℤ → ℤ
effective_limit ca own =
    if eqℤ ca minus_one
    then own
    else if eqℤ own minus_one
    then ca
    else if ltℤ ca own
    then ca
    else own

-- What a login establishes: the password, an identity that is not revoked and whose limit is not zero
-- and not reached; the object that goes on carries the limit that applies and is the row otherwise.
pub record LoggedIn (bcrypt : Bcrypt) (u : UserRecord) (pass : String) (ca_max : ℤ)
    (u' : UserRecord) : Type 0 where
  pub password : bcrypt.compare u.pass pass ≡ true
  pub enabled : u.max_enrollments ≢ pos 0
  pub not_revoked : u.state ≢ minus_one
  pub limit : u'.max_enrollments ≡ effective_limit ca_max u.max_enrollments
  pub below : (u'.max_enrollments ≡ minus_one) ⊎ (ltℤ u.state u'.max_enrollments ≡ true)
  pub name : u'.name ≡ u.name
  pub state : u'.state ≡ u.state

-- A login that succeeds was made with the password of an identity that may enroll, is not revoked and has not
-- reached the limit that applies, its own or the CA's if that is tighter; the object that goes on carries that
-- limit, and the name and count of the row.
pub login-LoggedIn :
    (bcrypt : Bcrypt) (u : UserRecord) (pass : String) (ca_max : ℤ) (u' : UserRecord)
    → login bcrypt u pass ca_max ≡ ok u'
    → LoggedIn bcrypt u pass ca_max u'
unfolding login
login-LoggedIn bcrypt u pass ca_max u' h = record {
  password = ground arith;
  enabled = ground (arith, eqℤ_iff u.max_enrollments (pos 0));
  not_revoked = ground (arith, eqℤ_iff u.state minus_one);
  limit = ground arith;
  below = ground (arith, eqℤ_iff u'.max_enrollments minus_one);
  name = ground arith;
  state = ground arith;
}
