-- ===== src/Register/Failure.antt =====
-- A registration that fails.
use fabric_ca_gm.Prelude.{String, ◌≡◌, inl, inr}
use fabric_ca_gm.Result.{Err, Result, ok, err}
use fabric_ca_gm.Exec.{attempt}
use fabric_ca_gm.World.{UserRecord, World}
use fabric_ca_gm.World.ReadOnly.{IsReadOnly, keeps_flow}
use fabric_ca_gm.World.Atomic.{IsAtomic, read_rules, bind-IsAtomic, answer-IsAtomic}
use fabric_ca_gm.Registry.{Bcrypt, get_user, insert_user}
use fabric_ca_gm.Registry.Reads.{get_user-IsReadOnly, insert_user-cases}
use fabric_ca_gm.Affiliations.Reads.{get_affiliation-IsReadOnly}
use fabric_ca_gm.Context.Caller.{get_caller-IsReadOnly}
use fabric_ca_gm.Context.Checks.{is_registrar-IsReadOnly, require_affiliation-IsReadOnly}
use fabric_ca_gm.Register.{
  Ca, RegistrationRequest, can_register, is_valid_affiliation, require_unregistered,
  register_user_id, register_user,
}

is_valid_affiliation-IsReadOnly :
    (affiliation : String) → IsReadOnly (is_valid_affiliation affiliation)
unfolding is_valid_affiliation
is_valid_affiliation-IsReadOnly affiliation = search (read_rules, get_affiliation-IsReadOnly)

can_register-IsReadOnly :
    (registrar : UserRecord) (req : RegistrationRequest) → IsReadOnly (can_register registrar req)
unfolding can_register
can_register-IsReadOnly registrar req =
    search
      (
        read_rules, is_registrar-IsReadOnly, require_affiliation-IsReadOnly,
        is_valid_affiliation-IsReadOnly,
      )
      depth 14

require_unregistered-IsReadOnly :
    (found : Result UserRecord) → IsReadOnly (require_unregistered found)
require_unregistered-IsReadOnly (ok user) = record { at = keeps_flow.stay }
require_unregistered-IsReadOnly (err e) = record { at = keeps_flow.stay }

insert_user-IsAtomic : (bcrypt : Bcrypt) (user : UserRecord) → IsAtomic (insert_user bcrypt user)
insert_user-IsAtomic bcrypt user = record {
  at = λ w e h. elim (insert_user-cases bcrypt user w) [
    | inl (_, same) ↦ same
    | inr (_, _, done, _) ↦ absurd (cc (done, h))
  ];
}

attempt-IsReadOnly : (name : String) → IsReadOnly (attempt (get_user name))
attempt-IsReadOnly name = record { at = (get_user-IsReadOnly name).at }

module _ (bcrypt : Bcrypt) (ca : Ca) (random_string : String) where
  register_user_id-IsAtomic :
      (req : RegistrationRequest) → IsAtomic (register_user_id bcrypt ca random_string req)
  unfolding register_user_id
  register_user_id-IsAtomic req =
      search
        (
          read_rules, bind-IsAtomic, answer-IsAtomic, insert_user-IsAtomic, attempt-IsReadOnly,
          require_unregistered-IsReadOnly,
        )
        depth 12

  register_user-IsAtomic :
      (req : RegistrationRequest) → IsAtomic (register_user bcrypt ca random_string req)
  unfolding register_user
  register_user-IsAtomic req =
      search
        (
          read_rules, bind-IsAtomic, get_caller-IsReadOnly, can_register-IsReadOnly,
          register_user_id-IsAtomic,
        )
        depth 9

-- Whatever goes wrong, a registration that reports an error leaves every table as it was.
pub failed_register_user :
    (bcrypt : Bcrypt) (ca : Ca) (random_string : String) (req : RegistrationRequest) (w : World)
    (e : Err)
    → (register_user bcrypt ca random_string req w).0 ≡ err e
    → (register_user bcrypt ca random_string req w).1.db ≡ w.db
failed_register_user bcrypt ca random_string req =
    (register_user-IsAtomic bcrypt ca random_string req).at
