-- ===== src/Context/Checks.antt =====
-- The checks of a caller's authority change no table.
use fabric_ca_gm.Prelude.{String}
use fabric_ca_gm.World.{UserRecord}
use fabric_ca_gm.World.ReadOnly.{IsReadOnly}
use fabric_ca_gm.World.Atomic.{read_rules}
use fabric_ca_gm.Registry.Reads.{get_user-IsReadOnly}
use fabric_ca_gm.Context.{
  contains_affiliation, require_affiliation, is_registrar, can_act_on_type, require_type,
  can_manage_user, get_managed_user,
}
use fabric_ca_gm.Context.Caller.{get_caller-IsReadOnly}

pub is_registrar-IsReadOnly : IsReadOnly is_registrar
unfolding is_registrar
is_registrar-IsReadOnly = search (read_rules, get_caller-IsReadOnly)

pub require_affiliation-IsReadOnly :
    (affiliation : String) → IsReadOnly (require_affiliation affiliation)
unfolding require_affiliation contains_affiliation
require_affiliation-IsReadOnly affiliation = search (read_rules, get_caller-IsReadOnly)

can_act_on_type-IsReadOnly : (type : String) → IsReadOnly (can_act_on_type type)
unfolding can_act_on_type
can_act_on_type-IsReadOnly type =
    search (read_rules, get_caller-IsReadOnly, is_registrar-IsReadOnly) depth 9

pub require_type-IsReadOnly : (type : String) → IsReadOnly (require_type type)
unfolding require_type
require_type-IsReadOnly type = search (read_rules, can_act_on_type-IsReadOnly)

pub can_manage_user-IsReadOnly : (user : UserRecord) → IsReadOnly (can_manage_user user)
unfolding can_manage_user
can_manage_user-IsReadOnly user =
    search (read_rules, require_affiliation-IsReadOnly, require_type-IsReadOnly)

pub get_managed_user-IsReadOnly : (name : String) → IsReadOnly (get_managed_user name)
unfolding get_managed_user
get_managed_user-IsReadOnly name =
    search (read_rules, get_user-IsReadOnly, can_manage_user-IsReadOnly)
