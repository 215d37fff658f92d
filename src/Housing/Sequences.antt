-- ===== src/Housing/Sequences.antt =====
-- Operations on identities and affiliations one after another.
use fabric_ca_gm.Prelude.{String, refl, Bool, some, List, [], ◌∷◌}
use fabric_ca_gm.Result.{Result}
use fabric_ca_gm.World.{UserRecord, Db, World}
use fabric_ca_gm.Registry.{Bcrypt}
use fabric_ca_gm.Affiliations.{Like}
use fabric_ca_gm.Affiliations.Remove.{delete_affiliation}
use fabric_ca_gm.Register.{Ca, RegistrationRequest, register_user}
use fabric_ca_gm.Identities.{ModifyIdentityRequest, process_delete_request, process_put_request}
use fabric_ca_gm.AffiliationApi.Handlers.{process_affiliation_post_request}
use fabric_ca_gm.Housing.{Housed, grown-Housed}
use fabric_ca_gm.Housing.Changes.{register_user-Houses}
use fabric_ca_gm.Housing.Requests.{deleted-Houses, without_affiliation-Houses, put-Houses}
use fabric_ca_gm.Housing.Growth.{post-Grows}

-- An operation with the context that it runs in; the caller of a change to an identity is known.
pub data Operation : Type 0 where
  register : World → String → RegistrationRequest → Operation
  modify : World → UserRecord → String → Result ModifyIdentityRequest → Operation
  remove : World → UserRecord → String → Result Bool → Operation
  add_affiliation : World → Result String → Result Bool → Operation
  remove_affiliation : World → String → Bool → Bool → Bool → Operation

abbrev pub at_tables : World → Db → World
at_tables w db = record w { db = db }

abbrev pub acting : World → UserRecord → Db → World
acting w c db = record w { db = db; caller = some c }

module _ (bcrypt : Bcrypt) (like : Like) (ca : Ca) where
  -- The tables after an operation, done or refused
  unfoldable pub perform : Operation → Db → Db
  perform (register w random_string req) db =
      (register_user bcrypt ca random_string req (at_tables w db)).1.db
  perform (modify w c id body) db = (process_put_request bcrypt id body (acting w c db)).1.db
  perform (remove w c id force_parm) db =
      (process_delete_request ca id force_parm (acting w c db)).1.db
  perform (add_affiliation w body force_parm) db =
      (process_affiliation_post_request ca body force_parm (at_tables w db)).1.db
  perform (remove_affiliation w name force identity_removal is_registrar) db =
      (delete_affiliation like name force identity_removal is_registrar (at_tables w db)).1.db

  unfoldable pub perform_all : List Operation → Db → Db
  perform_all [] db = db
  perform_all (op ∷ ops) db = perform_all ops (perform op db)

  perform-Housed : (op : Operation) (db : Db) → Housed db → Housed (perform op db)
  unfolding perform
  perform-Housed (register w random_string req) db housed =
      register_user-Houses bcrypt ca random_string req (at_tables w db) housed
  perform-Housed (modify w c id body) db housed =
      put-Houses bcrypt c id body (acting w c db) refl housed
  perform-Housed (remove w c id force_parm) db housed =
      deleted-Houses c ca id force_parm (acting w c db) refl housed
  perform-Housed (add_affiliation w body force_parm) db housed =
      let grows = (post-Grows ca body force_parm).at (at_tables w db) in
      grown-Housed db (process_affiliation_post_request ca body force_parm (at_tables w db)).1.db
        housed grows.users grows.listed
  perform-Housed (remove_affiliation w name force identity_removal is_registrar) db housed =
      without_affiliation-Houses like name force identity_removal is_registrar (at_tables w db)
        housed

  -- If the affiliation of every identity is none or a listed one, then this is so after any sequence of
  -- registrations, changes and removals of identities, and additions and removals of affiliations, whoever asks
  -- for them, whether they are granted or refused, and whatever statements fail on the way.
  pub perform_all-Housed :
      (ops : List Operation) (db : Db) → Housed db → Housed (perform_all ops db)
  unfolding perform_all
  perform_all-Housed [] db housed = housed
  perform_all-Housed (op ∷ ops) db housed =
      perform_all-Housed ops (perform op db) (perform-Housed op db housed)
