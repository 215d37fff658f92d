-- ===== src/Migration/Migrated.antt =====
-- The table of users after the loop of a migration.
use fabric_ca_gm.Prelude.{
  ◌≡◌, refl, ap, sym, subst, ◌∙◌, inl, Bool, true, false, List, [], ◌∷◌, map, if◌then◌else◌, arith,
  select, length, In, eq_refl,
}
use fabric_ca_gm.Result.{ok, plain, replaced}
use fabric_ca_gm.World.{UserRecord, World, M, query}
use fabric_ca_gm.World.Statements.{query-db, query-eq-ok}
use fabric_ca_gm.Registry.{update_rows, named, get_attributes, set_level}
use fabric_ca_gm.Registry.Rows.{In-of-select}
use fabric_ca_gm.Exec.{pure, failing_as, ◌>>◌}
use fabric_ca_gm.Exec.Rules.{bind-eq-ok, failing_as-eq-ok}
use fabric_ca_gm.Identities.{get_new_attributes}
use fabric_ca_gm.Migration.{
  is_below, lacks_attributes, all_attributes, modify_attributes, migrate_user_to_level1,
  migrate_users, get_user_less_than_level,
}
use fabric_ca_gm.Migration.Rows.{
  lacks_attributes_iff, update-eq-ok, select-update_rows_done, select-rest, select-first,
  update_rows-update_rows, map-one, map-idle, to_level1, migrated, NowUsers,
}

-- The migration of one row that is the first below level 1.
module _ (u : UserRecord) (us : List UserRecord) where
  pub record StepsTo (w w' : World) : Type 0 where
    pub rest : select (is_below 1) w'.db.users ≡ us
    pub users : map migrated w'.db.users ≡ map migrated w.db.users
    pub affiliations : w'.db.affiliations ≡ w.db.affiliations
    pub certificates : w'.db.certificates ≡ w.db.certificates

  migrated-below : is_below 1 u ≡ true → migrated u ≡ to_level1 u
  migrated-below h = ground (arith, h)

  first-below : (rows : List UserRecord) → select (is_below 1) rows ≡ u ∷ us → is_below 1 u ≡ true
  first-below rows e = (In-of-select (is_below 1) u rows (subst (In u) (sym e) (inl refl))).1

  -- An update of the row's name with what `to_level1` gives, from the row as it is then
  updated-StepsTo :
      (f : UserRecord → UserRecord) (w w' : World)
      → ((a : UserRecord) → is_below 1 (f a) ≡ false)
      → migrated (f u) ≡ migrated u
      → select (is_below 1) w.db.users ≡ u ∷ us
      → length (select (named u.name) w.db.users) ≡ 1
      → NowUsers (update_rows (named u.name) f w.db.users) w w'
      → StepsTo w w'
  updated-StepsTo f w w' done same below one now = record {
    rest =
        ap (select (is_below 1)) now.users
        ∙ select-update_rows_done (is_below 1) (named u.name) f done w.db.users
        ∙ select-rest (is_below 1) (named u.name) u us w.db.users (eq_refl u.name) one below;
    users =
        ap (map migrated) now.users
        ∙ map-one u f same w.db.users
            (select-first (is_below 1) (named u.name) u us w.db.users (eq_refl u.name) one below);
    affiliations = now.affiliations;
    certificates = now.certificates;
  }

  set_level-eq-ok :
      (w w' : World)
      → failing_as (replaced plain) (set_level u 1) w ≡ (ok tt, w')
      → (length (select (named u.name) w.db.users) ≡ 1)
        × NowUsers (update_rows (named u.name) (λ row. record row { level = 1 }) w.db.users) w w'
  unfolding set_level
  set_level-eq-ok w w' h =
      update-eq-ok (named u.name) (λ row. record row { level = 1 }) w w'
        (failing_as-eq-ok (replaced plain) (set_level u 1) w w' tt h)

  new_attributes : UserRecord → UserRecord
  new_attributes row = record row {
    attributes = get_new_attributes (get_attributes u.attributes) all_attributes;
  }

  attributes-eq-ok :
      (w w' : World)
      → failing_as (replaced plain) (modify_attributes u all_attributes) w ≡ (ok tt, w')
      → (length (select (named u.name) w.db.users) ≡ 1)
        × NowUsers (update_rows (named u.name) new_attributes w.db.users) w w'
  unfolding modify_attributes new_attributes
  attributes-eq-ok w w' h =
      update-eq-ok (named u.name) new_attributes w w'
        (failing_as-eq-ok (replaced plain) (modify_attributes u all_attributes) w w' tt h)

  -- The first of the two updates, where there is one
  granting : Bool → M (Unit {0})
  granting lacks =
      failing_as (replaced plain) (if lacks then modify_attributes u all_attributes else pure tt)

  migrate-StepsTo :
      (lacks : Bool) (w w' : World)
      → lacks_attributes u ≡ lacks
      → select (is_below 1) w.db.users ≡ u ∷ us
      → (granting lacks >> failing_as (replaced plain) (set_level u 1)) w ≡ (ok tt, w')
      → StepsTo w w'
  unfolding granting new_attributes
  migrate-StepsTo false w w' lacks below h =
      let (one, now) = set_level-eq-ok w w' h in
      updated-StepsTo (λ row. record row { level = 1 }) w w' (λ a. refl)
        (ground (arith, lacks, lacks_attributes_iff u, first-below w.db.users below)) below one now
  migrate-StepsTo true w w' lacks below h =
      let (_, v, e, k) =
        bind-eq-ok (granting true) (λ _. failing_as (replaced plain) (set_level u 1)) w w' h in
      let (one, first) = attributes-eq-ok w v e in
      let (_, second) = set_level-eq-ok v w' k in
      updated-StepsTo (λ row. record (new_attributes row) { level = 1 }) w w' (λ a. refl)
        (ground (arith, lacks, lacks_attributes_iff u, first-below w.db.users below)) below one
        (record {
          users =
              second.users
              ∙ ap (update_rows (named u.name) (λ row. record row { level = 1 })) first.users
              ∙ update_rows-update_rows (named u.name) (λ row. record row { level = 1 })
                  new_attributes (λ a. refl) w.db.users;
          affiliations = second.affiliations ∙ first.affiliations;
          certificates = second.certificates ∙ first.certificates;
        })

  migrate_user-StepsTo :
      (w w' : World)
      → select (is_below 1) w.db.users ≡ u ∷ us
      → migrate_user_to_level1 u w ≡ (ok tt, w')
      → StepsTo w w'
  unfolding migrate_user_to_level1 granting
  migrate_user-StepsTo w w' below h = migrate-StepsTo (lacks_attributes u) w w' refl below h

pub migrate_users-NowUsers :
    (us : List UserRecord) (w w' : World)
    → select (is_below 1) w.db.users ≡ us
    → migrate_users us w ≡ (ok tt, w')
    → (select (is_below 1) w'.db.users ≡ []) × NowUsers (map migrated w.db.users) w w'
unfolding migrate_users
migrate_users-NowUsers [] w w' below h =
    let same = ap (λ r. r.1.db) (sym h) in
    (
      ap (λ d. select (is_below 1) d.users) same ∙ below,
      record {
        users = ap (λ d. d.users) same ∙ sym (map-idle w.db.users below);
        affiliations = ap (λ d. d.affiliations) same;
        certificates = ap (λ d. d.certificates) same;
      },
    )
migrate_users-NowUsers (u ∷ us) w w' below h =
    let (_, v, e, k) =
      bind-eq-ok (migrate_user_to_level1 u) (λ _. migrate_users us) w w'
        (rw (first-below u us w.db.users below) at h) in
    let step = migrate_user-StepsTo u us w v below e in
    let (none', later) = migrate_users-NowUsers us v w' step.rest k in
    (
      none',
      record {
        users = later.users ∙ step.users;
        affiliations = later.affiliations ∙ step.affiliations;
        certificates = later.certificates ∙ step.certificates;
      },
    )

pub get_user_less_than_level-eq-ok :
    (w v : World) (us : List UserRecord)
    → get_user_less_than_level 1 w ≡ (ok us, v)
    → (us ≡ select (is_below 1) w.db.users) × (v.db ≡ w.db)
unfolding get_user_less_than_level
get_user_less_than_level-eq-ok w v us h =
    let k =
      failing_as-eq-ok (replaced plain) (query (λ db. select (is_below 1) db.users)) w v us h in
    (
      query-eq-ok (λ db. select (is_below 1) db.users) w us (ap (λ r. r.0) k),
      ap (λ r. r.1.db) (sym k) ∙ query-db (λ db. select (is_below 1) db.users) w,
    )
