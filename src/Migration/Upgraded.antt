-- ===== src/Migration/Upgraded.antt =====
-- The tables after a migration, with the levels of the server's version in the table of properties.
use fabric_ca_gm.Prelude.{
  true, ◌&&◌, false, ℕ, ◌≤◌, String, ◌≡◌, refl, ap, sym, ◌∙◌, ◌⊎◌, inl, inr, Option, none, some,
  List, [], ◌∷◌, map, ◌==◌, if◌then◌else◌, arith, eq_iff, Bool-cases, select, All,
}
use fabric_ca_gm.Prelude.Int.{ℤ, pos, ltℤ}
use fabric_ca_gm.Result.{ok, plain, panicked, replaced}
use fabric_ca_gm.Result
use fabric_ca_gm.World.{UserRecord, M, query}
use fabric_ca_gm.World.Statements.{query-db}
use fabric_ca_gm.Registry.{update_rows, get_attribute}
use fabric_ca_gm.Exec.{lift}
use fabric_ca_gm.Exec.Rules.{bind-eq-ok, failing_as-eq-ok}
use fabric_ca_gm.Version.{Levels, cmp_version, find_levels, get_levels}
use fabric_ca_gm.Migration.{
  Property, Store, is_below, get_user_less_than_level, migrate_users, on_world, change_properties,
  set_property, update_db_level, perform_migration,
}
use fabric_ca_gm.Migration.Rows.{
  migrated, to_level1, misses_attributes, to_level1-get_attribute, NowUsers,
}
use fabric_ca_gm.Migration.Migrated.{migrate_users-NowUsers, get_user_less_than_level-eq-ok}

none_below :
    (users : List UserRecord) → select (is_below 1) users ≡ [] → All (λ u. 1 ≤ u.level) users
none_below [] h = tt
none_below (u ∷ users) h = elim (Bool-cases (is_below 1 u)) [
  | inl below ↦ absurd (cc (rw (below, select) at h))
  | inr above ↦ (ground (arith, above), none_below users (rw (above, select) at h))
]

some_of : {A : Type 0} (o : Option A) (a : A) → Result.from_option panicked o ≡ ok a → o ≡ some a
some_of none a h = absurd (cc h)
some_of (some b) a h = ground (arith, h)

module _ (text_of : ℕ → String) (sl : Levels) where
  -- What a migration makes of a row of the properties table
  abbrev pub with_level : Property → Property
  with_level row =
      if row.0 == "identity.level"
      then (row.0, text_of sl.identity)
      else if row.0 == "affiliation.level"
      then (row.0, text_of sl.affiliation)
      else if row.0 == "certificate.level"
      then (row.0, text_of sl.certificate)
      else row

  abbrev set : String → String → List Property → List Property
  set name value = update_rows (λ row. row.0 == name) (λ row. (row.0, value))

  abbrev set_levels : List Property → List Property
  set_levels rows = set "certificate.level" (text_of sl.certificate) (
      set "affiliation.level" (text_of sl.affiliation)
        (set "identity.level" (text_of sl.identity) rows))

  set_levels-map : (rows : List Property) → set_levels rows ≡ map with_level rows
  unfolding update_rows
  set_levels-map [] = refl
  set_levels-map ((name, value) ∷ rows) = elim (Bool-cases (name == "identity.level")) [
    | inl one ↦
        let e = (eq_iff name "identity.level").0 one in
        rw e (ap (λ r. ("identity.level", text_of sl.identity) ∷ r) (set_levels-map rows))
    | inr not_one ↦ elim (Bool-cases (name == "affiliation.level")) [
      | inl two ↦
          let e = (eq_iff name "affiliation.level").0 two in
          rw e (ap (λ r. ("affiliation.level", text_of sl.affiliation) ∷ r) (set_levels-map rows))
      | inr not_two ↦
          rw (not_one, not_two)
            (elim (Bool-cases (name == "certificate.level")) [
              | inl three ↦
                  rw three (ap (λ r. (name, text_of sl.certificate) ∷ r) (set_levels-map rows))
              | inr not_three ↦ rw not_three (ap (λ r. (name, value) ∷ r) (set_levels-map rows))
            ])
    ]
  ]

on_world-eq-ok :
    {A : Type 0} (m : M A) (s s' : Store) (a : A)
    → on_world m s ≡ (ok a, s')
    → (m s.world ≡ (ok a, s'.world)) × (s'.properties ≡ s.properties)
unfolding on_world
on_world-eq-ok m s s' a h = ((λ i. ((h i).0, (h i).1.world)), ap (λ r. r.1.properties) (sym h))

set_property-eq-ok :
    (name value : String) (s s' : Store)
    → set_property name value s ≡ (ok tt, s')
    → (s'.world.db ≡ s.world.db)
      × (s'.properties ≡ update_rows (λ row. row.0 == name) (λ row. (row.0, value)) s.properties)
unfolding set_property change_properties
set_property-eq-ok name value s s' h =
    let change : List Property → List Property =
      update_rows (λ row. row.0 == name) (λ row. (row.0, value)) in
    let (_, t, e, k) =
      bind-eq-ok (on_world (query (λ db. tt))) (λ _. change_properties change) s s' h in
    let (answered, kept) = on_world-eq-ok (query (λ db. tt)) s t tt e in
    (
      ap (λ r. r.1.world.db) (sym k)
          ∙ ap (λ r. r.1.db) (sym answered)
          ∙ query-db (λ db. tt) s.world,
      ap (λ r. r.1.properties) (sym k) ∙ ap change kept,
    )

update_db_level-eq-ok :
    (text_of : ℕ → String) (sl : Levels) (s s' : Store)
    → update_db_level text_of sl s ≡ (ok tt, s')
    → (s'.world.db ≡ s.world.db) × (s'.properties ≡ map (with_level text_of sl) s.properties)
unfolding update_db_level
update_db_level-eq-ok text_of sl s s' h =
    let (_, t, e₁, h₁) =
      bind-eq-ok (set_property "identity.level" (text_of sl.identity)) _ s s' h in
    let (_, u, e₂, h₂) =
      bind-eq-ok (set_property "affiliation.level" (text_of sl.affiliation)) _ t s' h₁ in
    let (same₁, set₁) = set_property-eq-ok "identity.level" (text_of sl.identity) s t e₁ in
    let (same₂, set₂) = set_property-eq-ok "affiliation.level" (text_of sl.affiliation) t u e₂ in
    let (same₃, set₃) = set_property-eq-ok "certificate.level" (text_of sl.certificate) u s' h₂ in
    (
      same₃ ∙ same₂ ∙ same₁,
      set₃
          ∙ ap (set text_of sl "certificate.level" (text_of sl.certificate))
              (set₂ ∙ ap (set text_of sl "affiliation.level" (text_of sl.affiliation)) set₁)
          ∙ set_levels-map text_of sl s.properties,
    )

-- The levels that belong to a version: 1 if it is "1.1.0" or above, 0 if it is below
abbrev pub LevelsOf : String → Levels → Type 0
LevelsOf server_version sl =
    ((c : ℤ) × (cmp_version "1.1.0" server_version ≡ ok c)
      × (ltℤ c (pos 0) ≡ false)
      × (sl ≡ record { identity = 1; affiliation = 1; certificate = 1 }))
    ⊎ ((c : ℤ) × (cmp_version "1.1.0" server_version ≡ ok c)
        × (ltℤ c (pos 0) ≡ true)
        × (sl ≡ record { identity = 0; affiliation = 0; certificate = 0 }))

get_levels-LevelsOf :
    (server_version : String) (sl : Levels)
    → get_levels server_version ≡ ok (some sl)
    → LevelsOf server_version sl
unfolding get_levels find_levels
get_levels-LevelsOf server_version sl h =
    let (c, e, k) = Result.bind-eq-ok (cmp_version "1.1.0" server_version) _ h in
    elim (Bool-cases (ltℤ c (pos 0))) [
      | inr new ↦ inl (c, e, new, ground (arith, rw new at k))
      | inl old ↦
          let (d, f, l) = Result.bind-eq-ok (cmp_version "0" server_version) _ (rw old at k) in
          elim (Bool-cases (ltℤ d (pos 0))) [
            | inl none' ↦ absurd (cc (rw none' at l))
            | inr oldest ↦ inr (c, e, old, ground (arith, rw oldest at l))
          ]
    ]

-- The tables after a migration to a version of the server
pub record Upgraded (text_of : ℕ → String) (server_version : String) (s s' : Store) : Type 0 where
  pub level : All (λ u. 1 ≤ u.level) s'.world.db.users
  pub users : NowUsers (map migrated s.world.db.users) s.world s'.world
  pub attributes :
      (u : UserRecord) (name : String)
      → get_attribute (to_level1 u).attributes name ≡ (
          if misses_attributes u && "hf.Registrar.Attributes" == name
          then some (record { name = "hf.Registrar.Attributes"; value = "*"; e_cert = false })
          else get_attribute u.attributes name)
  pub sl : Levels
  pub levels : get_levels server_version ≡ ok (some sl)
  pub levels_of : LevelsOf server_version sl
  pub properties : s'.properties ≡ map (with_level text_of sl) s.properties

-- A migration that succeeds leaves no identity below level 1. The identities that were below it are now at
-- level 1 and, name by name, have the attributes that they had, save that the registrars without
-- hf.Registrar.Attributes now have it with the value "*"; the other identities are as they were, all in
-- the same order. The rows of the properties table for the three levels now hold those of the server's version,
-- 1 from version 1.1.0 on and 0 before, and no other row or table has changed.
pub perform_migration-Upgraded :
    (text_of : ℕ → String) (server_version : String) (s s' : Store)
    → perform_migration text_of server_version s ≡ (ok tt, s')
    → Upgraded text_of server_version s s'
unfolding perform_migration
perform_migration-Upgraded text_of server_version s s' h =
    let (us, t, e₁, h₁) = bind-eq-ok (on_world (get_user_less_than_level 1)) _ s s' h in
    let (_, u, e₂, h₂) = bind-eq-ok (on_world (migrate_users us)) _ t s' h₁ in
    let (found, v, e₃, h₃) = bind-eq-ok (lift (get_levels server_version)) _ u s' h₂ in
    let (sl, x, e₄, h₄) = bind-eq-ok (lift (Result.from_option panicked found)) _ v s' h₃ in
    let (read, kept₁) = on_world-eq-ok (get_user_less_than_level 1) s t us e₁ in
    let (moved, kept₂) = on_world-eq-ok (migrate_users us) t u tt e₂ in
    let (listed, same₁) = get_user_less_than_level-eq-ok s.world t.world us read in
    let (none', now) =
      migrate_users-NowUsers us t.world u.world
        (ap (λ d. select (is_below 1) d.users) same₁ ∙ sym listed) moved in
    let still : x ≡ u = ap (λ r. r.1) (sym e₄) ∙ ap (λ r. r.1) (sym e₃) in
    let (same₂, set) =
      update_db_level-eq-ok text_of sl x s'
        (failing_as-eq-ok (replaced plain) (update_db_level text_of sl) x s' tt h₄) in
    let known : get_levels server_version ≡ ok (some sl) =
      ap (λ r. r.0) e₃ ∙ ap ok (some_of found sl (ap (λ r. r.0) e₄)) in
    let db : s'.world.db ≡ u.world.db = same₂ ∙ ap (λ r. r.world.db) still in
    record {
      level = none_below s'.world.db.users (ap (λ d. select (is_below 1) d.users) db ∙ none');
      users = record {
        users = ap (λ d. d.users) db ∙ now.users ∙ ap (λ d. map migrated d.users) same₁;
        affiliations =
            ap (λ d. d.affiliations) db ∙ now.affiliations ∙ ap (λ d. d.affiliations) same₁;
        certificates =
            ap (λ d. d.certificates) db ∙ now.certificates ∙ ap (λ d. d.certificates) same₁;
      };
      attributes = to_level1-get_attribute;
      sl = sl;
      levels = known;
      levels_of = get_levels-LevelsOf server_version sl known;
      properties =
          set
          ∙ ap (λ r. map (with_level text_of sl) r.properties) still
          ∙ ap (map (with_level text_of sl)) (kept₂ ∙ kept₁);
    }
