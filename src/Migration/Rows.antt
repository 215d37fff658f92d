-- ===== src/Migration/Rows.antt =====
-- What a migration makes of the rows of users, and the updates of one row.
use fabric_ca_gm.Prelude.{
  String, some, ◌==◌, ◌∙◌, ◌≡◌, ◌≢◌, refl, subst, inl, inr, Bool, true, false, not, ◌&&◌, is_none,
  List, [], ◌∷◌, map, ltb, if◌then◌else◌, arith, Bool-cases, select, length,
}
use fabric_ca_gm.Result.{ok}
use fabric_ca_gm.World.{UserRecord, World}
use fabric_ca_gm.Registry.{
  update_rows, update_users, expect_one, named, get_attribute, get_attributes,
}
use fabric_ca_gm.Attr.{Attribute, exists}
use fabric_ca_gm.Identities.Merge.{Distinct, get_new_attributes-get_attribute}
use fabric_ca_gm.Registry.Attributes.{get_attributes-get_attribute}
use fabric_ca_gm.Registry.Rows.{UpdatesOne, update_users-UpdatesOne}
use fabric_ca_gm.Exec.{◌>>=◌}
use fabric_ca_gm.Identities.{get_new_attributes}
use fabric_ca_gm.Migration.{is_below, lacks_attributes, all_attributes}

-- A registrar that has no hf.Registrar.Attributes
abbrev pub misses_attributes : UserRecord → Bool
misses_attributes u =
    not (is_none (get_attribute u.attributes "hf.Registrar.Roles"))
    && is_none (get_attribute u.attributes "hf.Registrar.Attributes")

pub lacks_attributes_iff : (u : UserRecord) → lacks_attributes u ≡ misses_attributes u
unfolding lacks_attributes
lacks_attributes_iff u = ground arith

-- What a migration makes of a row
abbrev pub to_level1 : UserRecord → UserRecord
to_level1 u = record u {
  attributes =
      if misses_attributes u
      then get_new_attributes (get_attributes u.attributes)
          (record { name = "hf.Registrar.Attributes"; value = "*"; e_cert = false } ∷ [])
      else u.attributes;
  level = 1;
}

abbrev pub migrated : UserRecord → UserRecord
migrated u = if ltb u.level 1 then to_level1 u else u

-- Only the users have changed, to `rows`.
pub record NowUsers (rows : List UserRecord) (w w' : World) : Type 0 where
  pub users : w'.db.users ≡ rows
  pub affiliations : w'.db.affiliations ≡ w.db.affiliations
  pub certificates : w'.db.certificates ≡ w.db.certificates

module _ (p : UserRecord → Bool) (f : UserRecord → UserRecord) (w w' : World) where
  pub update-eq-ok :
      (update_users p f >>= expect_one) w ≡ (ok tt, w')
      → (length (select p w.db.users) ≡ 1) × NowUsers (update_rows p f w.db.users) w w'
  update-eq-ok h =
      let u = subst (λ r. UpdatesOne p f w r.0 r.1) h (update_users-UpdatesOne p f w) in
      elim u.users [
        | inl (failed, same) ↦ absurd (cc failed)
        | inr (inl (failed, many, rows)) ↦ absurd (cc failed)
        | inr (inr (done, one, changed)) ↦ (
          one,
          record { users = changed; affiliations = u.affiliations; certificates = u.certificates },
        )
      ]

length-zero : {A : Type 0} (xs : List A) → length xs ≡ 0 → xs ≡ []
length-zero [] h = refl
length-zero (x ∷ xs) h = absurd (omega (arith, h))

module _ {A : Type 0} (p q : A → Bool) where
  -- The rows below the level, once the only row of a name is no longer below
  pub select-update_rows_done :
      (f : A → A)
      → ((a : A) → p (f a) ≡ false)
      → (rows : List A) → select p (update_rows q f rows) ≡ select (λ a. p a && not (q a)) rows
  unfolding update_rows
  select-update_rows_done f done [] = refl
  select-update_rows_done f done (a ∷ rows) =
      ground (arith, select-update_rows_done f done rows, done a)

  select-none :
      (rows : List A)
      → length (select q rows) ≡ 0
      → select (λ a. p a && not (q a)) rows ≡ select p rows
  select-none [] h = refl
  select-none (a ∷ rows) h = ground (arith, select-none rows)

  select-apart :
      (u : A) (us rows : List A) → q u ≡ true → select p rows ≡ u ∷ us → length (select q rows) ≢ 0
  select-apart u us [] named all' = absurd (cc all')
  select-apart u us (a ∷ rows) named all' = ground (arith, select-apart u us rows named)

  pub select-rest :
      (u : A) (us rows : List A)
      → q u ≡ true
      → length (select q rows) ≡ 1
      → select p rows ≡ u ∷ us
      → select (λ a. p a && not (q a)) rows ≡ us
  select-rest u us [] named one all' = absurd (cc all')
  select-rest u us (a ∷ rows) named one all' =
      ground (arith, select-rest u us rows named, select-none rows, select-apart u us rows named)

  pub select-first :
      (u : A) (us rows : List A)
      → q u ≡ true
      → length (select q rows) ≡ 1
      → select p rows ≡ u ∷ us
      → select q rows ≡ u ∷ []
  select-first u us [] named one all' = absurd (cc all')
  select-first u us (a ∷ rows) named one all' = ground (
    arith,
    select-first u us rows named,
    select-apart u us rows named,
    length-zero (select q rows),
  )

module _ {A : Type 0} (q : A → Bool) (f g : A → A) where
  -- Two updates of the same rows
  pub update_rows-update_rows :
      ((a : A) → q (g a) ≡ q a)
      → (rows : List A) → update_rows q f (update_rows q g rows) ≡ update_rows q (λ a. f (g a)) rows
  unfolding update_rows
  update_rows-update_rows same [] = refl
  update_rows-update_rows same (a ∷ rows) =
      ground (arith, update_rows-update_rows same rows, same a)

-- One row of the name, which is this one: an update that works it out from the object migrates it.
module _ (u : UserRecord) (f : UserRecord → UserRecord) where
  map-none :
      (rows : List UserRecord)
      → length (select (named u.name) rows) ≡ 0
      → map migrated (update_rows (named u.name) f rows) ≡ map migrated rows
  unfolding update_rows
  map-none [] h = refl
  map-none (a ∷ rows) h = ground (arith, map-none rows)

  pub map-one :
      migrated (f u) ≡ migrated u
      → (rows : List UserRecord) → select (named u.name) rows ≡ u ∷ []
      → map migrated (update_rows (named u.name) f rows) ≡ map migrated rows
  unfolding update_rows
  map-one same [] h = absurd (cc h)
  map-one same (a ∷ rows) h = elim (Bool-cases (named u.name a)) [
    | inl yes' ↦ ground (arith, same, yes', map-none rows)
    | inr no' ↦ ground (arith, same, no', map-one same rows)
  ]

pub map-idle : (rows : List UserRecord) → select (is_below 1) rows ≡ [] → map migrated rows ≡ rows
map-idle [] h = refl
map-idle (a ∷ rows) h = ground (arith, map-idle rows)

-- The attributes of a registrar that lacks hf.Registrar.Attributes, by name
get_attributes-Distinct : (attrs : List Attribute) → Distinct (get_attributes attrs)
unfolding get_attributes
get_attributes-Distinct [] = tt
get_attributes-Distinct (a ∷ attrs) = elim (Bool-cases (exists (get_attributes attrs) a.name)) [
  | inl there ↦ rw there (get_attributes-Distinct attrs)
  | inr free ↦ rw free (free, get_attributes-Distinct attrs)
]

-- What a migrated row has under a name
pub to_level1-get_attribute :
    (u : UserRecord) (name : String)
    → get_attribute (to_level1 u).attributes name ≡ (
        if misses_attributes u && "hf.Registrar.Attributes" == name
        then some (record { name = "hf.Registrar.Attributes"; value = "*"; e_cert = false })
        else get_attribute u.attributes name)
unfolding get_attribute
to_level1-get_attribute u name = elim (Bool-cases (misses_attributes u)) [
  | inr whole ↦ rw whole refl
  | inl lacks ↦
      let (_, by_name) =
        get_new_attributes-get_attribute (get_attributes u.attributes) all_attributes name
          (get_attributes-Distinct u.attributes) in
      rw lacks (elim (Bool-cases ("hf.Registrar.Attributes" == name)) [
        | inl it ↦ rw it (rw it at by_name)
        | inr other ↦
            rw other (rw other at by_name ∙ get_attributes-get_attribute u.attributes name)
      ])
]
