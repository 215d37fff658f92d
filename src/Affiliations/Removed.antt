-- ===== src/Affiliations/Removed.antt =====
-- What DeleteAffiliation does where it succeeds.
use fabric_ca_gm.Prelude.{
  is_empty, ℕ, String, ◌≡◌, refl, sym, ap, subst, ◌∙◌, ◌⊎◌, inl, inr, Bool, true, false, not, ◌&&◌,
  ◌||◌, List, [], ◌∷◌, ◌++◌, ◌==◌, arith, Bool-cases, select,
}
use fabric_ca_gm.Result.{ok, new_auth_err}
use fabric_ca_gm.Exec.{◌>>=◌, ◌>>◌, failing_as, pure, require}
use fabric_ca_gm.Exec.Rules.{bind-eq-ok, failing_as-eq-ok, require-eq-ok}
use fabric_ca_gm.World.{
  UserRecord, AffiliationRecord, Db, World, M, statement, query, get_row, get_error, do_transaction,
}
use fabric_ca_gm.World.Statements.{query-eq-ok, do_transaction-eq-ok}
use fabric_ca_gm.World.ReadOnly.{
  read_db, query-IsReadOnly, get_row-IsReadOnly, failing_as-IsReadOnly,
}
use fabric_ca_gm.Registry.{update_rows, set_users, revoke_certificates_of}
use fabric_ca_gm.Registry.Removal.{statement-eq-ok, revoked_at, revoke_certificates_of-eq-ok}
use fabric_ca_gm.Affiliations.{Like, TxResult, called, get_affiliation}
use fabric_ca_gm.Affiliations.Reads.{IsListed, get_affiliation-IsListed, get_affiliation-IsReadOnly}
use fabric_ca_gm.Affiliations.Remove.{
  in_names, set_affiliations, check_identities, remove_aff_db, delete_identities, remove_identities,
  identities_of, remove_rows, delete_affiliation_tx, delete_affiliation,
  err_update_config_remove_aff,
}

-- The tables without some identities: their rows are gone, and their certificates are revoked. 3 is the
-- reason "affiliation changed".
abbrev pub without : List UserRecord → ℕ → Db → Db
without ids time db = record db {
  users = select (λ u. not (in_names ids u.name)) db.users;
  certificates =
      update_rows (λ c. in_names ids c.id && not (c.status == "revoked")) (revoked_at time 3)
        db.certificates;
}

select-all {ℓ} : {A : Type ℓ} (rows : List A) → select (λ a. true) rows ≡ rows
select-all [] = refl
select-all (a ∷ rows) = ap (λ r. a ∷ r) (select-all rows)

update_rows-none {ℓ} :
    {A : Type ℓ} (f : A → A) (rows : List A) → update_rows (λ a. false) f rows ≡ rows
unfolding update_rows
update_rows-none f [] = refl
update_rows-none f (a ∷ rows) = ap (λ r. a ∷ r) (update_rows-none f rows)

remove_aff_db-eq-ok :
    {A : Type 0} (f : Db → A × Db) (w w' : World) (a : A)
    → remove_aff_db (statement f) w ≡ (ok a, w')
    → w'.db ≡ (f w.db).1
remove_aff_db-eq-ok f w w' a h =
    statement-eq-ok f w w' a (failing_as-eq-ok _ (statement f) w w' a h)

abbrev drop_users : List UserRecord → Db → Unit {0} × Db
drop_users ids db = (tt, set_users db (select (λ u. not (in_names ids u.name)) db.users))

delete_identities-eq-ok :
    (ids : List UserRecord) (w w' : World)
    → delete_identities ids w ≡ (ok tt, w')
    → (time : ℕ) × (w'.db ≡ without ids time w.db)
unfolding delete_identities
delete_identities-eq-ok ids w w' h =
    let revoking = remove_aff_db (revoke_certificates_of (λ c. in_names ids c.id) 3) in
    let (_, u, e, k) =
      bind-eq-ok (remove_aff_db (statement (drop_users ids))) (λ _. revoking >> pure tt) w w' h in
    let (n, v, f, l) = bind-eq-ok revoking (λ _. pure tt) u w' k in
    let dropped = remove_aff_db-eq-ok (drop_users ids) w u tt e in
    let revoked =
      revoke_certificates_of-eq-ok (λ c. in_names ids c.id) 3 u v n
        (failing_as-eq-ok _ (revoke_certificates_of (λ c. in_names ids c.id) 3) u v n f) in
    let last : w'.db ≡ v.db = ap (λ r. r.1.db) (sym l) in (u.now, rw (last, revoked, dropped) refl)

without-nil : (time : ℕ) (db : Db) → without [] time db ≡ db
without-nil time db = λ i. record db {
  users = select-all db.users i;
  certificates = update_rows-none (revoked_at time 3) db.certificates i;
}

remove_identities-eq-ok :
    (ids : List UserRecord) (w w' : World)
    → remove_identities ids w ≡ (ok tt, w')
    → (time : ℕ) × (w'.db ≡ without ids time w.db)
unfolding remove_identities
remove_identities-eq-ok [] w w' h = (0, ap (λ r. r.1.db) (sym h) ∙ sym (without-nil 0 w.db))
remove_identities-eq-ok (u ∷ ids) w w' h = delete_identities-eq-ok (u ∷ ids) w w' h

module _ (like : Like) (name : String) where
  abbrev pub gone : AffiliationRecord → Bool
  gone a = called name a || like.below name a.name

  abbrev pub left : List AffiliationRecord → List AffiliationRecord
  left rows = select (λ a. not (gone a)) rows

  left-by_steps :
      (rows : List AffiliationRecord)
      → select (λ a. not (like.below name a.name)) (select (λ a. not (called name a)) rows)
        ≡ left rows
  left-by_steps [] = refl
  left-by_steps (a ∷ rows) = ground (arith, left-by_steps rows)

  left-alone :
      (rows : List AffiliationRecord)
      → is_empty (select (λ a. like.below name a.name) rows) ≡ true
      → select (λ a. not (called name a)) rows ≡ left rows
  left-alone [] h = refl
  left-alone (a ∷ rows) h = elim (Bool-cases (like.below name a.name)) [
    | inl yes' ↦ absurd (cc (rw (yes', is_empty) at h))
    | inr no' ↦ ground (arith, left-alone rows (rw no' at h))
  ]

  abbrev drop_it : Db → Unit {0} × Db
  drop_it db = (tt, set_affiliations db (select (λ a. not (called name a)) db.affiliations))

  abbrev drop_subs : Db → Unit {0} × Db
  drop_subs db =
      (tt, set_affiliations db (select (λ a. not (like.below name a.name)) db.affiliations))

  -- The second statement is left out where it would drop nothing.
  remove_rows-eq-ok :
      (w w' : World)
      → remove_rows like name
          (not (is_empty (select (λ a. like.below name a.name) w.db.affiliations)))
          w
        ≡ (ok tt, w')
      → w'.db ≡ set_affiliations w.db (left w.db.affiliations)
  unfolding remove_rows
  remove_rows-eq-ok w w' h =
      elim (Bool-cases (is_empty (select (λ a. like.below name a.name) w.db.affiliations))) [
        | inl none' ↦
            let (_, v, e, k) =
              bind-eq-ok (remove_aff_db (statement drop_it)) (λ _. pure tt) w w' (rw none' at h) in
            let last : w'.db ≡ v.db = ap (λ r. r.1.db) (sym k) in
            rw (last, remove_aff_db-eq-ok drop_it w v tt e, left-alone w.db.affiliations none') refl
        | inr some' ↦
            let (_, v, e, k) =
              bind-eq-ok (remove_aff_db (statement drop_it))
                (λ _. remove_aff_db (statement drop_subs)) w w' (rw some' at h) in
            rw
              (
                remove_aff_db-eq-ok drop_subs v w' tt k,
                remove_aff_db-eq-ok drop_it w v tt e,
                ← left-by_steps w.db.affiliations,
              )
              refl
      ]

  abbrev pub identities_under : List UserRecord → List UserRecord
  identities_under users =
      select (λ u. u.affiliation == name) users ++ select (λ u. like.below name u.affiliation) users

  -- What a deletion has done: the affiliation was listed, it and all below it are gone, with the identities
  -- of any of them and the certificates of these; nothing else has changed. The conditions were met.
  pub record Removed (force identity_removal is_registrar : Bool) (r : TxResult) (before after : Db)
      : Type 0 where
    pub listed : IsListed name before.affiliations
    pub identities : r.identities ≡ identities_under before.users
    pub allowed :
        (r.identities ≡ []) ⊎ ((is_registrar ≡ true) × (identity_removal ≡ true) × (force ≡ true))
    pub alone : (select (λ a. like.below name a.name) before.affiliations ≡ []) ⊎ (force ≡ true)
    pub time : ℕ
    pub db : after ≡ set_affiliations (without r.identities time before) (left before.affiliations)

  abbrev reading : {A : Type 0} → (Db → A) → M A
  reading f = remove_aff_db (query f)

  reading-eq-ok :
      {A : Type 0} (f : Db → A) (w w' : World) (a : A)
      → reading f w ≡ (ok a, w')
      → (a ≡ f w.db) × (w'.db ≡ w.db)
  reading-eq-ok f w w' a h = (
    query-eq-ok f w a (ap (λ r. r.0) (failing_as-eq-ok _ (query f) w w' a h)),
    read_db (query f) w w' (ok a) (query-IsReadOnly f) (failing_as-eq-ok _ (query f) w w' a h),
  )

  identities_of-eq-ok :
      (w w' : World) (ids : List UserRecord)
      → identities_of like name w ≡ (ok ids, w')
      → (ids ≡ identities_under w.db.users) × (w'.db ≡ w.db)
  unfolding identities_of
  identities_of-eq-ok w w' ids h =
      let of_subs = reading (λ db. select (λ u. like.below name u.affiliation) db.users) in
      let (own, u, e, k) =
        bind-eq-ok (reading (λ db. select (λ u. u.affiliation == name) db.users))
          (λ own. of_subs >>= λ subs. pure (own ++ subs)) w w' h in
      let (subs, v, f, l) = bind-eq-ok of_subs (λ subs. pure (own ++ subs)) u w' k in
      let (is_own, same_u) =
        reading-eq-ok (λ db. select (λ u. u.affiliation == name) db.users) w u own e in
      let (is_subs, same_v) =
        reading-eq-ok (λ db. select (λ u. like.below name u.affiliation) db.users) u v subs f in
      let answer : own ++ subs ≡ ids = ground (arith, l) in
      let last : w'.db ≡ v.db = ap (λ r. r.1.db) (sym l) in
      (rw (← answer, is_own, is_subs, same_u) refl, last ∙ same_v ∙ same_u)

  abbrev sub_affiliations : Db → List AffiliationRecord
  sub_affiliations db = select (λ a. like.below name a.name) db.affiliations

  -- The statements that change tables
  abbrev carry_out : List UserRecord → AffiliationRecord → List AffiliationRecord → M TxResult
  carry_out ids aff subs =
      remove_identities ids
      >> (remove_rows like name (not (is_empty subs))
          >> pure (record { affiliations = subs ++ aff ∷ []; identities = ids }))

  carry_out-eq-ok :
      (ids : List UserRecord) (aff : AffiliationRecord) (w w' : World) (r : TxResult)
      → carry_out ids aff (sub_affiliations w.db) w ≡ (ok r, w')
      → (r.identities ≡ ids)
        × (time : ℕ) × (w'.db ≡ set_affiliations (without ids time w.db) (left w.db.affiliations))
  carry_out-eq-ok ids aff w w' r h =
      let subs = sub_affiliations w.db in
      let answer : TxResult = record { affiliations = subs ++ aff ∷ []; identities = ids } in
      let (_, u, e, k) =
        bind-eq-ok (remove_identities ids)
          (λ _. remove_rows like name (not (is_empty subs)) >> pure answer) w w' h in
      let (_, v, f, l) =
        bind-eq-ok (remove_rows like name (not (is_empty subs))) (λ _. pure answer) u w' k in
      let (time, cleared) = remove_identities-eq-ok ids w u e in
      let same : u.db.affiliations ≡ w.db.affiliations = ap (λ d. d.affiliations) cleared in
      let dropped = remove_rows-eq-ok u v (rw same f) in
      let last : w'.db ≡ v.db = ap (λ p. p.1.db) (sym l) in
      let it : answer ≡ r = ground (arith, l) in
      (ap (λ t. t.identities) (sym it), time, rw (last, dropped, cleared) refl)

  is_empty-eq-nil {ℓ} : {A : Type ℓ} (rows : List A) → is_empty rows ≡ true → rows ≡ []
  is_empty-eq-nil [] h = refl
  is_empty-eq-nil (a ∷ rows) h = absurd (cc h)

  nil_or {ℓ} :
      {A : Type ℓ} (rows : List A) (b : Bool)
      → (is_empty rows || b) ≡ true
      → (rows ≡ []) ⊎ (b ≡ true)
  nil_or rows b h = elim (Bool-cases (is_empty rows)) [
    | inl none' ↦ inl (is_empty-eq-nil rows none')
    | inr some' ↦ inr (rw some' at h)
  ]

  three : (a b c : Bool) → (a && b && c) ≡ true → (a ≡ true) × (b ≡ true) × (c ≡ true)
  three a b c h = ground (arith, h)

  module _ (force identity_removal is_registrar : Bool) where
    abbrev the_row : M AffiliationRecord
    the_row = failing_as get_error (get_row (λ db. select (called name) db.affiliations))

    abbrev with_subs : List UserRecord → AffiliationRecord → List AffiliationRecord → M TxResult
    with_subs ids aff subs =
        require (is_empty subs || force) (new_auth_err err_update_config_remove_aff)
        >> carry_out ids aff subs

    abbrev with_row : List UserRecord → AffiliationRecord → M TxResult
    with_row ids aff = reading sub_affiliations >>= with_subs ids aff

    with_subs-Removed :
        (ids : List UserRecord) (aff : AffiliationRecord) (w w' : World) (r : TxResult)
        → IsListed name w.db.affiliations
        → ids ≡ identities_under w.db.users
        → (ids ≡ []) ⊎ ((is_registrar ≡ true) × (identity_removal ≡ true) × (force ≡ true))
        → with_subs ids aff (sub_affiliations w.db) w ≡ (ok r, w')
        → Removed force identity_removal is_registrar r w.db w'.db
    with_subs-Removed ids aff w w' r listed are allowed h =
        let subs = sub_affiliations w.db in
        let test = require (is_empty subs || force) (new_auth_err err_update_config_remove_aff) in
        let (_, u, e, k) = bind-eq-ok test (λ _. carry_out ids aff subs) w w' h in
        let (alone, same) =
          require-eq-ok (is_empty subs || force) (new_auth_err err_update_config_remove_aff) w u tt
            e in
        let (answer, time, done) = carry_out-eq-ok ids aff w w' r (rw same at k) in
        record {
          listed = listed;
          identities = answer ∙ are;
          allowed =
              subst
                (λ gone.
                  (gone ≡ [])
                  ⊎ ((is_registrar ≡ true) × (identity_removal ≡ true) × (force ≡ true)))
                (sym answer) allowed;
          alone = nil_or subs force alone;
          time = time;
          db =
              done
              ∙ ap (λ gone. set_affiliations (without gone time w.db) (left w.db.affiliations))
                  (sym answer);
        }

    delete_affiliation_tx-Removed :
        (w w' : World) (r : TxResult)
        → IsListed name w.db.affiliations
        → delete_affiliation_tx like name force identity_removal is_registrar w ≡ (ok r, w')
        → Removed force identity_removal is_registrar r w.db w'.db
    unfolding delete_affiliation_tx check_identities
    delete_affiliation_tx-Removed w w' r listed h =
        let conditions : List UserRecord → Bool =
          λ ids. is_empty ids || (is_registrar && identity_removal && force) in
        let (ids, u, e, k) =
          bind-eq-ok (identities_of like name)
            (λ ids.
              check_identities ids force identity_removal is_registrar
              >> (the_row >>= with_row ids))
            w w' h in
        let (are, same_u) = identities_of-eq-ok w u ids e in
        let (_, v, f, l) =
          bind-eq-ok (require (conditions ids) (new_auth_err err_update_config_remove_aff))
            (λ _. the_row >>= with_row ids) u w' k in
        let (passed, same_v) =
          require-eq-ok (conditions ids) (new_auth_err err_update_config_remove_aff) u v tt f in
        let (aff, x, g, m) = bind-eq-ok the_row (with_row ids) v w' l in
        let same_x =
          read_db the_row v x (ok aff)
            (failing_as-IsReadOnly get_error (get_row (λ db. select (called name) db.affiliations))
              (get_row-IsReadOnly (λ db. select (called name) db.affiliations)))
            g in
        let (subs, y, o, n) = bind-eq-ok (reading sub_affiliations) (with_subs ids aff) x w' m in
        let (is_subs, same_y) = reading-eq-ok sub_affiliations x y subs o in
        let same : y.db ≡ w.db = same_y ∙ same_x ∙ ap (λ t. t.db) same_v ∙ same_u in
        let those : subs ≡ sub_affiliations y.db = is_subs ∙ ap sub_affiliations (sym same_y) in
        subst (λ d. Removed force identity_removal is_registrar r d w'.db) same
          (with_subs-Removed ids aff y w' r
            (subst (λ d. IsListed name d.affiliations) (sym same) listed)
            (are ∙ ap (λ d. identities_under d.users) (sym same))
            (elim (nil_or ids (is_registrar && identity_removal && force) passed) [
              | inl none' ↦ inl none'
              | inr all' ↦ inr (three is_registrar identity_removal force all')
            ])
            (rw those at n))

    -- A deletion of an affiliation that succeeds finds it and removes it with all that the database finds
    -- below it; the identities of these go too, with all of their certificates revoked, and nothing else in
    -- the tables changes. Where there are such identities, the caller is a registrar, the server allows the
    -- removal of identities and the deletion is forced; where there are affiliations below, it is forced.
    pub delete_affiliation-Removed :
        (w w' : World) (r : TxResult)
        → delete_affiliation like name force identity_removal is_registrar w ≡ (ok r, w')
        → Removed force identity_removal is_registrar r w.db w'.db
    unfolding delete_affiliation
    delete_affiliation-Removed w w' r h =
        let tx = delete_affiliation_tx like name force identity_removal is_registrar in
        let (a, u, e, k) = bind-eq-ok (get_affiliation name) (λ _. do_transaction tx) w w' h in
        let same_u =
          read_db (get_affiliation name) w u (ok a) (get_affiliation-IsReadOnly name) e in
        let (v, same_v, done, kept) = do_transaction-eq-ok tx u r (ap (λ p. p.0) k) in
        let last : w'.db ≡ (tx v).1.db = ap (λ p. p.1.db) (sym k) ∙ kept in
        let same : v.db ≡ w.db = same_v ∙ same_u in
        subst (λ d. Removed force identity_removal is_registrar r d w'.db) same
          (rw last (
            delete_affiliation_tx-Removed v (tx v).1 r
              (subst (λ d. IsListed name d.affiliations) (sym same)
                (get_affiliation-IsListed name w u a e))
              (λ i. (done i, (tx v).1))))
