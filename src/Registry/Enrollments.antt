-- ===== src/Registry/Enrollments.antt =====
-- How often an identity enrolls: `Login` and `LoginComplete` of the requests of one identity, interleaved
-- in any order.
use fabric_ca_gm.Prelude.{
  ℕ, suc, ◌+◌, ◌≤◌, String, ◌≡◌, refl, ◌∙◌, ◌≢◌, ◌⊎◌, inl, inr, true, ◌&&◌, List, [], ◌∷◌, arith,
  eq_iff, Bool-cases, select, length, All, In, All-In,
}
use fabric_ca_gm.Prelude.Int.{ℤ, pos, ltℤ}
use fabric_ca_gm.Result.{ok}
use fabric_ca_gm.World.{UserRecord, World}
use fabric_ca_gm.Registry.{
  Bcrypt, named, update_rows, may_count, count_login, login, login_complete,
}
use fabric_ca_gm.Registry.Rows.{
  select-select, select-update_rows, In-select, update_users-UpdatesOne,
}
use fabric_ca_gm.Registry.Login.{effective_limit, login-LoggedIn}

-- One completion against a table in which the identity has one row.
module _ (u row : UserRecord) where
  module _ (users : List UserRecord) (only : select (named u.name) users ≡ row ∷ []) where
    counted_row :
        length (select (λ r. named u.name r && may_count u r) users) ≡ 1
        → (may_count u row ≡ true)
          × (select
                (named u.name)
                (update_rows (λ r. named u.name r && may_count u r) count_login users)
              ≡ count_login row ∷ [])
    unfolding update_rows
    counted_row one =
        let same : (r : UserRecord) → named u.name (count_login r) ≡ named u.name r =
          λ r. unfold count_login in refl in
        let many : length (select (may_count u) (row ∷ [])) ≡ 1 =
          rw (← only, select-select (named u.name) (may_count u) users) one in
        elim (Bool-cases (may_count u row)) [
          | inl below ↦ (
            below,
            rw (select-update_rows (named u.name) (may_count u) count_login same users, only)
                (ground arith),
          )
          | inr reached ↦ absurd (ground arith)
        ]

    not_counted_row :
        length (select (λ r. named u.name r && may_count u r) users) ≢ 1
        → select
            (named u.name)
            (update_rows (λ r. named u.name r && may_count u r) count_login users)
          ≡ row ∷ []
    unfolding update_rows
    not_counted_row none' =
        let same : (r : UserRecord) → named u.name (count_login r) ≡ named u.name r =
          λ r. unfold count_login in refl in
        let few : length (select (may_count u) (row ∷ [])) ≢ 1 =
          rw (← only, select-select (named u.name) (may_count u) users) none' in
        elim (Bool-cases (may_count u row)) [
          | inl below ↦ absurd (ground arith)
          | inr reached ↦
              rw (select-update_rows (named u.name) (may_count u) count_login same users, only)
                (ground arith)
        ]

  -- It fails and leaves the row, or succeeds and adds one to a state below the limit.
  login_complete_rows :
      (w : World)
      → select (named u.name) w.db.users ≡ row ∷ []
      → ((select (named u.name) (login_complete u w).1.db.users ≡ row ∷ [])
          × ((login_complete u w).0 ≢ ok tt))
        ⊎ ((select (named u.name) (login_complete u w).1.db.users ≡ count_login row ∷ [])
            × (may_count u row ≡ true)
            × ((login_complete u w).0 ≡ ok tt))
  unfolding login_complete
  login_complete_rows w only =
      let updates = update_users-UpdatesOne (λ r. named u.name r && may_count u r) count_login w in
      elim updates.users [
        | inl (failed, same) ↦ inl (rw same only, cc)
        | inr (inl (failed, many, changed)) ↦
            inl (rw changed (not_counted_row w.db.users only many), cc)
        | inr (inr (done, one, changed)) ↦
            let (below, counted) = counted_row w.db.users only one in
            inr (rw changed counted, below, done)
      ]

-- The requests of one identity: those that have logged in and not yet completed, and how many have
-- completed.
pub record System : Type 0 where
  pub world : World
  pub pending : List UserRecord
  pub done : ℕ

module _ (bcrypt : Bcrypt) (ca_max : ℤ) (id : String) where
  pub data Step : System → System → Type 0 where
    sign_on :
        (s : System) (row u : UserRecord) (pass : String)
        → In row s.world.db.users
        → row.name ≡ id
        → login bcrypt row pass ca_max ≡ ok u
        → Step s (record s { pending = u ∷ s.pending })
    complete :
        (s : System) (u : UserRecord)
        → In u s.pending
        → (login_complete u s.world).0 ≡ ok tt
        → Step s (record s { world = (login_complete u s.world).1; done = suc s.done })
    give_up :
        (s : System) (u : UserRecord)
        → In u s.pending
        → (login_complete u s.world).0 ≢ ok tt
        → Step s (record s { world = (login_complete u s.world).1 })

  pub data Reach (s : System) : System → Type 0 where
    here : Reach s s
    next : {t u : System} → Reach s t → Step t u → Reach s u

  module _ (start bound : ℕ) (own : ℤ) (limited : effective_limit ca_max own ≡ pos bound) where
    record Holds (s : System) : Type 0 where
      row : UserRecord
      only : select (named id) s.world.db.users ≡ row ∷ []
      limit : row.max_enrollments ≡ own
      counted : row.state ≡ pos (start + s.done)
      within : start + s.done ≤ bound
      objects : All (λ u. (u.name ≡ id) × (u.max_enrollments ≡ pos bound)) s.pending

    sign_on-Holds :
        (s : System) (row u : UserRecord) (pass : String)
        → In row s.world.db.users
        → row.name ≡ id
        → login bcrypt row pass ca_max ≡ ok u
        → Holds s
        → Holds (record s { pending = u ∷ s.pending })
    sign_on-Holds s row u pass i n l h =
        let l' = login-LoggedIn bcrypt row pass ca_max u l in
        let i' = In-select (named id) row s.world.db.users i ((eq_iff row.name id).1 n) in
        let same : row ≡ h.row = elim (rw h.only at i') [ inl e ↦ e | inr none' ↦ absurd none' ] in
        record {
          row = h.row;
          only = h.only;
          limit = h.limit;
          counted = h.counted;
          within = h.within;
          objects = ((l'.name ∙ n, l'.limit ∙ rw (same, h.limit) limited), h.objects);
        }

    completion-Holds :
        (s : System) (u : UserRecord)
        → In u s.pending
        → Holds s
        → ((login_complete u s.world).0 ≡ ok tt
            → Holds (record s { world = (login_complete u s.world).1; done = suc s.done }))
          × ((login_complete u s.world).0 ≢ ok tt
              → Holds (record s { world = (login_complete u s.world).1 }))
    unfolding may_count count_login
    completion-Holds s u i h =
        let (n, m) =
          All-In (λ v. (v.name ≡ id) × (v.max_enrollments ≡ pos bound)) u s.pending h.objects i in
        let only : select (named u.name) s.world.db.users ≡ h.row ∷ [] = rw n h.only in
        elim (login_complete_rows u h.row s.world only) [
          | inl (kept, failed) ↦ (
            λ done. absurd (failed done),
            λ _. record {
              row = h.row;
              only = rw (← n) kept;
              limit = h.limit;
              counted = h.counted;
              within = h.within;
              objects = h.objects;
            },
          )
          | inr (counted, below, done) ↦
              let room : ltℤ h.row.state u.max_enrollments ≡ true = ground arith in
              (
                λ _. record {
                  row = count_login h.row;
                  only = rw (← n) counted;
                  limit = h.limit;
                  counted = ground (arith, h.counted);
                  within = ground (arith, h.counted);
                  objects = h.objects;
                },
                λ failed. absurd (failed done),
              )
        ]

    Step-Holds : {s t : System} → Step s t → Holds s → Holds t
    Step-Holds (sign_on s row u pass i n l) h = sign_on-Holds s row u pass i n l h
    Step-Holds (complete s u i e) h = (completion-Holds s u i h).0 e
    Step-Holds (give_up s u i e) h = (completion-Holds s u i h).1 e

    Reach-Holds : {s t : System} → Holds s → Reach s t → Holds t
    Reach-Holds h here = h
    Reach-Holds h (next r st) = Step-Holds st (Reach-Holds h r)

-- However the logins and completions of an identity interleave, and whatever statements fail: if the
-- identity has one row, with a count of `start` enrollments, and the limit that applies to it and the CA is a
-- number that is not below `start`, then the successful completions and the earlier ones together do
-- not pass the limit, and the row's count is exactly their number.
pub enrollments_bounded :
    (bcrypt : Bcrypt) (ca_max : ℤ) (id : String) (row : UserRecord) (start bound : ℕ) (w : World)
    (t : System)
    → select (named id) w.db.users ≡ row ∷ []
    → row.state ≡ pos start
    → effective_limit ca_max row.max_enrollments ≡ pos bound
    → start ≤ bound
    → Reach bcrypt ca_max id (record { world = w; pending = []; done = 0 }) t
    → (start + t.done ≤ bound)
      × ((row' : UserRecord) × (select (named id) t.world.db.users ≡ row' ∷ [])
          × (row'.state ≡ pos (start + t.done)))
enrollments_bounded bcrypt ca_max id row start bound w t only counted limited le r =
    let h =
      Reach-Holds bcrypt ca_max id start bound row.max_enrollments limited
        (record {
          row = row;
          only = only;
          limit = refl;
          counted = ground arith;
          within = omega arith;
          objects = tt;
        })
        r in
    (h.within, (h.row, h.only, h.counted))
