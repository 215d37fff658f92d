-- ===== src/Enroll/Enrolled.antt =====
-- An enrollment with a password, from the sign-in to the count of the enrollments.
use fabric_ca_gm.Prelude.{
  String, ◌≡◌, ◌≢◌, ap, subst, ◌∙◌, ◌⊎◌, inl, inr, Bool, true, false, ◌&&◌, Option, List, [], ◌∷◌,
  ◌++◌, All, arith, eq_iff,
}
use fabric_ca_gm.Prelude.Int.{ℤ, minus_one, ltℤ, incr, eqℤ_iff}
use fabric_ca_gm.Result.{Result, ok}
use fabric_ca_gm.Exec.{◌>>=◌, ◌>>◌, pure}
use fabric_ca_gm.Exec.Rules.{bind-eq-ok}
use fabric_ca_gm.World.{UserRecord, Db, World, M}
use fabric_ca_gm.Registry.{Bcrypt, named, login_complete, may_count, count_login}
use fabric_ca_gm.Registry.Rows.{update_users-UpdatesOne, update_rows-Only}
use fabric_ca_gm.Auth.{basic_authentication}
use fabric_ca_gm.Auth.Basic.{SignedIn, basic_authentication-SignedIn}
use fabric_ca_gm.Enroll.{EnrollmentRequest}
use fabric_ca_gm.Enroll.Signing.{Pki, EnrollCa, handle_enroll, enroll_handler}
use fabric_ca_gm.Enroll.Issued.{Issued, handle_enroll-Issued}

-- One more enrollment is within the limit that the login left in the object.
abbrev HasRoom : UserRecord → UserRecord → Type 0
HasRoom u row = (u.max_enrollments ≡ minus_one) ⊎ (ltℤ row.state u.max_enrollments ≡ true)

-- A row that the count leaves alone: of another name, or with no enrollments left
abbrev Passed : UserRecord → UserRecord → Type 0
Passed u row =
    (row.name ≢ u.name)
    ⊎ ((u.max_enrollments ≢ minus_one) × (ltℤ row.state u.max_enrollments ≡ false))

-- One row has the identity's name and has enrollments left. It counts one more, and all else is as it was.
pub record Counted (u : UserRecord) (before after : Db) : Type 0 where
  pub front : List UserRecord
  pub row : UserRecord
  pub back : List UserRecord
  pub users_before : before.users ≡ front ++ row ∷ back
  pub users : after.users ≡ front ++ record row { state = incr row.state } ∷ back
  pub name : row.name ≡ u.name
  pub room : HasRoom u row
  pub others : All (Passed u) (front ++ back)
  pub affiliations : after.affiliations ≡ before.affiliations
  pub certificates : after.certificates ≡ before.certificates

module _ (u : UserRecord) where
  abbrev counts : UserRecord → Bool
  counts row = named u.name row && may_count u row

  counts-HasRoom : (row : UserRecord) → counts row ≡ true → (row.name ≡ u.name) × HasRoom u row
  unfolding may_count
  counts-HasRoom row h =
      ground (arith, h, eq_iff row.name u.name, eqℤ_iff u.max_enrollments minus_one)

  not_counts-Passed : (row : UserRecord) → counts row ≡ false → Passed u row
  unfolding may_count
  not_counts-Passed row h =
      ground (arith, h, eq_iff row.name u.name, eqℤ_iff u.max_enrollments minus_one)

  All-Passed : (rows : List UserRecord) → All (λ row. counts row ≡ false) rows → All (Passed u) rows
  All-Passed [] h = tt
  All-Passed (row ∷ rows) (h, hs) = (not_counts-Passed row h, All-Passed rows hs)

  login_complete-Counted : (w w' : World) → login_complete u w ≡ (ok tt, w') → Counted u w.db w'.db
  unfolding login_complete count_login
  login_complete-Counted w w' h =
      let updates = rw h at (update_users-UpdatesOne counts count_login w) in
      elim updates.users [
        | inl (failed, _) ↦ absurd (cc failed)
        | inr (inl (failed, _, _)) ↦ absurd (cc failed)
        | inr (inr (_, one, changed)) ↦
            let (o, updated) = update_rows-Only counts count_login w.db.users one in
            let (name, room) = counts-HasRoom o.row o.passes in
            record {
              front = o.front;
              row = o.row;
              back = o.back;
              users_before = o.split;
              users = changed ∙ updated;
              name = name;
              room = room;
              others = All-Passed (o.front ++ o.back) o.others;
              affiliations = updates.affiliations;
              certificates = updates.certificates;
            }
      ]

module _ (pki : Pki) (ca : EnrollCa) (bcrypt : Bcrypt) (ca_max : ℤ)
    (auth_hdr : Option (Option (String × String))) (body : Result EnrollmentRequest) where
  -- The stages of an enrollment: signed in, a certificate issued, the enrollment counted
  pub record Enrolled (w : World) (cert : String) (after : Db) : Type 0 where
    pub name : String
    pub user : UserRecord
    pub v : World
    pub signed_in : SignedIn bcrypt ca_max auth_hdr w name user v
    pub req : EnrollmentRequest
    pub read : body ≡ ok req
    pub between : Db
    pub issued : Issued pki ca name req v cert between
    pub counted : Counted user between after

  abbrev counting : UserRecord → String → M String
  counting user cert = login_complete user >> pure cert

  abbrev enrolling : String × UserRecord → M String
  enrolling found = handle_enroll pki ca found.0 body >>= counting found.1

  -- An enrollment that succeeds was signed in with the name and password of an identity that may enroll; a
  -- certificate was issued under that name; then exactly one row of that name still had an enrollment left,
  -- under the limit that the login applied: this row counts one more, and every other row is as it was.
  pub enroll_handler-Enrolled :
      (w w' : World) (cert : String)
      → enroll_handler pki ca bcrypt ca_max auth_hdr body w ≡ (ok cert, w')
      → Enrolled w cert w'.db
  unfolding enroll_handler
  enroll_handler-Enrolled w w' cert h =
      let (found, v, e₁, h₁) =
        bind-eq-ok (basic_authentication bcrypt ca_max auth_hdr) enrolling w w' h in
      let (cert', u, e₂, h₂) =
        bind-eq-ok (handle_enroll pki ca found.0 body) (counting found.1) v w' h₁ in
      let (t, x, e₃, h₃) = bind-eq-ok (login_complete found.1) (λ _. pure cert') u w' h₂ in
      let it : cert' ≡ cert = ground (arith, h₃) in
      let last : x.db ≡ w'.db = ap (λ r. r.1.db) h₃ in
      let (req, read, issued) = handle_enroll-Issued pki ca found.0 body v u cert' e₂ in
      record {
        name = found.0;
        user = found.1;
        v = v;
        signed_in = basic_authentication-SignedIn bcrypt ca_max auth_hdr w v found.0 found.1 e₁;
        req = req;
        read = read;
        between = u.db;
        issued = subst (λ c. Issued pki ca found.0 req v c u.db) it issued;
        counted = subst (λ d. Counted found.1 u.db d) last (login_complete-Counted found.1 u x e₃);
      }
