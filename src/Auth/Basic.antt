-- ===== src/Auth/Basic.antt =====
-- What a sign-in with a password has established.
use fabric_ca_gm.Prelude.{String, ◌≡◌, sym, ap, ◌∙◌, ◌≢◌, not, Option, none, some, arith, In}
use fabric_ca_gm.Prelude.Int.{ℤ, pos, eqℤ, eqℤ_iff}
use fabric_ca_gm.Result
use fabric_ca_gm.Result.{Err, Result, ok, err, replaced, new_http_err, new_auth_err}
use fabric_ca_gm.Exec.{◌>>=◌, ◌>>◌, lift, require, failing_as}
use fabric_ca_gm.Exec.Rules.{require-eq-ok, bind-eq-ok, failing_as-eq-ok}
use fabric_ca_gm.World.{UserRecord, World, M}
use fabric_ca_gm.Registry.{Bcrypt, get_user, login}
use fabric_ca_gm.Registry.Reads.{get_user-eq-ok, get_user-IsReadOnly}
use fabric_ca_gm.Registry.Login.{LoggedIn, login-LoggedIn}
use fabric_ca_gm.Auth.{
  sign_in, basic_authentication, err_no_auth_hdr, err_no_user_pass, err_enroll_disabled,
  err_invalid_user, err_invalid_pass,
}

-- Who signed in, and how
pub record SignedIn (bcrypt : Bcrypt) (ca_max : ℤ) (auth_hdr : Option (Option (String × String)))
    (w : World) (name : String) (ui : UserRecord) (w' : World) : Type 0 where
  pub pass : String
  pub header : auth_hdr ≡ some (some (name, pass))
  pub enabled : ca_max ≢ pos 0
  pub row : UserRecord
  pub listed : In row w.db.users
  pub name_of : row.name ≡ name
  pub logged_in : LoggedIn bcrypt row pass ca_max ui
  pub enrollment_id : w'.enrollment_id ≡ name
  pub db : w'.db ≡ w.db

lifted :
    {A : Type 0} (o : Option A) (e : Err) (w w' : World) (a : A)
    → lift (Result.from_option e o) w ≡ (ok a, w')
    → (o ≡ some a) × (w' ≡ w)
lifted none e w w' a h = cc
lifted (some b) e w w' a h = (ground (arith, h), ap (λ r. r.1) (sym h))

module _ (bcrypt : Bcrypt) (ca_max : ℤ) where
  abbrev log_on : String × String → UserRecord → M (String × UserRecord)
  log_on up ui =
      lift (Result.on_err (replaced (new_auth_err err_invalid_pass)) (login bcrypt ui up.1 ca_max))
      >>= sign_in bcrypt ca_max up.0

  abbrev find_user : String × String → M UserRecord
  find_user up = failing_as (replaced (new_auth_err err_invalid_user)) (get_user up.0)

  abbrev check_enabled : M (Unit {0})
  check_enabled = require (not (eqℤ ca_max (pos 0))) (new_auth_err err_enroll_disabled)

  abbrev authenticate : String × String → M (String × UserRecord)
  authenticate up = check_enabled >> (find_user up >>= log_on up)

  abbrev decode : Option (String × String) → M (String × UserRecord)
  decode decoded =
      lift (Result.from_option (new_auth_err err_no_user_pass) decoded) >>= authenticate

  -- A sign-in with a password that succeeds had a header with the name and password of an identity in the
  -- registry that the password logs in, under a CA that does not disable enrollment; it changes no table.
  pub basic_authentication-SignedIn :
      (auth_hdr : Option (Option (String × String))) (w w' : World) (name : String)
      (ui : UserRecord)
      → basic_authentication bcrypt ca_max auth_hdr w ≡ (ok (name, ui), w')
      → SignedIn bcrypt ca_max auth_hdr w name ui w'
  unfolding basic_authentication sign_in
  basic_authentication-SignedIn auth_hdr w w' name ui h =
      let (decoded, w₁, e₁, h₁) =
        bind-eq-ok (lift (Result.from_option (new_http_err 401 err_no_auth_hdr) auth_hdr)) decode w
          w' h in
      let (up, w₂, e₂, h₂) =
        bind-eq-ok (lift (Result.from_option (new_auth_err err_no_user_pass) decoded)) authenticate
          w₁ w' h₁ in
      let (t₃, w₃, e₃, h₃) = bind-eq-ok check_enabled (λ _. find_user up >>= log_on up) w₂ w' h₂ in
      let (row, w₄, e₄, h₄) = bind-eq-ok (find_user up) (log_on up) w₃ w' h₃ in
      let (ui', w₅, e₅, h₅) =
        bind-eq-ok
          (lift (
            Result.on_err (replaced (new_auth_err err_invalid_pass))
              (login bcrypt row up.1 ca_max)))
          (sign_in bcrypt ca_max up.0) w₄ w' h₄ in
      let (header, s₁) = lifted auth_hdr (new_http_err 401 err_no_auth_hdr) w w₁ decoded e₁ in
      let (pair, s₂) = lifted decoded (new_auth_err err_no_user_pass) w₁ w₂ up e₂ in
      let (enabled, s₃) =
        require-eq-ok (not (eqℤ ca_max (pos 0))) (new_auth_err err_enroll_disabled) w₂ w₃ t₃ e₃ in
      let at_w : w₃ ≡ w = s₃ ∙ s₂ ∙ s₁ in
      let found =
        failing_as-eq-ok (replaced (new_auth_err err_invalid_user)) (get_user up.0) w₃ w₄ row e₄ in
      let (listed, row_name) = get_user-eq-ok up.0 w₃ w₄ row found in
      let passed =
        failing_as-eq-ok (replaced (new_auth_err err_invalid_pass))
          (lift (login bcrypt row up.1 ca_max)) w₄ w₅ ui' e₅ in
      let it : up.0 ≡ name = ground (arith, h₅) in
      let user : ui' ≡ ui = ground (arith, h₅) in
      let same : w₄.db ≡ w.db =
        ap (λ r. r.1.db) (sym found)
        ∙ ((get_user-IsReadOnly up.0).at w₃).db
        ∙ ap (λ v. v.db) at_w in
      record {
        pass = up.1;
        header = header ∙ ap some pair ∙ ap (λ n. some (some (n, up.1))) it;
        enabled = ground (arith, enabled, eqℤ_iff ca_max (pos 0));
        row = row;
        listed = rw at_w at listed;
        name_of = row_name ∙ it;
        logged_in = rw user at (login-LoggedIn bcrypt row up.1 ca_max ui' (ap (λ r. r.0) passed));
        enrollment_id = ap (λ r. r.1.enrollment_id) (sym h₅) ∙ it;
        db = ap (λ r. r.1.db) (sym h₅) ∙ ap (λ r. r.1.db) (sym passed) ∙ same;
      }
