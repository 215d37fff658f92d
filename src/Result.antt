-- ===== src/Result.antt =====
-- Fallible code: Go's pair of a value and an `error`, with the errors of lib/servererror.go and
-- `getHTTPErr` of lib/serverendpoint.go. Messages go to the log and to the client's eyes only and are left
-- out; an error keeps what the code reads of it, the cause at the bottom of its stack.
use Prim.Native.Nat.{ℕ}
use fabric_ca_gm.Prelude.{◌≡◌, refl, ◌⊎◌, inl, inr, Bool, true, false, Option, none, some}

-- httpErr, without its two messages
pub record HttpErr : Type 0 where
  pub scode : ℕ
  pub lcode : ℕ
  pub rcode : ℕ

-- `plain` is every other error value, such as those of errors.New, fmt.Errorf and a database driver.
-- `no_rows` is sql.ErrNoRows. `panicked` is a Go panic, which no caller in the program recovers.
pub data Err : Type 0 where
  http : HttpErr → Err
  fatal : ℕ → Err
  plain : Err
  no_rows : Err
  panicked : Err

-- newHTTPErr and newAuthErr. ErrAuthFailure is 20.
abbrev pub new_http_err : ℕ → ℕ → Err
new_http_err scode code = http (record { scode = scode; lcode = code; rcode = code })

abbrev pub err_auth_failure : ℕ
err_auth_failure = 20

abbrev pub new_auth_err : ℕ → Err
new_auth_err code = http (record { scode = 401; lcode = code; rcode = err_auth_failure })

-- getHTTPErr at an error that is not nil
abbrev pub get_http_err : Err → HttpErr
get_http_err (http he) = he
get_http_err _ = record { scode = 500; lcode = 0; rcode = 0 }

-- fmt.Errorf with an error among its arguments keeps the text and loses the cause.
abbrev pub reworded : Err → Err
reworded panicked = panicked
reworded _ = plain

-- An error is replaced, a panic goes through.
abbrev pub replaced : Err → Err → Err
replaced new panicked = panicked
replaced new _ = new

pub data Result {ℓ} (A : Type ℓ) : Type ℓ where
  ok : A → Result A
  err : Err → Result A

-- `if cond { return err }` in front of what follows
abbrev pub ensure : Bool → Err → Result (Unit {0})
ensure true e = ok tt
ensure false e = err e

abbrev pub on_err {ℓ} : {A : Type ℓ} → (Err → Err) → Result A → Result A
on_err f (ok a) = ok a
on_err f (err e) = err (f e)

abbrev pub from_option {ℓ} : {A : Type ℓ} → Err → Option A → Result A
from_option e none = err e
from_option e (some a) = ok a

-- `if err != nil { return err }`
infixl 5 ◌>>=◌
abbrev pub ◌>>=◌ {ℓ κ} : {A : Type ℓ} {B : Type κ} (m : Result A) (next : A → Result B) → Result B
err e >>= next = err e
ok a >>= next = next a

infixl 5 ◌>>◌
abbrev pub ◌>>◌ {ℓ} : {B : Type ℓ} (checked : Result (Unit {0})) (rest : Result B) → Result B
checked >> rest = checked >>= λ _. rest

abbrev pub is_ok {ℓ} : {A : Type ℓ} → Result A → Bool
is_ok (ok a) = true
is_ok (err e) = false

-- A bind that succeeds, taken apart: the value in between, and the two results.
pub bind-eq-ok {ℓ κ} :
    {A : Type ℓ} {B : Type κ} (m : Result A) (next : A → Result B) {last : B}
    → (m >>= next) ≡ ok last
    → (mid : A) × (m ≡ ok mid) × (next mid ≡ ok last)
bind-eq-ok (err e) next h = cc
bind-eq-ok (ok mid) next h = (mid, refl, h)

pub Result-cases {ℓ} :
    {A : Type ℓ} (r : Result A) → ((a : A) × (r ≡ ok a)) ⊎ ((e : Err) × (r ≡ err e))
Result-cases (ok a) = inl (a, refl)
Result-cases (err e) = inr (e, refl)
