-- ===== src/Exec.antt =====
-- Code that reads and writes a state and may fail: a step returns its result beside the state that it
-- leaves, also where it fails.
pub mod Rules
use fabric_ca_gm.Prelude.{◌≡◌, refl, Bool, true, false, Option, none, some}
use fabric_ca_gm.Result.{Err, Result, ok, err, on_err}

abbrev pub Exec {ℓ} : Type ℓ → Type ℓ → Type ℓ
Exec S A = S → Result A × S

module _ {ℓ} {S A : Type ℓ} where
  abbrev pub pure : A → Exec S A
  pure a s = (ok a, s)

  abbrev pub fail : Err → Exec S A
  fail e s = (err e, s)

  abbrev pub lift : Result A → Exec S A
  lift r s = (r, s)

  abbrev pub gets : (S → A) → Exec S A
  gets f s = (ok (f s), s)

  -- `if err != nil { return f(err) }`
  abbrev pub failing_as : (Err → Err) → Exec S A → Exec S A
  failing_as f m s = (on_err f (m s).0, (m s).1)

  -- The result as a value: `x, err := m()` where the code goes on whatever err is.
  abbrev pub attempt : Exec S A → Exec S (Result A)
  attempt m s = (ok (m s).0, (m s).1)

module _ {ℓ} {S A B : Type ℓ} where
  abbrev pub continue : Result A → (A → Exec S B) → Exec S B
  continue (ok a) f s = f a s
  continue (err e) f s = (err e, s)

  infixl 5 ◌>>=◌ ◌>>◌
  abbrev pub ◌>>=◌ : Exec S A → (A → Exec S B) → Exec S B
  ◌>>=◌ m f s = continue (m s).0 f (m s).1

  abbrev pub ◌>>◌ : Exec S A → Exec S B → Exec S B
  m >> n = m >>= λ _. n

abbrev pub require {ℓ} : {S : Type ℓ} → Bool → Err → S → Result (Unit {ℓ}) × S
require true e s = (ok tt, s)
require false e s = (err e, s)
