-- ===== src/Exec/Rules.antt =====
-- Invariants of steps, one rule for each way to build a step, and the inversion of a chain that succeeds.
use fabric_ca_gm.Prelude.{ap, sym, subst, ◌≡◌, refl, Bool, true, false, if◌then◌else◌}
use fabric_ca_gm.Result.{Err, Result, ok, err, on_err}
use fabric_ca_gm.Exec.{Exec, pure, fail, lift, gets, failing_as, attempt, continue, ◌>>=◌, require}

-- `R s s'` relates the states before and after, whatever the result.
pub record Moves {ℓ} {S A : Type ℓ} (R : S → S → Type ℓ) (m : Exec S A) : Type ℓ where
  pub at : (s : S) → R s (m s).1

-- An order on states: steps that make no change, and steps in sequence.
pub record IsFlow {ℓ} {S : Type ℓ} (R : S → S → Type ℓ) : Type ℓ where
  pub stay : (s : S) → R s s
  pub chain : (s t u : S) → R s t → R t u → R s u

module _ {ℓ} {S : Type ℓ} {R : S → S → Type ℓ} (flow : IsFlow R) where
  module _ {A : Type ℓ} where
    pub Moves-pure : (a : A) → Moves R (pure a)
    Moves-pure a = record { at = flow.stay }

    pub Moves-fail : (e : Err) → Moves R (fail {A = A} e)
    Moves-fail e = record { at = flow.stay }

    pub Moves-lift : (r : Result A) → Moves R (lift r)
    Moves-lift r = record { at = flow.stay }

    pub Moves-gets : (f : S → A) → Moves R (gets f)
    Moves-gets f = record { at = flow.stay }

    pub Moves-failing_as : (f : Err → Err) (m : Exec S A) → Moves R m → Moves R (failing_as f m)
    Moves-failing_as f m k = record { at = k.at }

    pub Moves-attempt : (m : Exec S A) → Moves R m → Moves R (attempt m)
    Moves-attempt m k = record { at = k.at }

    pub Moves-if :
        (b : Bool) (m n : Exec S A) → Moves R m → Moves R n → Moves R (if b then m else n)
    Moves-if true m n km kn = km
    Moves-if false m n km kn = kn

  pub Moves-require : (b : Bool) (e : Err) → Moves R (require b e)
  Moves-require true e = record { at = flow.stay }
  Moves-require false e = record { at = flow.stay }

  module _ {A B : Type ℓ} where
    continue-Moves :
        (r : Result A) (f : A → Exec S B) (s t : S)
        → R s t
        → ((a : A) → Moves R (f a))
        → R s (continue r f t).1
    continue-Moves (ok a) f s t h k = flow.chain s t _ h ((k a).at t)
    continue-Moves (err e) f s t h k = h

    pub Moves-bind :
        (m : Exec S A) (f : A → Exec S B)
        → Moves R m
        → ((a : A) → Moves R (f a))
        → Moves R (m >>= f)
    Moves-bind m f km kf = record { at = λ s. continue-Moves (m s).0 f s (m s).1 (km.at s) kf }

module _ {ℓ} {S A B : Type ℓ} where
  continue-eq-ok :
      (r : Result A) (f : A → Exec S B) (t u : S) {b : B}
      → continue r f t ≡ (ok b, u)
      → (a : A) × (r ≡ ok a) × (f a t ≡ (ok b, u))
  continue-eq-ok (ok a) f t u h = (a, refl, h)
  continue-eq-ok (err e) f t u h = cc

  -- A chain that succeeds, taken apart.
  pub bind-eq-ok :
      (m : Exec S A) (f : A → Exec S B) (s u : S) {b : B}
      → (m >>= f) s ≡ (ok b, u)
      → (a : A) × (t : S) × (m s ≡ (ok a, t)) × (f a t ≡ (ok b, u))
  bind-eq-ok m f s u h =
      let (a, e, k) = continue-eq-ok (m s).0 f (m s).1 u h in (a, (m s).1, (λ i. (e i, (m s).1)), k)

on_err-eq-ok {ℓ} :
    {A : Type ℓ} (f : Err → Err) (r : Result A) (a : A) → on_err f r ≡ ok a → r ≡ ok a
on_err-eq-ok f (ok b) a h = h
on_err-eq-ok f (err e) a h = cc

module _ {ℓ} {S A : Type ℓ} where
  -- What succeeds under an error's replacement succeeds.
  pub failing_as-eq-ok :
      (f : Err → Err) (m : Exec S A) (s t : S) (a : A)
      → failing_as f m s ≡ (ok a, t)
      → m s ≡ (ok a, t)
  failing_as-eq-ok f m s t a h = λ i. (on_err-eq-ok f (m s).0 a (λ j. (h j).0) i, (h i).1)

-- A test that is passed held, and changes nothing.
pub require-eq-ok {ℓ} :
    {S : Type ℓ} (b : Bool) (e : Err) (s t : S) (passed : Unit {ℓ})
    → require b e s ≡ (ok passed, t)
    → (b ≡ true) × (t ≡ s)
require-eq-ok true e s t passed h = (refl, ap (λ r. r.1) (sym h))
require-eq-ok false e s t passed h = cc

module _ {ℓ} {S A B : Type ℓ} where
  -- A first step that leaves the state as it was: what it establishes, and what the rest does from there.
  pub stay-eq-ok :
      (P : A → Type ℓ) (m : Exec S A) (f : A → Exec S B) (s u : S) {b : B}
      → ((a : A) (t : S) → m s ≡ (ok a, t) → P a × (t ≡ s))
      → (m >>= f) s ≡ (ok b, u)
      → (a : A) × P a × (f a s ≡ (ok b, u))
  stay-eq-ok P m f s u {b} stays h =
      let (a, t, e, k) = bind-eq-ok m f s u h in
      let (p, same) = stays a t e in (a, p, subst (λ v. f a v ≡ (ok b, u)) same k)

  pub lift-eq-ok :
      (r : Result A) (f : A → Exec S B) (s u : S) {b : B}
      → (lift r >>= f) s ≡ (ok b, u)
      → (a : A) × (r ≡ ok a) × (f a s ≡ (ok b, u))
  lift-eq-ok r f s u h =
      stay-eq-ok (λ a. r ≡ ok a) (lift r) f s u (λ a t e. (ap (λ p. p.0) e, ap (λ p. p.1) (sym e)))
        h

module _ {ℓ} {S B : Type ℓ} where
  pub pass-eq-ok :
      (b : Bool) (e : Err) (n : Exec S B) (s u : S) {x : B}
      → (require b e >>= λ _. n) s ≡ (ok x, u)
      → (b ≡ true) × (n s ≡ (ok x, u))
  pass-eq-ok true e n s u h = (refl, h)
  pass-eq-ok false e n s u h = cc
