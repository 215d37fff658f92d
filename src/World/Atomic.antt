-- ===== src/World/Atomic.antt =====
-- Steps that leave the tables as they were where they fail.
use fabric_ca_gm.Prelude.{if◌then◌else◌, ◌≡◌, refl, ◌∙◌, Bool}
use fabric_ca_gm.Result.{Err, Result, ok, err, on_err}
use fabric_ca_gm.Exec.{◌>>=◌, continue, failing_as, require}
use fabric_ca_gm.Exec.Rules.{Moves-require, Moves-if}
use fabric_ca_gm.World.{World, M}
use fabric_ca_gm.World.ReadOnly.{
  Keeps, keeps_flow, IsReadOnly, query-IsReadOnly, get_row-IsReadOnly, pure-IsReadOnly,
  lift-IsReadOnly, failing_as-IsReadOnly, bind-IsReadOnly,
}

pub record IsAtomic {A : Type 0} (m : M A) : Type 0 where
  pub at : (w : World) (e : Err) → (m w).0 ≡ err e → (m w).1.db ≡ w.db

module _ {A : Type 0} where
  pub reading-IsAtomic : (m : M A) → IsReadOnly m → IsAtomic m
  reading-IsAtomic m k = record { at = λ w e h. (k.at w).db }

  pub pure-IsAtomic : (a : A) → IsAtomic (λ w. (ok a, w))
  pure-IsAtomic a = record { at = λ w e h. refl }

  failing-atomic :
      (f : Err → Err) (r : Result A) (w w' : World)
      → ((e : Err) → r ≡ err e → w'.db ≡ w.db)
      → (e : Err) → on_err f r ≡ err e
      → w'.db ≡ w.db
  failing-atomic f (ok a) w w' k e h = cc
  failing-atomic f (err e') w w' k e h = k e' refl

  pub failing_as-IsAtomic : (f : Err → Err) (m : M A) → IsAtomic m → IsAtomic (failing_as f m)
  failing_as-IsAtomic f m k = record { at = λ w. failing-atomic f (m w).0 w (m w).1 (k.at w) }

module _ {A B : Type 0} where
  continue-atomic :
      (r : Result A) (f : A → M B) (w v : World)
      → v.db ≡ w.db
      → ((a : A) → IsAtomic (f a))
      → (e : Err) → (continue r f v).0 ≡ err e
      → (continue r f v).1.db ≡ w.db
  continue-atomic (ok a) f w v same k e h = (k a).at v e h ∙ same
  continue-atomic (err e') f w v same k e h = same

  -- Steps that only read, and then one that undoes its changes where it fails
  pub bind-IsAtomic :
      (m : M A) (f : A → M B) → IsReadOnly m → ((a : A) → IsAtomic (f a)) → IsAtomic (m >>= f)
  bind-IsAtomic m f km kf = record { at = λ w. continue-atomic (m w).0 f w (m w).1 (km.at w).db kf }

  answered-atomic :
      (r : Result A) (g : A → B) (w v : World)
      → ((e : Err) → r ≡ err e → v.db ≡ w.db)
      → (e : Err) → (continue r (λ a u. (ok (g a), u)) v).0 ≡ err e
      → (continue r (λ a u. (ok (g a), u)) v).1.db ≡ w.db
  answered-atomic (ok a) g w v k e h = cc
  answered-atomic (err e') g w v k e h = k e' refl

  -- An answer is all that follows.
  pub answer-IsAtomic : (m : M A) (g : A → B) → IsAtomic m → IsAtomic (m >>= λ a w. (ok (g a), w))
  answer-IsAtomic m g k = record { at = λ w. answered-atomic (m w).0 g w (m w).1 (k.at w) }

pub require-IsReadOnly : (b : Bool) (e : Err) → IsReadOnly (require b e)
require-IsReadOnly = Moves-require keeps_flow

pub if-IsReadOnly :
    {A : Type 0} (b : Bool) (m n : M A)
    → IsReadOnly m
    → IsReadOnly n
    → IsReadOnly (if b then m else n)
if-IsReadOnly = Moves-if keeps_flow

pub ruleset read_rules = (
  bind-IsReadOnly, pure-IsReadOnly, lift-IsReadOnly, failing_as-IsReadOnly, require-IsReadOnly,
  if-IsReadOnly,
)
