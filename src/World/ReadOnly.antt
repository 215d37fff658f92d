-- ===== src/World/ReadOnly.antt =====
-- Steps that change no table: queries, and the steps that fill the request's caches.
use fabric_ca_gm.Prelude.{
  In, ◌⊎◌, inl, inr, ◌≡◌, refl, sym, ap, ◌∙◌, Bool, true, false, Option, none, some, List, [], ◌∷◌,
}
use fabric_ca_gm.Result.{Err, Result, ok}
use fabric_ca_gm.Exec.{◌>>=◌, failing_as}
use fabric_ca_gm.Exec.Rules.{Moves, IsFlow, Moves-failing_as, Moves-bind}
use fabric_ca_gm.World.{
  UserRecord, Db, World, M, query, get_row, found_row, first_row, statement, run_statement,
}

-- The caller that is known, or the row of the identity that was authenticated
abbrev pub IsCaller : UserRecord → World → Type 0
IsCaller c w = (w.caller ≡ some c) ⊎ (In c w.db.users × (c.name ≡ w.enrollment_id))

pub IsCaller-back :
    (c : UserRecord) (v w : World)
    → v.db ≡ w.db
    → v.enrollment_id ≡ w.enrollment_id
    → ((d : UserRecord) → v.caller ≡ some d → IsCaller d w)
    → IsCaller c v
    → IsCaller c w
IsCaller-back c v w same id known (inl e) = known c e
IsCaller-back c v w same id known (inr (row, name)) = inr (rw same at row, rw id at name)

-- The tables and the request's identity stay, and a caller that is known stays known.
pub record Keeps (w w' : World) : Type 0 where
  pub db : w'.db ≡ w.db
  pub enrollment_id : w'.enrollment_id ≡ w.enrollment_id
  pub enrollment_cert : w'.enrollment_cert ≡ w.enrollment_cert
  pub caller : (c : UserRecord) → w.caller ≡ some c → w'.caller ≡ some c
  pub origin : (c : UserRecord) → w'.caller ≡ some c → IsCaller c w

abbrev pub keeps_flow : IsFlow Keeps
keeps_flow = record {
  stay = λ w. record {
    db = refl;
    enrollment_id = refl;
    enrollment_cert = refl;
    caller = λ c h. h;
    origin = λ c e. inl e;
  };
  chain = λ u v w h k. record {
    db = k.db ∙ h.db;
    enrollment_id = k.enrollment_id ∙ h.enrollment_id;
    enrollment_cert = k.enrollment_cert ∙ h.enrollment_cert;
    caller = λ c e. k.caller c (h.caller c e);
    origin = λ c e. IsCaller-back c v u h.db h.enrollment_id h.origin (k.origin c e);
  };
}

abbrev pub IsReadOnly : {A : Type 0} → M A → Type 0
IsReadOnly m = Moves Keeps m

module _ {A : Type 0} where
  query-Keeps :
      (faults : List Bool) (f : Db → A) (w : World)
      → Keeps w (run_statement faults (λ db. (f db, db)) w).1
  unfolding run_statement
  query-Keeps [] f w = record {
    db = refl;
    enrollment_id = refl;
    enrollment_cert = refl;
    caller = λ c h. h;
    origin = λ c e. inl e;
  }
  query-Keeps (true ∷ faults) f w = record {
    db = refl;
    enrollment_id = refl;
    enrollment_cert = refl;
    caller = λ c h. h;
    origin = λ c e. inl e;
  }
  query-Keeps (false ∷ faults) f w = record {
    db = refl;
    enrollment_id = refl;
    enrollment_cert = refl;
    caller = λ c h. h;
    origin = λ c e. inl e;
  }

  pub query-IsReadOnly : (f : Db → A) → IsReadOnly (query f)
  unfolding query statement
  query-IsReadOnly f = record { at = λ w. query-Keeps w.faults f w }

  found_row-IsReadOnly : (o : Option A) → IsReadOnly (found_row o)
  unfolding found_row
  found_row-IsReadOnly none = record { at = keeps_flow.stay }
  found_row-IsReadOnly (some a) = record { at = keeps_flow.stay }

  pub pure-IsReadOnly : (a : A) → IsReadOnly (λ w. (ok a, w))
  pure-IsReadOnly a = record { at = keeps_flow.stay }

  pub lift-IsReadOnly : (r : Result A) → IsReadOnly (λ w. (r, w))
  lift-IsReadOnly r = record { at = keeps_flow.stay }

  pub failing_as-IsReadOnly : (f : Err → Err) (m : M A) → IsReadOnly m → IsReadOnly (failing_as f m)
  failing_as-IsReadOnly = Moves-failing_as keeps_flow

module _ {A B : Type 0} where
  pub bind-IsReadOnly :
      (m : M A) (f : A → M B) → IsReadOnly m → ((a : A) → IsReadOnly (f a)) → IsReadOnly (m >>= f)
  bind-IsReadOnly = Moves-bind keeps_flow

pub get_row-IsReadOnly : {A : Type 0} (f : Db → List A) → IsReadOnly (get_row f)
unfolding get_row
get_row-IsReadOnly f =
    bind-IsReadOnly (query f) (λ rows. found_row (first_row rows)) (query-IsReadOnly f)
      (λ rows. found_row-IsReadOnly (first_row rows))

-- The tables after a step that only reads.
pub read_db :
    {A : Type 0} (m : M A) (w w' : World) (r : Result A)
    → IsReadOnly m
    → m w ≡ (r, w')
    → w'.db ≡ w.db
read_db m w w' r k h = ap (λ p. p.1.db) (sym h) ∙ (k.at w).db
