-- ===== src/World/Statements.antt =====
-- What a statement and a transaction leave of the tables, whether the driver fails or not.
use fabric_ca_gm.Prelude.{
  ◌≡◌, refl, ◌∙◌, ◌⊎◌, inl, inr, true, false, List, [], ◌∷◌, arith, Bool, ap, In, Option, none,
  some,
}
use fabric_ca_gm.Exec.Rules.{bind-eq-ok}
use fabric_ca_gm.Result.{Err, Result, Result-cases, ok, err, plain}
use fabric_ca_gm.World.{
  Db, World, M, run_statement, statement, query, finish, do_transaction, get_row, found_row,
  first_row,
}

module _ {A : Type 0} (f : Db → A × Db) (w : World) where
  -- A statement fails and changes nothing, or answers from the tables and changes them.
  pub statement-cases :
      (((statement f w).0 ≡ err plain) × ((statement f w).1.db ≡ w.db))
      ⊎ (((statement f w).0 ≡ ok (f w.db).0) × ((statement f w).1.db ≡ (f w.db).1))
  unfolding statement
  statement-cases = go w.faults
    where
      go :
          (faults : List Bool)
          → (((run_statement faults f w).0 ≡ err plain) × ((run_statement faults f w).1.db ≡ w.db))
            ⊎ (((run_statement faults f w).0 ≡ ok (f w.db).0)
                × ((run_statement faults f w).1.db ≡ (f w.db).1))
      go [] = inr (refl, refl)
      go (true ∷ faults) = inl (refl, refl)
      go (false ∷ faults) = inr (refl, refl)

module _ {A : Type 0} where
  pub query-db : (f : Db → A) (w : World) → (query f w).1.db ≡ w.db
  unfolding query
  query-db f w = ground (arith, statement-cases (λ db. (f db, db)) w)

  pub query-eq-ok : (f : Db → A) (w : World) (a : A) → (query f w).0 ≡ ok a → a ≡ f w.db
  unfolding query
  query-eq-ok f w a h = ground (arith, statement-cases (λ db. (f db, db)) w)

module _ {A : Type 0} where
  finish-err :
      (before : Db) (r : Result A) (w : World) {e : Err}
      → (finish before r w).0 ≡ err e
      → (finish before r w).1.db ≡ before
  unfolding finish
  finish-err before (err e') w h = refl
  finish-err before (ok a) w h = ground arith

  finish-ok :
      (before : Db) (r : Result A) (w : World) {a : A}
      → (finish before r w).0 ≡ ok a
      → (r ≡ ok a) × ((finish before r w).1.db ≡ w.db)
  unfolding finish
  finish-ok before (err e') w h = cc
  finish-ok before (ok a) w h = ground (arith, query-db (λ db. db) w)

  -- Whatever a transaction does, if it reports an error, a failed commit included, then the tables are
  -- those from before it.
  pub do_transaction-atomic :
      (doit : M A) (w : World) (e : Err)
      → (do_transaction doit w).0 ≡ err e
      → (do_transaction doit w).1.db ≡ w.db
  unfolding do_transaction
  do_transaction-atomic doit w e h = elim (Result-cases (query (λ db. db) w).0) [
    | inl (before, began) ↦
        rw (began, do_transaction)
          (finish-err before (doit (query (λ db. db) w).1).0 (doit (query (λ db. db) w).1).1
              (rw (began, do_transaction) at h)
            ∙ query-eq-ok (λ db. db) w before began)
    | inr (e', failed) ↦ rw (failed, do_transaction) (query-db (λ db. db) w)
  ]

  -- A transaction that reports success has done all of its statements on the tables from before it.
  pub do_transaction-eq-ok :
      (doit : M A) (w : World) (a : A)
      → (do_transaction doit w).0 ≡ ok a
      → (v : World) × (v.db ≡ w.db)
        × ((doit v).0 ≡ ok a)
        × ((do_transaction doit w).1.db ≡ (doit v).1.db)
  unfolding do_transaction
  do_transaction-eq-ok doit w a h = elim (Result-cases (query (λ db. db) w).0) [
    | inl (before, began) ↦
        let (e, f) =
          finish-ok before (doit (query (λ db. db) w).1).0 (doit (query (λ db. db) w).1).1
            (rw (began, do_transaction) at h) in
        ((query (λ db. db) w).1, query-db (λ db. db) w, e, rw (began, do_transaction) f)
    | inr (e', failed) ↦ absurd (cc (rw (failed, do_transaction) at h))
  ]

module _ {A : Type 0} where
  first_row-In : (rows : List A) (a : A) → first_row rows ≡ some a → In a rows
  first_row-In [] a h = cc
  first_row-In (b ∷ rows) a h = inl (ground arith)

  found_row-eq-ok : (o : Option A) (w w' : World) (a : A) → found_row o w ≡ (ok a, w') → o ≡ some a
  unfolding found_row
  found_row-eq-ok none w w' a h = cc
  found_row-eq-ok (some b) w w' a h = cc

  -- A row that is found is one of those selected.
  pub get_row-eq-ok :
      (f : Db → List A) (w w' : World) (a : A) → get_row f w ≡ (ok a, w') → In a (f w.db)
  unfolding get_row
  get_row-eq-ok f w w' a h =
      let (rows, t, e, k) = bind-eq-ok (query f) (λ rows. found_row (first_row rows)) w w' h in
      rw (← query-eq-ok f w rows (ap (λ r. r.0) e))
        (first_row-In rows a (found_row-eq-ok (first_row rows) t w' a k))
