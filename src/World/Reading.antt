-- ===== src/World/Reading.antt =====
-- A transaction that only reads changes no table.
use fabric_ca_gm.Prelude.{◌≡◌, inl, inr}
use fabric_ca_gm.Result.{Result, Result-cases, ok, err}
use fabric_ca_gm.World.{Db, World, M, query, restore, finish, do_transaction}
use fabric_ca_gm.World.Statements.{query-eq-ok}
use fabric_ca_gm.World.ReadOnly.{Keeps, keeps_flow, IsReadOnly, query-IsReadOnly}

restore-Keeps : (before : Db) (w v : World) → before ≡ w.db → Keeps w v → Keeps w (restore before v)
restore-Keeps before w v same k = record {
  db = same;
  enrollment_id = k.enrollment_id;
  enrollment_cert = k.enrollment_cert;
  caller = k.caller;
  origin = k.origin;
}

finish-Keeps :
    {A : Type 0} (before : Db) (r : Result A) (w v : World)
    → before ≡ w.db
    → Keeps w v
    → Keeps w (finish before r v).1
unfolding finish
finish-Keeps before (err e) w v same k = restore-Keeps before w v same k
finish-Keeps before (ok a) w v same k =
    let committed =
      keeps_flow.chain w v (query (λ db. db) v).1 k ((query-IsReadOnly (λ db. db)).at v) in
    elim (Result-cases (query (λ db. db) v).0) [
      | inl (db, done) ↦ rw (done, finish) committed
      | inr (e, failed) ↦
          rw (failed, finish) (restore-Keeps before w (query (λ db. db) v).1 same committed)
    ]

pub do_transaction-IsReadOnly :
    {A : Type 0} (doit : M A) → IsReadOnly doit → IsReadOnly (do_transaction doit)
unfolding do_transaction
do_transaction-IsReadOnly doit k = record {
  at = λ w.
      let v = (query (λ db. db) w).1 in
      let begun = (query-IsReadOnly (λ db. db)).at w in
      elim (Result-cases (query (λ db. db) w).0) [
        | inl (before, began) ↦
            rw (began, do_transaction)
              (finish-Keeps before (doit v).0 w (doit v).1 (query-eq-ok (λ db. db) w before began)
                (keeps_flow.chain w v (doit v).1 begun (k.at v)))
        | inr (e, failed) ↦ rw (failed, do_transaction) begun
      ];
}
