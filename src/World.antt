-- ===== src/World.antt =====
-- The state that a request works on: the database of lib/dbaccessor.go and lib/certdbaccessor.go, and
-- the fields of serverRequestContext that its methods write. SQL statements are functions on tables.
-- The driver may fail at any statement: `faults` says at which of the coming statements it does.
-- The driver is sqlite3, the default: `affiliations.name` is unique, the serial number and AKI of a
-- certificate are its key, and the table of users has no key.
pub mod ReadOnly
pub mod Atomic
pub mod Statements
pub mod Reading
use fabric_ca_gm.Prelude.{
  ℕ, String, Bool, true, false, Option, none, some, List, [], ◌∷◌, ◌++◌, if◌then◌else◌, is_none,
}
use fabric_ca_gm.Prelude.Int.{ℤ}
use fabric_ca_gm.Result.{Err, Result, ok, err, plain, no_rows, panicked, new_http_err}
use fabric_ca_gm.Exec.{Exec, pure, fail, failing_as, ◌>>=◌}
use fabric_ca_gm.Attr.{Attribute}

-- UserRecord, with the attributes that its JSON text stands for
pub record UserRecord : Type 0 where
  pub name : String
  pub pass : String
  pub type : String
  pub affiliation : String
  pub attributes : List Attribute
  pub state : ℤ
  pub max_enrollments : ℤ
  pub level : ℕ

-- AffiliationRecord, without the row number
pub record AffiliationRecord : Type 0 where
  pub name : String
  pub prekey : String
  pub level : ℕ

-- CertRecord, without the certificate's text and label; times are seconds
pub record CertRecord : Type 0 where
  pub id : String
  pub serial : String
  pub aki : String
  pub status : String
  pub reason : ℕ
  pub expiry : ℕ
  pub revoked_at : ℕ

pub record Db : Type 0 where
  pub users : List UserRecord
  pub affiliations : List AffiliationRecord
  pub certificates : List CertRecord

-- The serial number and the AKI of the certificate that authenticated the request
pub record CertId : Type 0 where
  pub serial : String
  pub aki : String

pub record World : Type 0 where
  pub db : Db
  pub faults : List Bool
  pub now : ℕ
  pub enrollment_id : String
  pub enrollment_cert : CertId
  pub caller : Option UserRecord
  pub caller_roles : List (String × Bool)

abbrev pub M : Type 0 → Type 0
M A = Exec World A

abbrev drop_fault : World → List Bool → World
drop_fault w faults = record w { faults = faults }

run_statement : {A : Type 0} → List Bool → (Db → A × Db) → M A
run_statement [] f w = (ok (f w.db).0, record w { db = (f w.db).1 })
run_statement (true ∷ faults) f w = (err plain, record w { faults = faults })
run_statement (false ∷ faults) f w = (ok (f w.db).0, record w { db = (f w.db).1; faults = faults })

-- One SQL statement: the driver's error, or an answer and the new tables.
unfoldable pub statement : {A : Type 0} → (Db → A × Db) → M A
unfolding run_statement
statement f w = run_statement w.faults f w

-- db.Select
unfoldable pub query : {A : Type 0} → (Db → A) → M A
query f = statement (λ db. (f db, db))

abbrev first_row {ℓ} : {A : Type ℓ} → List A → Option A
first_row [] = none
first_row (a ∷ rows) = some a

found_row : {A : Type 0} → Option A → M A
found_row none w = (err no_rows, w)
found_row (some a) w = (ok a, w)

-- db.Get: the first row, or sql.ErrNoRows
unfoldable pub get_row : {A : Type 0} → (Db → List A) → M A
unfolding found_row
get_row f = query f >>= λ rows. found_row (first_row rows)

-- getError. ErrDBGet is 63, ErrConnectingDB 51.
abbrev pub get_error : Err → Err
get_error no_rows = new_http_err 404 63
get_error panicked = panicked
get_error _ = new_http_err 504 51

-- A transaction that fails leaves the tables as they were.
abbrev pub restore : Db → World → World
restore db w = record w { db = db }

finish : {A : Type 0} → Db → Result A → M A
finish before (err e) w = (err e, restore before w)
finish before (ok a) w =
    let committed = query (λ db. db) w in
    elim committed.0 [
      | ok _ ↦ (ok a, committed.1)
      | err _ ↦ (err plain, restore before committed.1)
    ]

-- doTransaction: MustBegin panics, Commit may fail. After a panic inside, Go leaves the transaction open; the tables
-- are then those of the other connections, which see nothing of it.
unfoldable pub do_transaction : {A : Type 0} → M A → M A
unfolding finish
do_transaction doit w =
    let begun = query (λ db. db) w in
    elim begun.0 [
      | ok before ↦ finish before (doit begun.1).0 (doit begun.1).1
      | err _ ↦ (err panicked, begun.1)
    ]
