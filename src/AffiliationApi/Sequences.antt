-- ===== src/AffiliationApi/Sequences.antt =====
-- Requests to the two affiliations endpoints one after another, behind the authentication.
use fabric_ca_gm.Prelude.{String, ◌≢◌, List, [], ◌∷◌, All}
use fabric_ca_gm.Result.{Result}
use fabric_ca_gm.World.{UserRecord, Db, World}
use fabric_ca_gm.Affiliations.{Like}
use fabric_ca_gm.Affiliations.Closed.{ParentClosed}
use fabric_ca_gm.Register.{Ca}
use fabric_ca_gm.AffiliationApi.Handlers.{
  process_affiliation_request, process_streaming_affiliation_request,
}
use fabric_ca_gm.AffiliationApi.Requests.{
  process_affiliation_request-Closes, process_streaming_affiliation_request-Closes,
}

-- A request with the context that it comes in: who makes it, and which statements the driver fails
pub data Request : Type 0 where
  to_one : World → String → Result String → Result String → String → Request
  to_all : World → String → Result String → String → UserRecord → Request

abbrev pub at_tables : World → Db → World
at_tables w db = record w { db = db }

module _ (like : Like) (ca : Ca) where
  -- The tables after a request, answered or refused
  unfoldable pub serve : Request → Db → Db
  serve (to_one w method path new_name force) db =
      (process_affiliation_request like ca method path new_name force (at_tables w db)).1.db
  serve (to_all w method name force caller) db =
      (process_streaming_affiliation_request like ca method name force caller (at_tables w db)).1.db

  unfoldable pub serve_all : List Request → Db → Db
  serve_all [] db = db
  serve_all (r ∷ rs) db = serve_all rs (serve r db)

-- The request is no renaming.
abbrev pub NoRenaming : Request → Type 0
NoRenaming (to_one w method path new_name force) = method ≢ "PUT"
NoRenaming (to_all w method name force caller) = Unit {0}

serve-ParentClosed :
    (like : Like) (ca : Ca) (r : Request) (db : Db)
    → NoRenaming r
    → ParentClosed db.affiliations
    → ParentClosed (serve like ca r db).affiliations
unfolding serve
serve-ParentClosed like ca (to_one w method path new_name force) db other closed =
    (process_affiliation_request-Closes like ca method path new_name force other).at
      (at_tables w db) closed
serve-ParentClosed like ca (to_all w method name force caller) db other closed =
    (process_streaming_affiliation_request-Closes like ca method name force caller).at
      (at_tables w db) closed

-- If every affiliation below another has the other listed, then this is so after any sequence of requests to
-- the endpoints other than renamings, whoever makes them and whatever statements fail.
pub serve_all-ParentClosed :
    (like : Like) (ca : Ca) (rs : List Request) (db : Db)
    → All NoRenaming rs
    → ParentClosed db.affiliations
    → ParentClosed (serve_all like ca rs db).affiliations
unfolding serve_all
serve_all-ParentClosed like ca [] db none' closed = closed
serve_all-ParentClosed like ca (r ∷ rs) db (other, others) closed =
    serve_all-ParentClosed like ca rs (serve like ca r db) others
      (serve-ParentClosed like ca r db other closed)
