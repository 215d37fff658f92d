-- ===== src/AffiliationApi/Requests.antt =====
-- The requests to the affiliations endpoint keep the hierarchy, except for renamings.
use fabric_ca_gm.Prelude.{
  String, ◌≡◌, ◌≢◌, refl, sym, subst, inl, inr, Bool, true, false, ◌==◌, eq_iff, Bool-cases,
  if◌then◌else◌, eqb,
}
use fabric_ca_gm.Text.{split}
use fabric_ca_gm.Text.Joined.{split-Free}
use fabric_ca_gm.Result.{Err, Result, Result-cases, ok, err, get_http_err}
use fabric_ca_gm.Exec.{◌>>=◌, pure, fail, attempt}
use fabric_ca_gm.Exec.Rules.{Moves, Moves-bind, Moves-if}
use fabric_ca_gm.World.{UserRecord, AffiliationRecord, M}
use fabric_ca_gm.World.ReadOnly.{IsReadOnly, keeps_flow, query-IsReadOnly}
use fabric_ca_gm.World.Atomic.{read_rules, if-IsReadOnly}
use fabric_ca_gm.World.Reading.{do_transaction-IsReadOnly}
use fabric_ca_gm.Affiliations.{Like, get_all_affiliations}
use fabric_ca_gm.Affiliations.Reads.{get_affiliation-IsReadOnly}
use fabric_ca_gm.Affiliations.Remove.{delete_affiliation}
use fabric_ca_gm.Affiliations.Removed.{delete_affiliation-Removed}
use fabric_ca_gm.Affiliations.Failure.{delete_affiliation-IsAtomic}
use fabric_ca_gm.Affiliations.Closed.{ParentClosed, left-ParentClosed}
use fabric_ca_gm.Affiliations.Lookup.{get_affiliation_tree, get_affiliation_tree_tx}
use fabric_ca_gm.Context.Checks.{require_affiliation-IsReadOnly, is_registrar-IsReadOnly}
use fabric_ca_gm.Register.{Ca}
use fabric_ca_gm.Identities.{stored_caller}
use fabric_ca_gm.AffiliationApi.Handlers.{
  registrar_or_not, find_registrar, refuse_found, insert_path, insert_below,
  process_affiliation_request, process_streaming_affiliation_request,
  process_affiliation_post_request, process_affiliation_delete_request, get_affiliations,
  get_requested_affiliation,
}
use fabric_ca_gm.AffiliationApi.Hierarchy.{
  Closes, closes_flow, reading-Closes, Ready-nil, insert_path-Closes, insert_below-Closes,
}

pub attempt-IsReadOnly : {A : Type 0} (m : M A) → IsReadOnly m → IsReadOnly (attempt m)
attempt-IsReadOnly m k = record { at = k.at }

pub refuse_found-IsReadOnly : (r : Result AffiliationRecord) → IsReadOnly (refuse_found r)
refuse_found-IsReadOnly (ok a) = record { at = keeps_flow.stay }
refuse_found-IsReadOnly (err e) = record { at = keeps_flow.stay }

stored_caller-IsReadOnly : IsReadOnly stored_caller
unfolding stored_caller
stored_caller-IsReadOnly = record { at = keeps_flow.stay }

registrar_or_not-IsReadOnly : (r : Result (String × Bool)) → IsReadOnly (registrar_or_not r)
registrar_or_not-IsReadOnly (ok found) = record { at = keeps_flow.stay }
registrar_or_not-IsReadOnly (err e) =
    if-IsReadOnly (eqb (get_http_err e).lcode 20) (pure false) (fail e)
      (record { at = keeps_flow.stay }) (record { at = keeps_flow.stay })

find_registrar-IsReadOnly : IsReadOnly find_registrar
unfolding find_registrar
find_registrar-IsReadOnly =
    search (read_rules, attempt-IsReadOnly, is_registrar-IsReadOnly, registrar_or_not-IsReadOnly)

insertion-Closes :
    (ca : Ca) (name : String) (force : Bool)
    → Moves Closes (
        if force
        then insert_path ca.affiliation_level "" "" (split b'.' name)
        else insert_below ca.affiliation_level name (split b'.' name))
insertion-Closes ca name true = record {
  at = λ w.
      insert_path-Closes ca.affiliation_level (split b'.' name) "" "" w (split-Free b'.' name)
        (Ready-nil w.db.affiliations);
}
insertion-Closes ca name false = record {
  at = λ w. insert_below-Closes ca.affiliation_level name (split b'.' name) w refl;
}

deletion-Closes :
    (like : Like) (name : String) (force identity_removal is_registrar : Bool)
    → Moves Closes (delete_affiliation like name force identity_removal is_registrar)
deletion-Closes like name force identity_removal is_registrar = record {
  at = λ w.
      let m = delete_affiliation like name force identity_removal is_registrar in
      elim (Result-cases (m w).0) [
        | inl (r, done) ↦
            let removed =
              delete_affiliation-Removed like name force identity_removal is_registrar w (m w).1 r
                (λ i. (done i, (m w).1)) in
            λ closed.
              subst (λ d. ParentClosed d.affiliations) (sym removed.db)
                (left-ParentClosed like name w.db.affiliations closed)
        | inr (e, failed) ↦
            subst (λ d. ParentClosed d.affiliations)
              (sym (
                (delete_affiliation-IsAtomic like name force identity_removal is_registrar).at w e
                  failed))
      ];
}

get_all_affiliations-IsReadOnly :
    (like : Like) (name : String) → IsReadOnly (get_all_affiliations like name)
unfolding get_all_affiliations
get_all_affiliations-IsReadOnly like name = search (read_rules, query-IsReadOnly)

get_affiliation_tree_tx-IsReadOnly :
    (like : Like) (name : String) → IsReadOnly (get_affiliation_tree_tx like name)
unfolding get_affiliation_tree_tx
get_affiliation_tree_tx-IsReadOnly like name = search (read_rules, query-IsReadOnly)

get_affiliation_tree-IsReadOnly :
    (like : Like) (name : String) → IsReadOnly (get_affiliation_tree like name)
unfolding get_affiliation_tree
get_affiliation_tree-IsReadOnly like name =
    search
      (
        read_rules, get_affiliation-IsReadOnly, do_transaction-IsReadOnly,
        get_affiliation_tree_tx-IsReadOnly,
      )
      depth 9

reading_fail : {A : Type 0} (e : Err) → Moves Closes (fail {A = A} e)
reading_fail e = record { at = λ w h. h }

bind-Closes :
    {A B : Type 0} (m : M A) (f : A → M B)
    → Moves Closes m
    → ((a : A) → Moves Closes (f a))
    → Moves Closes (m >>= f)
bind-Closes = Moves-bind closes_flow

ruleset closing_rules = (
  bind-Closes, reading-Closes, read_rules, attempt-IsReadOnly, get_affiliation-IsReadOnly,
  refuse_found-IsReadOnly, require_affiliation-IsReadOnly, find_registrar-IsReadOnly,
  stored_caller-IsReadOnly, insertion-Closes, deletion-Closes, get_all_affiliations-IsReadOnly,
  get_affiliation_tree-IsReadOnly,
)

module _ (like : Like) (ca : Ca) where
  post-Closes :
      (body : Result String) (force_parm : Result Bool)
      → Moves Closes (process_affiliation_post_request ca body force_parm)
  unfolding process_affiliation_post_request
  post-Closes body force_parm = search closing_rules depth 14

  delete-Closes :
      (path : Result String) (force_parm : Result Bool)
      → Moves Closes (process_affiliation_delete_request like ca path force_parm)
  unfolding process_affiliation_delete_request
  delete-Closes path force_parm = search closing_rules depth 16

  get-Closes : (requested : String) → Moves Closes (get_requested_affiliation like requested)
  unfolding get_requested_affiliation
  get-Closes requested = search closing_rules depth 12

  get_all-Closes : (caller : UserRecord) → Moves Closes (get_affiliations like caller)
  unfolding get_affiliations
  get_all-Closes caller = search closing_rules depth 12

  not_put : (method : String) → method ≢ "PUT" → (method == "PUT") ≡ false
  not_put method other = elim (Bool-cases (method == "PUT")) [
    | inl same ↦ absurd (other ((eq_iff method "PUT").0 same))
    | inr differs ↦ differs
  ]

  pub process_affiliation_request-Closes :
      (method : String) (path new_name : Result String) (force : String)
      → method ≢ "PUT"
      → Moves Closes (process_affiliation_request like ca method path new_name force)
  process_affiliation_request-Closes method path new_name force other = rw (not_put method other) (
      search (closing_rules, Moves-if closes_flow, reading_fail, get-Closes, delete-Closes) depth
        10)

  pub process_streaming_affiliation_request-Closes :
      (method : String) (name : Result String) (force : String) (caller : UserRecord)
      → Moves Closes (process_streaming_affiliation_request like ca method name force caller)
  process_streaming_affiliation_request-Closes method name force caller =
      search (closing_rules, Moves-if closes_flow, get_all-Closes, post-Closes, reading_fail) depth
        10
