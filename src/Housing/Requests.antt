-- ===== src/Housing/Requests.antt =====
-- Requests keep the affiliation of every identity listed.
use fabric_ca_gm.Prelude.{
  String, ◌≡◌, sym, ap, subst, ◌∙◌, inl, inr, Bool, true, false, not, some, ◌==◌, select, In,
}
use fabric_ca_gm.Result.{Err, Result, Result-cases, new_http_err}
use fabric_ca_gm.Exec.{◌>>=◌, ◌>>◌, lift, require}
use fabric_ca_gm.World.{UserRecord, World, M}
use fabric_ca_gm.World.ReadOnly.{lift-IsReadOnly}
use fabric_ca_gm.Registry.{Bcrypt}
use fabric_ca_gm.Context.{get_managed_user}
use fabric_ca_gm.Context.Checks.{get_managed_user-IsReadOnly}
use fabric_ca_gm.Affiliations.{Like}
use fabric_ca_gm.Affiliations.Remove.{in_names, delete_affiliation}
use fabric_ca_gm.Affiliations.Removed.{delete_affiliation-Removed}
use fabric_ca_gm.Affiliations.Failure.{delete_affiliation-IsAtomic}
use fabric_ca_gm.Register.{Ca}
use fabric_ca_gm.Identities.{
  ModifyIdentityRequest, IdentityResponse, process_delete_request, process_put_request,
  check_modification, get_modify_req, store_and_answer, err_modifying_identity,
}
use fabric_ca_gm.Identities.Removal.{
  process_delete_request-Removed, failed_process_delete_request, get_managed_user-Managed,
}
use fabric_ca_gm.Identities.Permission.{check_modification-MayModify}
use fabric_ca_gm.Housing.{HasHome, select-Housed, left-Housed}
use fabric_ca_gm.Housing.Changes.{
  Houses, unchanged-Houses, bind-Houses, check_modification-IsReadOnly, modified_home,
  store_and_answer-Houses,
}

guard-Houses :
    {A : Type 0} (b : Bool) (e : Err) (n : M A) (w : World)
    → Houses n w
    → Houses (require b e >> n) w
guard-Houses true e n w h = h
guard-Houses false e n w h = λ housed. housed

pub deleted-Houses :
    (c : UserRecord) (ca : Ca) (id : String) (force_parm : Result Bool) (w : World)
    → w.caller ≡ some c
    → Houses (process_delete_request ca id force_parm) w
deleted-Houses c ca id force_parm w known housed =
    let m = process_delete_request ca id force_parm in
    elim (Result-cases (m w).0) [
      | inl (resp, done) ↦
          let r =
            process_delete_request-Removed c ca id force_parm w (m w).1 resp known
              (λ i. (done i, (m w).1)) in
          select-Housed w.db (m w).1.db housed _ r.deleted.users r.deleted.affiliations
      | inr (e, failed) ↦
          unchanged-Houses m w (failed_process_delete_request ca id force_parm w e failed) housed
    ]

pub without_affiliation-Houses :
    (like : Like) (name : String) (force identity_removal is_registrar : Bool) (w : World)
    → Houses (delete_affiliation like name force identity_removal is_registrar) w
without_affiliation-Houses like name force identity_removal is_registrar w housed =
    let m = delete_affiliation like name force identity_removal is_registrar in
    elim (Result-cases (m w).0) [
      | inl (r, done) ↦
          let removed =
            delete_affiliation-Removed like name force identity_removal is_registrar w (m w).1 r
              (λ i. (done i, (m w).1)) in
          left-Housed like name w.db (m w).1.db housed
            (ap (λ d. d.users) removed.db
              ∙ ap (λ ids. select (λ u. not (in_names ids u.name)) w.db.users) removed.identities)
            (ap (λ d. d.affiliations) removed.db)
      | inr (e, failed) ↦
          unchanged-Houses m w
            ((delete_affiliation-IsAtomic like name force identity_removal is_registrar).at w e
              failed)
            housed
    ]

module _ (bcrypt : Bcrypt) (c : UserRecord) (id : String) where
  changing-Houses :
      (user : UserRecord) (req : ModifyIdentityRequest) (w : World)
      → w.caller ≡ some c
      → In user w.db.users
      → Houses
          (check_modification user req
            >> store_and_answer bcrypt id (get_modify_req user req) req.secret)
          w
  changing-Houses user req w known row housed =
      let checking = check_modification user req in
      bind-Houses checking (λ _. store_and_answer bcrypt id (get_modify_req user req) req.secret) w
        (check_modification-IsReadOnly user req)
        (λ t e.
          let (may, kept) = check_modification-MayModify c user req w (checking w).1 t known e in
          store_and_answer-Houses bcrypt id (get_modify_req user req) req.secret (checking w).1 (
            subst (λ d. HasHome (get_modify_req user req).0.affiliation d.affiliations)
              (sym kept.db)
              (modified_home user req w.db.affiliations (housed.home user row) may.listed)))
        housed

  reading : Result ModifyIdentityRequest → UserRecord → M IdentityResponse
  reading body user = lift body >>= λ req.
      check_modification user req >> store_and_answer bcrypt id (get_modify_req user req) req.secret

  pub put-Houses :
      (body : Result ModifyIdentityRequest) (w : World)
      → w.caller ≡ some c
      → Houses (process_put_request bcrypt id body) w
  unfolding process_put_request reading
  put-Houses body w known =
      let reads = (get_managed_user-IsReadOnly id).at w in
      guard-Houses (not (id == "")) (new_http_err 400 err_modifying_identity)
        (get_managed_user id >>= reading body) w
        (bind-Houses (get_managed_user id) (reading body) w (get_managed_user-IsReadOnly id)
          (λ user e.
            let managed = get_managed_user-Managed c id w (get_managed_user id w).1 user known e in
            bind-Houses (lift body)
              (λ req.
                check_modification user req
                >> store_and_answer bcrypt id (get_modify_req user req) req.secret)
              (get_managed_user id w).1 (lift-IsReadOnly body)
              (λ req _.
                changing-Houses user req (get_managed_user id w).1 (reads.caller c known)
                  (subst (λ d. In user d.users) (sym reads.db) managed.row))))
