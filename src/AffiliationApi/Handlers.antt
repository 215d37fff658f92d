-- ===== src/AffiliationApi/Handlers.antt =====
-- lib/serveraffiliations.go: the handlers. The name in the path, the query parameter and the decoded body are
-- arguments, with the error that reading them may give.
use Prim.Native.String
use fabric_ca_gm.Prelude.{ℕ, String, Bool, false, not, List, [], ◌∷◌, map, ◌==◌, eqb, if◌then◌else◌}
use fabric_ca_gm.Text.{split, join}
use fabric_ca_gm.Result.{
  Err, Result, ok, err, plain, panicked, new_http_err, new_auth_err, get_http_err, replaced,
}
use fabric_ca_gm.Result
use fabric_ca_gm.Attr
use fabric_ca_gm.Attr.{parse_bool}
use fabric_ca_gm.Exec.{pure, fail, lift, failing_as, attempt, ◌>>=◌, ◌>>◌, require}
use fabric_ca_gm.World.{UserRecord, AffiliationRecord, M}
use fabric_ca_gm.Registry.{get_user_affiliation}
use fabric_ca_gm.Affiliations.{Like, get_all_affiliations, get_affiliation, insert_affiliation}
use fabric_ca_gm.Affiliations.Remove.{delete_affiliation, err_update_config_remove_aff}
use fabric_ca_gm.Affiliations.Rename.{modify_affiliation}
use fabric_ca_gm.Affiliations.Lookup.{get_affiliation_tree}
use fabric_ca_gm.Context.{
  get_caller, require_affiliation, require_role, is_registrar, err_getting_user,
  err_getting_affiliation,
}
use fabric_ca_gm.Register.{Ca}
use fabric_ca_gm.Identities.{stored_caller}
use fabric_ca_gm.Auth.{TokenChecks, token_authentication}
use fabric_ca_gm.AffiliationTree.{Info, node, nil, info, get_root, insert_all}
use fabric_ca_gm.AffiliationApi.{get_response}

abbrev pub err_update_config_add_aff : ℕ
err_update_config_add_aff = 60

-- GetBoolQueryParm of lib/serverrequestcontext.go
unfoldable pub get_bool_query_parm : String → Result Bool
get_bool_query_parm param =
    if param == ""
    then ok false
    else Result.from_option (new_http_err 400 err_update_config_remove_aff) (parse_bool param)

-- The reading of `force` in processAffiliationPutRequest
unfoldable pub get_force_parm : String → Result Bool
get_force_parm param =
    if param == ""
    then ok false
    else Result.from_option (new_http_err 500 err_update_config_add_aff) (parse_bool param)

-- What the handlers make of isRegistrar's error: they go on for the local code 20 only.
abbrev pub registrar_or_not : Result (String × Bool) → M Bool
registrar_or_not (ok found) = pure found.1
registrar_or_not (err e) = if eqb (get_http_err e).lcode 20 then pure false else fail e

unfoldable pub find_registrar : M Bool
find_registrar = attempt is_registrar >>= registrar_or_not

-- The loop of a forced addition: the path so far, with its dot, and the affiliation above
unfoldable pub insert_path : ℕ → String → String → List String → M (Unit {0})
insert_path level before above [] = pure tt
insert_path level before above (part ∷ parts) =
    let path = String.◌++◌ before part in
    let rest = insert_path level (String.◌++◌ path ".") path parts in
    failing_as (replaced (new_http_err 500 err_update_config_add_aff))
      (insert_affiliation path above level)
    >> rest

-- slice[:len(slice)-1]
abbrev pub but_last : List String → List String
but_last [] = []
but_last (p ∷ []) = []
but_last (p ∷ q ∷ ps) = p ∷ but_last (q ∷ ps)

-- The error where the affiliation above is not found
abbrev pub above_err : Err → Err
above_err panicked = panicked
above_err e =
    if eqb (get_http_err e).rcode 400 then new_http_err 400 err_update_config_add_aff else e

-- An addition without force, for the parts of the name
unfoldable pub insert_below : ℕ → String → List String → M (Unit {0})
insert_below level name [] = pure tt
insert_below level name (p ∷ []) =
    failing_as (replaced (new_http_err 500 err_update_config_add_aff))
      (insert_affiliation name "" level)
insert_below level name (p ∷ q ∷ ps) =
    let above = join "." (but_last (p ∷ q ∷ ps)) in
    failing_as above_err (get_affiliation above)
    >> failing_as (replaced (new_http_err 500 err_update_config_add_aff))
        (insert_affiliation name above level)

-- An addition is refused where the name is found; any error of the lookup counts as not found.
abbrev pub refuse_found : Result AffiliationRecord → M (Unit {0})
refuse_found (ok a) = fail (new_http_err 400 err_update_config_add_aff)
refuse_found (err e) = pure tt

-- processAffiliationPostRequest
unfoldable pub process_affiliation_post_request : Ca → Result String → Result Bool → M Info
process_affiliation_post_request ca body force_parm = do
  name ← lift body
  attempt (get_affiliation name) >>= refuse_found
  require_affiliation name
  force ← lift force_parm
  if force
      then insert_path ca.affiliation_level "" "" (split b'.' name)
      else insert_below ca.affiliation_level name (split b'.' name)
  pure (info name [] nil)

module _ (like : Like) where
  -- getAffiliations. The code reads the fields of a nil pointer where there is no affiliation.
  unfoldable pub get_affiliations : UserRecord → M Info
  get_affiliations caller = do
    rows ←
        failing_as (replaced (new_http_err 500 err_getting_user))
          (get_all_affiliations like (get_user_affiliation caller))
    lift (Result.from_option panicked (get_root (insert_all (map (λ a. a.name) rows) (node nil))))

  -- getAffiliation of the endpoint
  unfoldable pub get_requested_affiliation : String → M Info
  get_requested_affiliation requested = do
    require_affiliation requested
    result ←
        failing_as (replaced (new_http_err 500 err_getting_affiliation))
          (get_affiliation_tree like requested)
    lift (get_response result)

  -- processAffiliationDeleteRequest
  unfoldable pub process_affiliation_delete_request : Ca → Result String → Result Bool → M Info
  process_affiliation_delete_request ca path force_parm = do
    require ca.allow_remove_affiliations (new_auth_err err_update_config_remove_aff)
    name ← lift path
    caller ← stored_caller
    require (not (get_user_affiliation caller == name)) (new_auth_err err_update_config_remove_aff)
    require_affiliation name
    force ← lift force_parm
    registrar ← find_registrar
    result ← delete_affiliation like name force ca.allow_remove_identities registrar
    lift (get_response result)

  -- processAffiliationPutRequest
  unfoldable pub process_affiliation_put_request :
      Result String → Result String → Result Bool → M Info
  process_affiliation_put_request path body force_parm = do
    name ← lift path
    new ← lift body
    require_affiliation name
    require_affiliation new
    force ← lift force_parm
    registrar ← find_registrar
    result ← modify_affiliation name new force registrar like
    lift (get_response result)

-- The dispatch by method behind the authentication: affiliationsHandler and affiliationsStreamingHandler. The
-- CA is resolved; TokenAuthentication reads the whole body as text.
module _ (like : Like) (ca : Ca) where
  -- processAffiliationRequest
  abbrev pub process_affiliation_request : String → Result String → Result String → String → M Info
  process_affiliation_request method path new_name force =
      if method == "GET"
      then (lift path >>= get_requested_affiliation like)
      else if method == "DELETE"
      then process_affiliation_delete_request like ca path (get_bool_query_parm force)
      else if method == "PUT"
      then process_affiliation_put_request like path new_name (get_force_parm force)
      else fail plain

  -- processStreamingAffiliationRequest
  abbrev pub process_streaming_affiliation_request :
      String → Result String → String → UserRecord → M Info
  process_streaming_affiliation_request method name force caller =
      if method == "GET"
      then get_affiliations like caller
      else if method == "POST"
      then process_affiliation_post_request ca name (get_bool_query_parm force)
      else fail plain

module _ (like : Like) (checks : TokenChecks) (ca : Ca) where
  authenticated : String → Result String → M UserRecord
  authenticated auth_hdr body = do
    token_authentication checks auth_hdr body
    caller ← get_caller
    require_role Attr.affiliation_mgr
    pure caller

  unfoldable pub affiliations_handler :
      String → Result String → String → Result String → Result String → String → M Info
  unfolding authenticated
  affiliations_handler auth_hdr body method path new_name force =
      authenticated auth_hdr body >> process_affiliation_request like ca method path new_name force

  unfoldable pub affiliations_streaming_handler :
      String → Result String → String → Result String → String → M Info
  unfolding authenticated
  affiliations_streaming_handler auth_hdr body method name force =
      authenticated auth_hdr body
      >>= process_streaming_affiliation_request like ca method name force
