-- ===== src/Context/Caller.antt =====
-- The caller of a request: read once, then kept.
use fabric_ca_gm.Prelude.{
  arith, ◌∙◌, String, ◌≡◌, refl, not, Option, none, some, ◌==◌, inl, inr, Bool-cases,
}
use fabric_ca_gm.Result.{ok, new_auth_err, replaced, Result-cases}
use fabric_ca_gm.Exec.{require, failing_as}
use fabric_ca_gm.Exec.Rules.{bind-eq-ok}
use fabric_ca_gm.World.{UserRecord, World}
use fabric_ca_gm.World.ReadOnly.{IsCaller, IsReadOnly, Keeps, keeps_flow}
use fabric_ca_gm.Registry.{get_user}
use fabric_ca_gm.Registry.Reads.{get_user-eq-ok, get_user-IsReadOnly}
use fabric_ca_gm.Context.{
  get_caller, caller_or_user, store_caller, err_getting_user, err_caller_is_not_authenticated,
}

found_origin :
    (id : String) (u c : UserRecord) (w : World)
    → id ≡ w.enrollment_id
    → (get_user id w).0 ≡ ok u
    → some u ≡ some c
    → IsCaller c w
found_origin id u c w same found known =
    let (row, name) = get_user-eq-ok id w (get_user id w).1 u (λ i. (found i, (get_user id w).1)) in
    let it : u ≡ c = ground (arith, known) in inr (rw it at row, rw it at (name ∙ same))

-- The caller is stored only where none is known.
caller_or_user-Keeps :
    (o : Option UserRecord) (id : String) (w : World)
    → w.caller ≡ o
    → id ≡ w.enrollment_id
    → Keeps w (caller_or_user o id w).1
unfolding caller_or_user store_caller
caller_or_user-Keeps (some c) id w e idw = keeps_flow.stay w
caller_or_user-Keeps none id w e idw =
    let k = (get_user-IsReadOnly id).at w in
    elim (Bool-cases (id == "")) [
      | inl empty ↦ rw empty (keeps_flow.stay w)
      | inr named ↦ elim (Result-cases (get_user id w).0) [
        | inl (u, found) ↦
            rw (named, found)
              (record {
                db = k.db;
                enrollment_id = k.enrollment_id;
                enrollment_cert = k.enrollment_cert;
                caller = λ c known. cc;
                origin = λ c known. found_origin id u c w idw found known;
              })
        | inr (e', missing) ↦ rw (named, missing) k
      ]
    ]

caller_or_user-known :
    (o : Option UserRecord) (id : String) (w w' : World) (c : UserRecord)
    → w.caller ≡ o
    → caller_or_user o id w ≡ (ok c, w')
    → w'.caller ≡ some c
unfolding caller_or_user store_caller
caller_or_user-known (some d) id w w' c e h = cc
caller_or_user-known none id w w' c e h =
    let (_, t, p, k) =
      bind-eq-ok (require (not (id == "")) (new_auth_err err_caller_is_not_authenticated)) _ w w'
        h in
    let (u, v, q, l) =
      bind-eq-ok (failing_as (replaced (new_auth_err err_getting_user)) (get_user id)) store_caller
        t w' k in
    cc

pub get_caller-IsReadOnly : IsReadOnly get_caller
unfolding get_caller
get_caller-IsReadOnly = record {
  at = λ w. caller_or_user-Keeps w.caller w.enrollment_id w refl refl;
}

pub get_caller-known :
    (w w' : World) (c : UserRecord) → get_caller w ≡ (ok c, w') → w'.caller ≡ some c
unfolding get_caller
get_caller-known w w' c h = caller_or_user-known w.caller w.enrollment_id w w' c refl h
