-- ===== src/Housing/Growth.antt =====
-- Adding affiliations: the listed ones stay listed, and no identity changes.
use Prim.Native.String
use fabric_ca_gm.Prelude.{
  ℕ, String, ◌≡◌, refl, sym, ap, subst, ◌∙◌, inl, inr, Bool, true, false, List, [], ◌∷◌,
  if◌then◌else◌,
}
use fabric_ca_gm.Text.{split}
use fabric_ca_gm.Result.{Err, Result, new_http_err, replaced}
use fabric_ca_gm.Exec.{◌>>=◌, failing_as}
use fabric_ca_gm.Exec.Rules.{IsFlow, Moves, Moves-bind, Moves-failing_as}
use fabric_ca_gm.World.{AffiliationRecord, World, M}
use fabric_ca_gm.World.ReadOnly.{IsReadOnly}
use fabric_ca_gm.World.Atomic.{read_rules}
use fabric_ca_gm.World.Statements.{statement-cases}
use fabric_ca_gm.Affiliations.{insert_row, insert_affiliation}
use fabric_ca_gm.Affiliations.Reads.{IsListed, get_affiliation-IsReadOnly}
use fabric_ca_gm.Affiliations.Remove.{set_affiliations}
use fabric_ca_gm.Affiliations.Closed.{insert_row-IsListed}
use fabric_ca_gm.Context.Checks.{require_affiliation-IsReadOnly}
use fabric_ca_gm.Register.{Ca}
use fabric_ca_gm.AffiliationApi.Handlers.{
  insert_path, insert_below, process_affiliation_post_request, err_update_config_add_aff,
}
use fabric_ca_gm.AffiliationApi.Requests.{attempt-IsReadOnly, refuse_found-IsReadOnly}

pub record Grows (w w' : World) : Type 0 where
  pub users : w'.db.users ≡ w.db.users
  pub listed : (name : String) → IsListed name w.db.affiliations → IsListed name w'.db.affiliations

abbrev grows_flow : IsFlow Grows
grows_flow = record {
  stay = λ w. record { users = refl; listed = λ name l. l };
  chain = λ u v w f g. record {
    users = g.users ∙ f.users;
    listed = λ name l. g.listed name (f.listed name l);
  };
}

reading-Grows : {A : Type 0} (m : M A) → IsReadOnly m → Moves Grows m
reading-Grows m k = record {
  at = λ w. record {
    users = ap (λ d. d.users) (k.at w).db;
    listed = λ name l. subst (λ d. IsListed name d.affiliations) (sym (k.at w).db) l;
  };
}

bind-Grows :
    {A B : Type 0} (m : M A) (f : A → M B)
    → Moves Grows m
    → ((a : A) → Moves Grows (f a))
    → Moves Grows (m >>= f)
bind-Grows = Moves-bind grows_flow

insert_affiliation-Grows :
    (name prekey : String) (level : ℕ) → Moves Grows (insert_affiliation name prekey level)
unfolding insert_affiliation
insert_affiliation-Grows name prekey level = record {
  at = λ w.
      let a : AffiliationRecord = record { name = name; prekey = prekey; level = level } in
      elim (statement-cases (λ db. (tt, set_affiliations db (insert_row a db.affiliations))) w) [
        | inl (_, same) ↦ record {
          users = ap (λ d. d.users) same;
          listed = λ n l. subst (λ d. IsListed n d.affiliations) (sym same) l;
        }
        | inr (_, changed) ↦ record {
          users = ap (λ d. d.users) changed;
          listed = λ n l.
              subst (λ d. IsListed n d.affiliations) (sym changed)
                (insert_row-IsListed a w.db.affiliations n (inr l));
        }
      ];
}

failing_as-Grows :
    {A : Type 0} (f : Err → Err) (m : M A) → Moves Grows m → Moves Grows (failing_as f m)
failing_as-Grows = Moves-failing_as grows_flow

ruleset growing_rules = (
  bind-Grows, reading-Grows, failing_as-Grows, insert_affiliation-Grows, read_rules,
  get_affiliation-IsReadOnly,
)

insert_path-Grows :
    (level : ℕ) (before above : String) (parts : List String)
    → Moves Grows (insert_path level before above parts)
unfolding insert_path
insert_path-Grows level before above [] = record { at = grows_flow.stay }
insert_path-Grows level before above (part ∷ parts) =
    let path = String.◌++◌ before part in
    bind-Grows
      (failing_as (replaced (new_http_err 500 err_update_config_add_aff))
        (insert_affiliation path above level))
      (λ _. insert_path level (String.◌++◌ path ".") path parts)
      (failing_as-Grows _ (insert_affiliation path above level)
        (insert_affiliation-Grows path above level))
      (λ _. insert_path-Grows level (String.◌++◌ path ".") path parts)

insert_below-Grows :
    (level : ℕ) (name : String) (parts : List String) → Moves Grows (insert_below level name parts)
unfolding insert_below
insert_below-Grows level name [] = record { at = grows_flow.stay }
insert_below-Grows level name (p ∷ []) = search growing_rules
insert_below-Grows level name (p ∷ q ∷ ps) = search growing_rules depth 9

adding-Grows :
    (ca : Ca) (name : String) (force : Bool)
    → Moves Grows (
        if force
        then insert_path ca.affiliation_level "" "" (split b'.' name)
        else insert_below ca.affiliation_level name (split b'.' name))
adding-Grows ca name true = insert_path-Grows ca.affiliation_level "" "" (split b'.' name)
adding-Grows ca name false = insert_below-Grows ca.affiliation_level name (split b'.' name)

pub post-Grows :
    (ca : Ca) (body : Result String) (force_parm : Result Bool)
    → Moves Grows (process_affiliation_post_request ca body force_parm)
unfolding process_affiliation_post_request
post-Grows ca body force_parm =
    search
      (
        growing_rules, attempt-IsReadOnly, refuse_found-IsReadOnly, require_affiliation-IsReadOnly,
        adding-Grows,
      )
      depth 14
