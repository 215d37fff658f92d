-- ===== src/AffiliationApi/Hierarchy.antt =====
-- The hierarchy of affiliations under the requests that add and remove them.
use Prim.Native.String
use text.Mathlib.TextLemmas.{nil-append}
use fabric_ca_gm.Prelude.{
  ℕ, String, ◌≡◌, refl, sym, ap, subst, ◌∙◌, ◌⊎◌, inl, inr, List, [], ◌∷◌, ◌++◌, All,
}
use fabric_ca_gm.Text.{split, join}
use fabric_ca_gm.Text.Split.{join-split}
use fabric_ca_gm.Text.Joined.{Free, split-part, split-snoc, split-eq}
use fabric_ca_gm.Result.{Err, Result-cases, ok, err, new_http_err, replaced}
use fabric_ca_gm.Exec.{failing_as}
use fabric_ca_gm.Exec.Rules.{IsFlow, Moves}
use fabric_ca_gm.World.{AffiliationRecord, World, M}
use fabric_ca_gm.World.Statements.{statement-cases}
use fabric_ca_gm.World.ReadOnly.{IsReadOnly}
use fabric_ca_gm.Affiliations.{get_affiliation, insert_row, insert_affiliation}
use fabric_ca_gm.Affiliations.Reads.{IsListed, get_affiliation-IsListed, get_affiliation-IsReadOnly}
use fabric_ca_gm.Affiliations.Remove.{set_affiliations}
use fabric_ca_gm.Affiliations.Closed.{
  Above, ParentClosed, alone, snoc-eq, insert_row-IsListed, insert_row-ParentClosed,
}
use fabric_ca_gm.AffiliationApi.Handlers.{
  insert_path, insert_below, but_last, err_update_config_add_aff,
}

-- A step keeps the hierarchy, whatever its result.
abbrev pub Closes : World → World → Type 0
Closes w w' = ParentClosed w.db.affiliations → ParentClosed w'.db.affiliations

abbrev pub closes_flow : IsFlow Closes
closes_flow = record { stay = λ w h. h; chain = λ u v w f g h. g (f h) }

pub reading-Closes : {A : Type 0} (m : M A) → IsReadOnly m → Moves Closes m
reading-Closes m k = record { at = λ w. subst (λ d. ParentClosed d.affiliations) (sym (k.at w).db) }

abbrev added : String → String → ℕ → AffiliationRecord
added name above level = record { name = name; prekey = above; level = level }

abbrev inserting : String → String → ℕ → M (Unit {0})
inserting name above level =
    failing_as (replaced (new_http_err 500 err_update_config_add_aff))
      (insert_affiliation name above level)

-- An insertion fails and changes nothing, or adds its row.
inserting-cases :
    (name above : String) (level : ℕ) (w : World)
    → ((e : Err) × ((inserting name above level w).0 ≡ err e)
        × ((inserting name above level w).1.db ≡ w.db))
      ⊎ (((inserting name above level w).0 ≡ ok tt)
          × ((inserting name above level w).1.db
              ≡ set_affiliations w.db (insert_row (added name above level) w.db.affiliations)))
unfolding insert_affiliation
inserting-cases name above level w =
    elim (statement-cases
      (λ db. (tt, set_affiliations db (insert_row (added name above level) db.affiliations))) w) [
        | inl (failed, same) ↦
            inl (new_http_err 500 err_update_config_add_aff, rw failed refl, same)
        | inr (done, changed) ↦ inr (rw done refl, changed)
      ]

-- What the next part of a path will be put below is listed.
abbrev pub Ready : String → List AffiliationRecord → Type 0
Ready before rows =
    (part up : String) → Free b'.' part → Above up (String.◌++◌ before part) → IsListed up rows

Ready-append :
    (path : String) (rows : List AffiliationRecord)
    → IsListed path rows
    → Ready (String.◌++◌ path ".") rows
Ready-append path rows listed part up free (last, h) =
    subst (λ n. IsListed n rows)
      (split-eq "." path up (
        snoc-eq (split b'.' path) (split b'.' up) part last
          (sym (split-snoc "." path part free) ∙ h)))
      listed

pub Ready-nil : (rows : List AffiliationRecord) → Ready "" rows
Ready-nil rows part up free above =
    absurd (alone part up (split-part "." part free) (subst (Above up) (nil-append part) above))

-- All the affiliations along a path are added, from the top down.
pub insert_path-Closes :
    (level : ℕ) (parts : List String) (before above : String) (w : World)
    → All (Free b'.') parts
    → Ready before w.db.affiliations
    → Closes w (insert_path level before above parts w).1
unfolding insert_path
insert_path-Closes level [] before above w frees ready closed = closed
insert_path-Closes level (part ∷ parts) before above w frees ready closed =
    let path = String.◌++◌ before part in
    let a = added path above level in
    elim (inserting-cases path above level w) [
      | inl (e, failed, same) ↦
          rw failed (subst (λ d. ParentClosed d.affiliations) (sym same) closed)
      | inr (done, changed) ↦
          let rows' = ap (λ d. d.affiliations) changed in
          rw done (
            insert_path-Closes level parts (String.◌++◌ path ".") path
              (inserting path above level w).1 frees.1
              (Ready-append path _ (
                subst (IsListed path) (sym rows')
                  (insert_row-IsListed a w.db.affiliations path (inl refl))))
              (subst ParentClosed (sym rows')
                (insert_row-ParentClosed a w.db.affiliations closed (λ up. ready part up frees.0))))
    ]

but_last-snoc : (xs : List String) (x : String) → but_last (xs ++ x ∷ []) ≡ xs
but_last-snoc [] x = refl
but_last-snoc (a ∷ []) x = refl
but_last-snoc (a ∷ b ∷ xs) x = ap (λ r. a ∷ r) (but_last-snoc (b ∷ xs) x)

-- The affiliation above a name is the one that the code looks up.
Above-but_last : (name up : String) → Above up name → join "." (but_last (split b'.' name)) ≡ up
Above-but_last name up (last, h) =
    ap (λ parts. join "." (but_last parts)) h
    ∙ ap (join ".") (but_last-snoc (split b'.' up) last)
    ∙ join-split "." up

pub inserting-Closes :
    (name above : String) (level : ℕ) (w : World)
    → ((up : String) → Above up name → IsListed up w.db.affiliations)
    → Closes w (inserting name above level w).1
inserting-Closes name above level w new closed = elim (inserting-cases name above level w) [
  | inl (e, failed, same) ↦ subst (λ d. ParentClosed d.affiliations) (sym same) closed
  | inr (done, changed) ↦
      subst (λ d. ParentClosed d.affiliations) (sym changed)
        (insert_row-ParentClosed (added name above level) w.db.affiliations closed new)
]

-- An affiliation is added below one that was found.
pub insert_below-Closes :
    (level : ℕ) (name : String) (parts : List String) (w : World)
    → split b'.' name ≡ parts
    → Closes w (insert_below level name parts w).1
unfolding insert_below join
insert_below-Closes level name [] w e = λ closed. closed
insert_below-Closes level name (p ∷ []) w e =
    let single : split b'.' name ≡ name ∷ [] =
      e ∙ ap (λ s. s ∷ []) (sym (ap (join ".") e) ∙ join-split "." name) in
    inserting-Closes name "" level w (λ up above. absurd (alone name up single above))
insert_below-Closes level name (p ∷ q ∷ ps) w e =
    let above = join "." (but_last (p ∷ q ∷ ps)) in
    let look = get_affiliation above in
    elim (Result-cases (look w).0) [
      | inl (a, found) ↦
          let same = ((get_affiliation-IsReadOnly above).at w).db in
          let listed = get_affiliation-IsListed above w (look w).1 a (λ i. (found i, (look w).1)) in
          rw found (λ closed.
            inserting-Closes name above level (look w).1
              (λ up is_above.
                subst (λ n. IsListed n (look w).1.db.affiliations)
                  (ap (λ parts. join "." (but_last parts)) (sym e)
                    ∙ Above-but_last name up is_above)
                  (subst (λ d. IsListed above d.affiliations) (sym same) listed))
              (subst (λ d. ParentClosed d.affiliations) (sym same) closed))
      | inr (e', missing) ↦ rw missing (
          subst (λ d. ParentClosed d.affiliations)
            (sym ((get_affiliation-IsReadOnly above).at w).db))
    ]
