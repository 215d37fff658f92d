-- ===== src/Text/Split.antt =====
-- Splitting and joining: what `GetUserAffiliation` relies on when it joins a split affiliation again.
use Prim.Native.Char.{Char, code}
use Prim.Native.String
use text.Mathlib.TextEquality.{Char-path}
use text.Mathlib.TextLemmas.{nil-append, cons-append}
use fabric_ca_gm.Prelude.{
  ℕ, String, ◌≡◌, refl, ap, inl, inr, true, false, List, [], ◌∷◌, arith, eqb, Bool-cases,
}
use fabric_ca_gm.Text.{grow, split, join}

pub split-cons : (sep : ℕ) (s : String) → (p : String) × (ps : List String) × (split sep s ≡ p ∷ ps)
unfolding split
split-cons sep String.[] = (String.[], [], refl)
split-cons sep (String.◌∷◌ c s) =
    let (p, ps, e) = split-cons sep s in
    elim (Bool-cases (eqb (code c) sep)) [
      | inl same ↦ (String.[], split sep s, rw same)
      | inr other ↦ (String.◌∷◌ c p, ps, rw (other, e))
    ]

pub split-cons_sep :
    (c : Char) (s : String) (sep : ℕ)
    → eqb (code c) sep ≡ true
    → split sep (String.◌∷◌ c s) ≡ String.[] ∷ split sep s
unfolding split
split-cons_sep c s sep h = rw h

pub split-cons_other :
    (c : Char) (s : String) (sep : ℕ) (p : String) (ps : List String)
    → eqb (code c) sep ≡ false
    → split sep s ≡ p ∷ ps
    → split sep (String.◌∷◌ c s) ≡ String.◌∷◌ c p ∷ ps
unfolding split
split-cons_other c s sep p ps h e = rw (h, e)

eq_of_eqb : (a b : ℕ) → eqb a b ≡ true → a ≡ b
eq_of_eqb a b h = ground arith

join-grow :
    (d : String) (c : Char) (p : String) (ps : List String)
    → join d (grow c (p ∷ ps)) ≡ String.◌∷◌ c (join d (p ∷ ps))
unfolding join grow
join-grow d c p [] = refl
join-grow d c p (q ∷ ps) = cons-append c p _

join-nil-cons :
    (d p : String) (ps : List String)
    → join d (String.[] ∷ p ∷ ps) ≡ String.◌++◌ d (join d (p ∷ ps))
unfolding join
join-nil-cons d p ps = nil-append _

-- Joining the parts of a split gives back the text.
pub join-split : (d : Char) (s : String) → join (String.◌∷◌ d String.[]) (split (code d) s) ≡ s
unfolding split
join-split d String.[] = unfold join in refl
join-split d (String.◌∷◌ c s) =
    let (p, ps, e) = split-cons (code d) s in
    let ih : join (String.◌∷◌ d String.[]) (p ∷ ps) ≡ s = rw e at (join-split d s) in
    elim (Bool-cases (eqb (code c) (code d))) [
      | inl same ↦
          rw (same, e, join-nil-cons, ih, cons-append, nil-append)
            (ap (λ x. String.◌∷◌ x s) (Char-path d c (ground arith)))
      | inr other ↦ rw (other, e, join-grow, ih)
    ]
