-- ===== src/Text/Joined.antt =====
-- Splitting what was joined.
use Prim.Native.Char.{Char, code}
use Prim.Native.String
use text.Mathlib.TextLemmas.{nil-append, cons-append, append_assoc}
use fabric_ca_gm.Prelude.{
  ℕ, String, ◌≡◌, refl, sym, ap, ◌∙◌, false, List, [], ◌∷◌, ◌++◌, arith, eqb, Bool-cases, All, inl,
  inr,
}
use fabric_ca_gm.Text.{grow, split, join}
use fabric_ca_gm.Text.Split.{split-cons, split-cons_sep, split-cons_other, join-split}

-- The separator is not in the text.
abbrev pub Free : ℕ → String → Type 0
Free sep String.[] = Unit {0}
Free sep (String.◌∷◌ c s) = (eqb (code c) sep ≡ false) × Free sep s

grow-Free :
    (sep : ℕ) (c : Char) (ps : List String)
    → eqb (code c) sep ≡ false
    → All (Free sep) ps
    → All (Free sep) (grow c ps)
unfolding grow
grow-Free sep c [] h fs = ((h, tt), tt)
grow-Free sep c (p ∷ ps) h fs = ((h, fs.0), fs.1)

-- The parts of a split do not have the separator.
pub split-Free : (sep : ℕ) (s : String) → All (Free sep) (split sep s)
unfolding split
split-Free sep String.[] = (tt, tt)
split-Free sep (String.◌∷◌ c s) = elim (Bool-cases (eqb (code c) sep)) [
  | inl same ↦ rw same (tt, split-Free sep s)
  | inr other ↦ rw other (grow-Free sep c (split sep s) other (split-Free sep s))
]

-- A part in front of a text without or with a separator behind it.
pub split-part : (d : Char) (p : String) → Free (code d) p → split (code d) p ≡ p ∷ []
unfolding split
split-part d String.[] f = refl
split-part d (String.◌∷◌ c p) f = split-cons_other c p (code d) p [] f.0 (split-part d p f.1)

split-append :
    (d : Char) (p s : String)
    → Free (code d) p
    → split (code d) (String.◌++◌ p (String.◌++◌ (String.◌∷◌ d String.[]) s)) ≡ p ∷ split (code d) s
split-append d String.[] s f =
    rw (nil-append, cons-append, nil-append) (split-cons_sep d s (code d) (ground arith))
split-append d (String.◌∷◌ c p) s f =
    rw cons-append (split-cons_other c _ (code d) p (split (code d) s) f.0 (split-append d p s f.1))

-- Parts without the separator come back.
pub split-join :
    (d : Char) (p : String) (ps : List String)
    → All (Free (code d)) (p ∷ ps)
    → split (code d) (join (String.◌∷◌ d String.[]) (p ∷ ps)) ≡ p ∷ ps
unfolding join
split-join d p [] f = split-part d p f.0
split-join d p (q ∷ ps) f =
    split-append d p (join (String.◌∷◌ d String.[]) (q ∷ ps)) f.0
    ∙ ap (λ r. p ∷ r) (split-join d q ps f.1)

snoc-grow :
    (c : Char) (ps : List String) (p q : String)
    → grow c (p ∷ ps) ++ q ∷ [] ≡ grow c ((p ∷ ps) ++ q ∷ [])
unfolding grow
snoc-grow c ps p q = refl

-- A part behind a text and a separator is one more part.
pub split-snoc :
    (d : Char) (s p : String)
    → Free (code d) p
    → split (code d) (String.◌++◌ (String.◌++◌ s (String.◌∷◌ d String.[])) p)
      ≡ split (code d) s ++ p ∷ []
split-snoc d String.[] p f =
    rw (nil-append, cons-append, nil-append)
      (split-cons_sep d p (code d) (ground arith)
        ∙ ap (λ r. String.[] ∷ r) (split-part d p f)
        ∙ unfold split in refl)
split-snoc d (String.◌∷◌ c s) p f =
    let ih = split-snoc d s p f in
    let (q, qs, e) = split-cons (code d) s in
    elim (Bool-cases (eqb (code c) (code d))) [
      | inl same ↦
          rw (cons-append, cons-append)
            (split-cons_sep c _ (code d) same
              ∙ ap (λ r. String.[] ∷ r) ih
              ∙ ap (λ r. r ++ p ∷ []) (sym (split-cons_sep c s (code d) same)))
      | inr other ↦
          rw (cons-append, cons-append)
            (split-cons_other c _ (code d) q (qs ++ p ∷ []) other (rw e at ih)
              ∙ ap (λ r. r ++ p ∷ []) (sym (split-cons_other c s (code d) q qs other e)))
    ]

-- Texts with the same parts are the same.
pub split-eq : (d : Char) (s t : String) → split (code d) s ≡ split (code d) t → s ≡ t
split-eq d s t h = sym (join-split d s) ∙ ap (join (String.◌∷◌ d String.[])) h ∙ join-split d t

-- One more part behind others is a separator and the part behind the text.
pub join-snoc :
    (d p : String) (ps : List String) (q : String)
    → join d ((p ∷ ps) ++ q ∷ []) ≡ String.◌++◌ (join d (p ∷ ps)) (String.◌++◌ d q)
unfolding join
join-snoc d p [] q = refl
join-snoc d p (r ∷ ps) q = rw (join-snoc d r ps q, append_assoc, append_assoc) refl
