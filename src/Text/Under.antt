-- ===== src/Text/Under.antt =====
-- Dotted paths: the test by prefixes of texts against the order of the split paths.
use Prim.Native.Char.{Char, code}
use Prim.Native.String
use text.Mathlib.TextEquality.{Char-path}
use text.Mathlib.TextLemmas.{cons-append, cons-eq-cons, nil≢cons, cons≢nil}
use fabric_ca_gm.Prelude.{
  String, ◌≡◌, ◌⊎◌, ◌↔◌, inl, inr, true, List, [], ◌∷◌, arith, eqb, Bool-cases,
}
use fabric_ca_gm.Text.{split, has_prefix}
use fabric_ca_gm.Text.Split.{split-cons, split-cons_sep, split-cons_other}

-- The first path is the beginning of the second.
abbrev pub Under : List String → List String → Type 0
Under [] ps = Unit
Under (c ∷ cs) [] = ⊥
Under (c ∷ cs) (p ∷ ps) = (c ≡ p) × Under cs ps

-- The text test that the code makes for a path that is not empty.
abbrev Below : String → String → Type 0
Below s t = (t ≡ s) ⊎ (has_prefix t (String.◌++◌ s ".") ≡ true)

Below-nil : (t : String) → Below "" t ↔ Under (split b'.' "") (split b'.' t)
unfolding has_prefix
Below-nil String.[] = unfold split in ground arith
Below-nil (String.◌∷◌ d t) =
    let (p, ps, e) = split-cons b'.' t in
    elim (Bool-cases (eqb (code d) b'.')) [
      | inl dot ↦ rw (split-cons_sep d t b'.' dot) (unfold split in ground arith)
      | inr other ↦
          rw (split-cons_other d t b'.' p ps other e)
            (unfold split in ground (arith, nil≢cons {x = d} {xs = p}, cons≢nil {x = d} {xs = t}))
    ]

Below-cons-nil :
    (c : Char) (s : String)
    → Below (String.◌∷◌ c s) "" ↔ Under (split b'.' (String.◌∷◌ c s)) (split b'.' "")
unfolding has_prefix
Below-cons-nil c s =
    let (p, ps, e) = split-cons b'.' s in
    elim (Bool-cases (eqb (code c) b'.')) [
      | inl dot ↦
          rw (split-cons_sep c s b'.' dot, e, cons-append)
            (unfold split in ground (arith, nil≢cons {x = c} {xs = s}))
      | inr other ↦
          rw (split-cons_other c s b'.' p ps other e, cons-append)
            (unfold split in ground (arith, cons≢nil {x = c} {xs = p}, nil≢cons {x = c} {xs = s}))
    ]

-- The texts after a first character that they must share.
Below-cons-cons :
    (c d : Char) (s t : String) → Below (String.◌∷◌ c s) (String.◌∷◌ d t) ↔ ((c ≡ d) × Below s t)
unfolding has_prefix
Below-cons-cons c d s t =
    rw cons-append (ground (arith, Char-path c d, cons-eq-cons {x = d} {y = c} {xs = t} {ys = s}))

Under-cons-cons :
    (c d : Char) (s t : String)
    → Under (split b'.' (String.◌∷◌ c s)) (split b'.' (String.◌∷◌ d t))
      ↔ ((c ≡ d) × Under (split b'.' s) (split b'.' t))
Under-cons-cons c d s t =
    let (p, ps, e) = split-cons b'.' s in
    let (q, qs, f) = split-cons b'.' t in
    elim (Bool-cases (eqb (code c) b'.')) [
      | inl c_dot ↦ elim (Bool-cases (eqb (code d) b'.')) [
        | inl d_dot ↦
            rw (split-cons_sep c s b'.' c_dot, split-cons_sep d t b'.' d_dot)
              (ground (arith, Char-path c d))
        | inr d_other ↦
            rw (split-cons_sep c s b'.' c_dot, split-cons_other d t b'.' q qs d_other f)
              (ground (arith, nil≢cons {x = d} {xs = q}))
      ]
      | inr c_other ↦ elim (Bool-cases (eqb (code d) b'.')) [
        | inl d_dot ↦
            rw (split-cons_other c s b'.' p ps c_other e, split-cons_sep d t b'.' d_dot)
              (ground (arith, cons≢nil {x = c} {xs = p}))
        | inr d_other ↦
            rw
              (
                split-cons_other c s b'.' p ps c_other e,
                split-cons_other d t b'.' q qs d_other f,
                e,
                f,
              )
              (ground arith)
      ]
    ]

-- A text is another or begins with it and a dot exactly when its path begins with the other's.
pub Below-iff : (s t : String) → Below s t ↔ Under (split b'.' s) (split b'.' t)
Below-iff String.[] t = Below-nil t
Below-iff (String.◌∷◌ c s) String.[] = Below-cons-nil c s
Below-iff (String.◌∷◌ c s) (String.◌∷◌ d t) =
    let (to, from) = Below-iff s t in
    let (b_to, b_from) = Below-cons-cons c d s t in
    let (u_to, u_from) = Under-cons-cons c d s t in
    (
      λ b. let (e, below) = b_to b in u_from (e, to below),
      λ u. let (e, under) = u_to u in b_from (e, from under),
    )
