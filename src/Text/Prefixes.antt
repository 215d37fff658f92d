-- ===== src/Text/Prefixes.antt =====
-- Prefixes of texts.
use Prim.Native.String
use text.Mathlib.TextLemmas.{cons-append}
use fabric_ca_gm.Prelude.{String, ◌≡◌, refl, true, arith}
use fabric_ca_gm.Text.{has_prefix}

pub has_prefix-append :
    (s p more : String) → has_prefix s p ≡ true → has_prefix (String.◌++◌ s more) p ≡ true
unfolding has_prefix
has_prefix-append s String.[] more h = refl
has_prefix-append String.[] (String.◌∷◌ c p) more h = absurd (cc h)
has_prefix-append (String.◌∷◌ d s) (String.◌∷◌ c p) more h =
    rw (cons-append d s more) (ground (arith, h, has_prefix-append s p more))

pub has_prefix_self : (p more : String) → has_prefix (String.◌++◌ p more) p ≡ true
unfolding has_prefix
has_prefix_self String.[] more = refl
has_prefix_self (String.◌∷◌ c p) more =
    rw (cons-append c p more) (ground (arith, has_prefix_self p more))
