-- ===== src/Version/Order.antt =====
-- The comparison of versions against the places of the versions.
use fabric_ca_gm.Prelude.{
  ℕ, zero, suc, ◌+◌, ◌<◌, ◌≤◌, String, ◌≡◌, refl, inl, inr, ◌⊎◌, true, false, Option, none, some,
  List, [], ◌∷◌, length, ltb, eqb, arith, Bool-cases, Option-cases,
}
use fabric_ca_gm.Prelude.Int.{ℤ, pos, negsuc, ltℤ}
use fabric_ca_gm.Result.{Result, ok, err, plain}
use fabric_ca_gm.Version.{strs, max, get_elem, part_value, atoi, val, cmp_from, cmp_version}

module _ (xs ys : List String) where
  -- Both have a number at a place, and these are such that neither is below the other. A missing place is 0.
  pub record Level (i : ℕ) : Type 0 where
    pub left : ℤ
    pub right : ℤ
    pub reads_left : val xs i ≡ ok left
    pub reads_right : val ys i ≡ ok right
    pub not_below : ltℤ left right ≡ false
    pub not_above : ltℤ right left ≡ false

  abbrev pub LevelBelow : ℕ → Type 0
  LevelBelow n = (i : ℕ) → i < n → Level i

  -- The answer for two lists of parts: 0 where all places are level, else by the first place that is not, 1 where
  -- the second has the greater number there, -1 where the first has, an error where one has no number.
  pub data Outcome : Result ℤ → Type 0 where
    level : ((i : ℕ) → Level i) → Outcome (ok (pos 0))
    newer :
        (i : ℕ) (a b : ℤ)
        → LevelBelow i
        → val xs i ≡ ok a
        → val ys i ≡ ok b
        → ltℤ a b ≡ true
        → Outcome (ok (pos 1))
    older :
        (i : ℕ) (a b : ℤ)
        → LevelBelow i
        → val xs i ≡ ok a
        → val ys i ≡ ok b
        → ltℤ b a ≡ true
        → Outcome (ok (negsuc 0))
    fails :
        (i : ℕ)
        → LevelBelow i
        → (val xs i ≡ err plain) ⊎ (val ys i ≡ err plain)
        → Outcome (err plain)

  part_value-cases :
      (part : Option String) → ((v : ℤ) × (part_value part ≡ ok v)) ⊎ (part_value part ≡ err plain)
  part_value-cases none = inl (pos 0, refl)
  part_value-cases (some str) = elim (Option-cases (atoi str)) [
    | inl none' ↦ inr (rw none' refl)
    | inr (v, is) ↦ inl (v, rw is refl)
  ]

  -- The only error is that of a part that is no number.
  val-cases :
      (parts : List String) (i : ℕ) → ((v : ℤ) × (val parts i ≡ ok v)) ⊎ (val parts i ≡ err plain)
  unfolding val
  val-cases parts i = part_value-cases (get_elem parts i)

  LevelBelow-suc : (i : ℕ) → LevelBelow i → Level i → LevelBelow (suc i)
  LevelBelow-suc i below here j h = elim (Bool-cases (eqb j i)) [
    | inl same ↦ let e : j ≡ i = ground (arith, same) in rw e here
    | inr other ↦ below j (ground (arith, other, h))
  ]

  -- The loop from a place on, with the places before it level, and all behind its end
  cmp_from-Outcome :
      (i n : ℕ) → LevelBelow i → ((j : ℕ) → i + n ≤ j → Level j) → Outcome (cmp_from xs ys i n)
  unfolding cmp_from
  cmp_from-Outcome i zero below behind = level (λ j. elim (Bool-cases (ltb j i)) [
    | inl before ↦ below j (ground (arith, before))
    | inr after ↦ behind j (ground (arith, after))
  ])
  cmp_from-Outcome i (suc n) below behind = elim (val-cases xs i) [
    | inl (a, is_a) ↦ elim (val-cases ys i) [
      | inl (b, is_b) ↦
          rw (is_a, is_b)
            (elim (Bool-cases (ltℤ a b)) [
              | inl less ↦ rw less (newer i a b below is_a is_b less)
              | inr not_less ↦ elim (Bool-cases (ltℤ b a)) [
                | inl more ↦ rw (not_less, more) (older i a b below is_a is_b more)
                | inr not_more ↦
                    let here : Level i = record {
                      left = a;
                      right = b;
                      reads_left = is_a;
                      reads_right = is_b;
                      not_below = not_less;
                      not_above = not_more;
                    } in
                    rw (not_less, not_more)
                      (cmp_from-Outcome (suc i) n (LevelBelow-suc i below here)
                        (λ j h. behind j (omega (arith, h))))
              ]
            ])
      | inr no_number ↦ rw (is_a, no_number) (fails i below (inr no_number))
    ]
    | inr no_number ↦ rw no_number (fails i below (inl no_number))
  ]

get_elem-none : (xs : List String) (i : ℕ) → length xs ≤ i → get_elem xs i ≡ none
get_elem-none [] i h = refl
get_elem-none (x ∷ xs) zero h = absurd (omega (arith, h))
get_elem-none (x ∷ xs) (suc i) h = get_elem-none xs i (omega (arith, h))

-- Behind the ends of both, both places count as 0.
ends-Level : (xs ys : List String) (i : ℕ) → max (length xs) (length ys) ≤ i → Level xs ys i
unfolding val
ends-Level xs ys i h = record {
  left = pos 0;
  right = pos 0;
  reads_left = rw (get_elem-none xs i (ground (arith, h))) refl;
  reads_right = rw (get_elem-none ys i (ground (arith, h))) refl;
  not_below = refl;
  not_above = refl;
}

-- The comparison of two versions is decided by their first place that differs, a place that one of them lacks
-- counting as 0: 1 where the second has the greater number there, -1 where the first has, an error where one of
-- them has no number at the first place that is not level, and 0 where there is no such place at all.
pub cmp_version-Outcome : (v1 v2 : String) → Outcome (strs v1) (strs v2) (cmp_version v1 v2)
unfolding cmp_version
cmp_version-Outcome v1 v2 =
    cmp_from-Outcome (strs v1) (strs v2) 0 (max (length (strs v1)) (length (strs v2)))
      (λ i h. absurd (omega (arith, h)))
      (λ j h. ends-Level (strs v1) (strs v2) j (omega (arith, h)))
