-- ===== src/Register/Limits.antt =====
-- The limit on enrollments that a registration gets.
use fabric_ca_gm.Prelude.{zero, suc, ◌≡◌, ◌↔◌, ◌⊎◌, true, arith}
use fabric_ca_gm.Prelude.Int.{ℤ, pos, negsuc, minus_one, leℤ, ltℤ}
use fabric_ca_gm.Result.{ok}
use fabric_ca_gm.Register.{get_max_enrollments}

-- Which limits are granted: where the CA has none, any that is at least -1, with 0 as a request for no
-- limit; where it has one, the CA's for 0, and a positive one up to the CA's.
abbrev pub Grants : ℤ → ℤ → ℤ → Type 0
Grants ca user limit =
    ((ca ≡ minus_one)
      × (((user ≡ pos 0) × (limit ≡ minus_one))
          ⊎ ((limit ≡ user) × ((user ≡ minus_one) ⊎ (ltℤ (pos 0) user ≡ true)))))
    ⊎ ((ltℤ (pos 0) ca ≡ true)
        × (((user ≡ pos 0) × (limit ≡ ca))
            ⊎ ((limit ≡ user) × (ltℤ (pos 0) user ≡ true) × (leℤ user ca ≡ true))))

-- For a CA limit that is -1 or not negative, the limits granted are exactly these: where the CA has none, the
-- requested one if it is -1 or positive, and -1 for 0; where the CA's is positive, the CA's for 0, and a positive
-- one up to it as requested; where the CA's is 0, none.
pub get_max_enrollments_iff :
    (ca user limit : ℤ)
    → leℤ minus_one ca ≡ true
    → (get_max_enrollments user ca ≡ ok limit) ↔ Grants ca user limit
unfolding get_max_enrollments
get_max_enrollments_iff (pos c) (pos u) limit valid = ground arith
get_max_enrollments_iff (pos c) (negsuc zero) limit valid = ground arith
get_max_enrollments_iff (pos c) (negsuc (suc u)) limit valid = ground arith
get_max_enrollments_iff (negsuc zero) (pos u) limit valid = ground arith
get_max_enrollments_iff (negsuc zero) (negsuc u) limit valid = ground arith
get_max_enrollments_iff (negsuc (suc c)) user limit valid = absurd (ground arith)
