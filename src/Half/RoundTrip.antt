-- ===== src/Half/RoundTrip.antt =====
-- The conversions of Src/Half.cpp one after the other, and its negation.
use dilithium.Base.{ℕ, zero, suc, ◌+◌, ◌%◌, ◌^◌, ◌<◌, ◌≡◌, refl, arith, ◌≢◌, ◌↔◌}
use dilithium.Base.{Bool, true, ◌&&◌, ◌||◌, ◌==◌}
use dilithium.Half.{half_of_float, float_of_half, half_neg}

-- A check of all patterns below `n`.
all_below : ℕ → (ℕ → Bool) → Bool
all_below zero p = true
all_below (suc n) p = p n && all_below n p

all_below→true : (n : ℕ) (p : ℕ → Bool) (x : ℕ) → all_below n p ≡ true → x < n → p x ≡ true
unfolding all_below
all_below→true zero p x h lt = absurd (omega arith)
all_below→true (suc n) p x h lt = ground (arith, all_below→true n p x)

survives : ℕ → Bool
survives v = v % 0x8000 == 0 || half_of_float (float_of_half v) == v

half_table : all_below 0x1_0000 survives ≡ true
unfolding all_below survives half_of_float float_of_half
half_table = refl

-- A half `v` whose low 15 bits are not all 0 comes back unchanged when it is converted to float and
-- back: finite, infinite and NaN patterns alike.
pub half_of_float-float_of_half :
    (v : ℕ) → v < 2 ^ 16 → v % 0x8000 ≢ 0 → half_of_float (float_of_half v) ≡ v
unfolding survives
half_of_float-float_of_half v lt nz =
    ground (arith, all_below→true 0x1_0000 survives v half_table lt)

-- The negation of a pattern is the pattern with its sign flipped exactly when the low 15 bits are
-- 2 ^ 14: for other halves, zero included, `operator-` does not just change the sign.
pub half_neg_iff :
    (v : ℕ) → v < 2 ^ 16 → (half_neg v ≡ (v + 2 ^ 15) % 2 ^ 16) ↔ (v % 2 ^ 15 ≡ 2 ^ 14)
unfolding half_neg
half_neg_iff v lt = ground arith
