-- ===== src/Cursor/Masks.antt =====
-- The masks and shifts of Read in Src/BitstreamReader.cpp, as arithmetic.
use dilithium.Base.{ℕ, ◌+◌, ◌-◌, ◌/◌, ◌%◌, ◌^◌, ◌≤◌, ◌<◌, ◌≡◌, ap, ◌∙◌, arith}
use dilithium.Base.{bit_and, bit_and_mask, low_bits-eq, slice, slice-mod, slice-div}
use dilithium.Cursor.Word.{word_mask}

-- ~0 >> (64 - n) has the `n` low bits set.
pub word_mask-eq : (n : ℕ) → n ≤ 64 → word_mask n ≡ 2 ^ n - 1
unfolding word_mask
word_mask-eq = low_bits-eq

pub bit_and-word_mask : (n a : ℕ) → n ≤ 64 → bit_and a (word_mask n) ≡ a % 2 ^ n
bit_and-word_mask n a h = ap (bit_and a) (word_mask-eq n h) ∙ bit_and_mask n a

pub bit_and_low63 : (n : ℕ) → n < 64 → bit_and n 0x3f ≡ n
bit_and_low63 n h = bit_and_mask 6 n ∙ omega arith

-- Of `b` bits, the `n` lowest by the mask, and the others by the shift.
pub mask-slice : (v p b n : ℕ) → n ≤ b → n ≤ 64 → bit_and (slice v p b) (word_mask n) ≡ slice v p n
mask-slice v p b n h k = bit_and-word_mask n (slice v p b) k ∙ slice-mod v p b n h

pub shift-slice :
    (v p b n : ℕ) → n ≤ b → n < 64 → slice v p b / 2 ^ bit_and n 0x3f ≡ slice v (p + n) (b - n)
shift-slice v p b n h k =
    ap (λ (t : ℕ). slice v p b / 2 ^ t) (bit_and_low63 n k) ∙ slice-div v p b n h
