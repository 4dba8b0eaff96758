-- ===== src/MpInt.antt =====
-- Src/MPInt.cpp and Include/Dilithium/MPInt.hpp: integers of 1 to 64 bits. `none` is an assertion
-- that fails, or a shift of a uint64_t by 64 or more.
pub mod Laws
pub mod Widths
pub mod Shifts
pub mod Updates
pub mod Text
pub mod Numerals
pub mod Modular
mod Tests
use dilithium.Base.{ℕ, zero, suc, ◌+◌, ◌-◌, ◌*◌, ◌/◌, ◌%◌, ◌^◌, bit_and, bit_or, bit_xor}
use dilithium.Base.{
  Bool, true, false, not, ◌&&◌, ◌||◌, if◌then◌else◌, ltb, leb, ◌==◌, Option, none, some,
}

pub record MpInt : Type 0 where
  pub bit_width : ℕ
  pub val : ℕ

abbrev pub uint64_max : ℕ
uint64_max = 2 ^ 64 - 1

-- ClearUnusedBits, for a width up to 64.
unfoldable pub clear_unused_bits : ℕ → ℕ → ℕ
clear_unused_bits w v = if ltb 0 w then bit_and v (uint64_max / 2 ^ (64 - w)) else v

-- MPInt(num_bits, val); `val` is taken as a uint64_t.
unfoldable pub make : ℕ → ℕ → Option MpInt
unfolding clear_unused_bits
make w v =
    if w == 0 || ltb 64 w
    then none
    else some (record { bit_width = w; val = clear_unused_bits w (v % 2 ^ 64) })

-- The assertion that two operands have one width.
abbrev pub same_width : MpInt → MpInt → Option MpInt → Option MpInt
same_width a b r = if a.bit_width == b.bit_width then r else none

unfoldable pub add : MpInt → MpInt → Option MpInt
unfolding make
add a b = same_width a b (make a.bit_width (a.val + b.val))

unfoldable pub sub : MpInt → MpInt → Option MpInt
unfolding make
sub a b = same_width a b (make a.bit_width (a.val + 2 ^ 64 - b.val))

unfoldable pub mul : MpInt → MpInt → Option MpInt
unfolding make
mul a b = same_width a b (make a.bit_width (a.val * b.val))

unfoldable pub and : MpInt → MpInt → Option MpInt
unfolding make
and a b = same_width a b (make a.bit_width (bit_and a.val b.val))

unfoldable pub or : MpInt → MpInt → Option MpInt
unfolding make
or a b = same_width a b (make a.bit_width (bit_or a.val b.val))

unfoldable pub xor : MpInt → MpInt → Option MpInt
unfolding make
xor a b = same_width a b (make a.bit_width (bit_xor a.val b.val))

-- MPInt(bit_width_, 0) - *this
unfoldable pub neg : MpInt → Option MpInt
unfolding make sub
neg a = elim (make a.bit_width 0) [ none ↦ none | some z ↦ sub z a ]

-- Assign, ++ and --
abbrev set_val : MpInt → ℕ → MpInt
set_val a v = record a { val = clear_unused_bits a.bit_width (v % 2 ^ 64) }

unfoldable pub assign : MpInt → ℕ → MpInt
unfolding clear_unused_bits
assign a rhs = set_val a rhs

unfoldable pub inc : MpInt → MpInt
unfolding clear_unused_bits
inc a = set_val a (a.val + 1)

unfoldable pub dec : MpInt → MpInt
unfolding clear_unused_bits
dec a = set_val a (a.val + uint64_max)

-- FlipAllBits, and operator~
unfoldable pub flip_all_bits : MpInt → MpInt
unfolding clear_unused_bits
flip_all_bits a = set_val a (bit_xor a.val uint64_max)

-- operator<<=, which does not clear the bits above the width.
unfoldable pub shl_assign : MpInt → ℕ → Option MpInt
shl_assign a shift =
    if ltb a.bit_width shift
    then none
    else if leb a.bit_width shift
    then some (record a { val = 0 })
    else some (record a { val = a.val * 2 ^ shift % 2 ^ 64 })

unfoldable pub shl : MpInt → ℕ → Option MpInt
unfolding make
shl a shift =
    if ltb a.bit_width shift
    then none
    else if leb a.bit_width shift
    then make a.bit_width 0
    else make a.bit_width (a.val * 2 ^ shift)

unfoldable pub lshr : MpInt → ℕ → Option MpInt
unfolding make
lshr a shift =
    if leb a.bit_width shift then make a.bit_width 0 else make a.bit_width (a.val / 2 ^ shift)

-- `>>` of an int64_t, as a bit pattern.
abbrev pub asr64 : ℕ → ℕ → ℕ
asr64 x k = if ltb x (2 ^ 63) then x / 2 ^ k else uint64_max - (uint64_max - x) / 2 ^ k

unfoldable pub ashr : MpInt → ℕ → Option MpInt
unfolding make
ashr a shift =
    if ltb a.bit_width shift
    then none
    else if shift == 0
    then some a
    else if shift == a.bit_width
    then make a.bit_width 0
    else (let sign_bit = 64 - a.bit_width in
        make a.bit_width (asr64 (asr64 (a.val * 2 ^ sign_bit % 2 ^ 64) sign_bit) shift))

-- LimitedValue, and the shifts by an MPInt.
unfoldable pub limited_value : MpInt → ℕ → ℕ
limited_value a limit = if ltb limit a.val then limit else a.val

unfoldable pub shl_by : MpInt → MpInt → Option MpInt
unfolding limited_value shl
shl_by a b = shl a (limited_value b a.bit_width)

unfoldable pub lshr_by : MpInt → MpInt → Option MpInt
unfolding limited_value lshr
lshr_by a b = lshr a (limited_value b a.bit_width)

unfoldable pub ashr_by : MpInt → MpInt → Option MpInt
unfolding limited_value ashr
ashr_by a b = ashr a (limited_value b a.bit_width)

unfoldable pub trunc : MpInt → ℕ → Option MpInt
unfolding make
trunc a width = if ltb width a.bit_width && ltb 0 width then make width a.val else none

unfoldable pub zext : MpInt → ℕ → Option MpInt
unfolding make
zext a width = if ltb a.bit_width width then make width a.val else none

-- `val` is a uint64_t, so that the shifts to the right are logical.
unfoldable pub sext : MpInt → ℕ → Option MpInt
unfolding make
sext a width =
    if ltb a.bit_width width && leb width 64
    then (let top = a.val * 2 ^ (64 - a.bit_width) % 2 ^ 64 in
        let val = top / 2 ^ (width - a.bit_width) in make width (val / 2 ^ (64 - width)))
    else none

unfoldable pub sext_or_trunc : MpInt → ℕ → Option MpInt
unfolding sext trunc
sext_or_trunc a width =
    if ltb a.bit_width width
    then sext a width
    else if ltb width a.bit_width
    then trunc a width
    else some a

unfoldable pub zext_or_self : MpInt → ℕ → Option MpInt
unfolding zext
zext_or_self a width = if ltb a.bit_width width then zext a width else some a

-- SExtValue, as the bit pattern of an int64_t.
unfoldable pub sext_value : MpInt → ℕ
sext_value a = asr64 (a.val * 2 ^ (64 - a.bit_width) % 2 ^ 64) (64 - a.bit_width)

-- 1ULL << bit_pos
abbrev pub mask_bit : ℕ → ℕ
mask_bit bit_pos = 2 ^ bit_pos % 2 ^ 64

unfoldable pub set_bit : MpInt → ℕ → Option MpInt
set_bit a pos = if ltb pos 64 then some (record a { val = bit_or a.val (mask_bit pos) }) else none

unfoldable pub clear_bit : MpInt → ℕ → Option MpInt
clear_bit a pos =
    if ltb pos 64 then some (record a { val = bit_and a.val (uint64_max - mask_bit pos) }) else none

-- operator[]
unfoldable pub test_bit : MpInt → ℕ → Option Bool
test_bit a pos =
    if ltb pos a.bit_width then some (not (bit_and (mask_bit pos) a.val == 0)) else none

unfoldable pub is_negative : MpInt → Option Bool
unfolding test_bit
is_negative a = test_bit a (a.bit_width - 1)

unfoldable pub is_all_ones_value : MpInt → Bool
is_all_ones_value a = a.val == uint64_max / 2 ^ (64 - a.bit_width)

-- IsPowerOfTwo64
unfoldable pub is_power_of2 : MpInt → Bool
is_power_of2 a = not (a.val == 0) && bit_and a.val ((a.val + uint64_max) % 2 ^ 64) == 0

unfoldable pub is_min_signed_value : MpInt → Option Bool
unfolding is_negative is_power_of2
is_min_signed_value a = elim (is_negative a) [ none ↦ none | some n ↦ some (n && is_power_of2 a) ]

unfoldable pub low_bits_set : ℕ → ℕ → Option MpInt
unfolding make lshr
low_bits_set num_bits lo =
    if ltb num_bits lo
    then none
    else if lo == 0
    then make num_bits 0
    else if lo == 64
    then make num_bits uint64_max
    else if leb lo 64
    then make num_bits (uint64_max / 2 ^ (64 - lo))
    else (elim (make num_bits uint64_max) [ none ↦ none | some a ↦ lshr a (num_bits - lo) ])
