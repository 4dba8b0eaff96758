-- ===== src/MpInt/Updates.antt =====
-- The compound assignments of Src/MPInt.cpp, its comparison, and Splat.
use dilithium.Base.{ℕ, zero, suc, ◌+◌, ◌-◌, ◌*◌, ◌^◌, ◌%◌, bit_and, bit_or, bit_xor}
use dilithium.Base.{Bool, if◌then◌else◌, ltb, leb, ◌==◌, Option, none, some}
use dilithium.MpInt.{MpInt, clear_unused_bits, set_val, same_width, shl, zext_or_self}

unfoldable pub add_assign : MpInt → MpInt → Option MpInt
unfolding clear_unused_bits
add_assign a b = same_width a b (some (set_val a (a.val + b.val)))

unfoldable pub sub_assign : MpInt → MpInt → Option MpInt
unfolding clear_unused_bits
sub_assign a b = same_width a b (some (set_val a (a.val + 2 ^ 64 - b.val)))

unfoldable pub mul_assign : MpInt → MpInt → Option MpInt
unfolding clear_unused_bits
mul_assign a b = same_width a b (some (set_val a (a.val * b.val)))

unfoldable pub and_assign : MpInt → MpInt → Option MpInt
and_assign a b = same_width a b (some (record a { val = bit_and a.val b.val }))

unfoldable pub or_assign : MpInt → MpInt → Option MpInt
or_assign a b = same_width a b (some (record a { val = bit_or a.val b.val }))

-- `rhs` is a uint64_t.
unfoldable pub or_assign_word : MpInt → ℕ → MpInt
unfolding clear_unused_bits
or_assign_word a rhs = set_val a (bit_or a.val rhs)

unfoldable pub xor_assign : MpInt → MpInt → Option MpInt
unfolding clear_unused_bits
xor_assign a b = same_width a b (some (set_val a (bit_xor a.val b.val)))

-- operator==
unfoldable pub equals : MpInt → MpInt → Option Bool
equals a b = if a.bit_width == b.bit_width then some (a.val == b.val) else none

-- The loop of Splat; `i` doubles until it reaches `new_len`.
unfoldable pub splat_loop : ℕ → ℕ → ℕ → MpInt → Option MpInt
unfolding shl or_assign
splat_loop zero new_len i ret = none
splat_loop (suc fuel) new_len i ret = if leb new_len i then some ret else elim (shl ret i) [
  | none ↦ none
  | some shifted ↦ elim (or_assign ret shifted) [
    | none ↦ none
    | some ret' ↦ splat_loop fuel new_len (i * 2 % 2 ^ 32) ret'
  ]
]

-- Six doublings of a width of one bit or more reach 64.
unfoldable pub splat : ℕ → MpInt → Option MpInt
unfolding zext_or_self splat_loop
splat new_len v = if ltb new_len v.bit_width then none else (elim (zext_or_self v new_len) [
  | none ↦ none
  | some ret ↦ splat_loop 7 new_len v.bit_width ret
])
