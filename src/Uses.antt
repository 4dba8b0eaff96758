-- ===== src/Uses.antt =====
-- Src/Use.cpp and Include/Dilithium/Use.hpp: the uses of a user stand before it in memory, and their
-- tags say how far it is.

pub mod Count
pub mod Implied
pub mod Sort
pub mod Sorted
pub mod Store
pub mod Chains
pub mod Unlinked
pub mod Without
pub mod Stored
pub mod Sets
pub mod Moved
mod Tests
use dilithium.Base.{ℕ, zero, suc, ◌+◌, ◌-◌, ◌*◌, ◌/◌, ◌%◌}
use dilithium.Base.{
  Bool, true, false, if◌then◌else◌, ltb, ◌==◌, Option, none, some, List, [], ◌∷◌, get_elem?,
}

-- PrevPtrTag
pub data Tag : Type 0 where
  zero_digit : Tag
  one_digit : Tag
  stop : Tag
  full_stop : Tag

-- The tag of the Use at each address; an address counts in sizes of a Use.
abbrev pub Memory : Type 0
Memory = ℕ → Tag

abbrev pub write : Memory → ℕ → Tag → Memory
write m at tag p = if p == at then tag else m p

abbrev pub tags : List Tag
tags =
    full_stop ∷ one_digit ∷ stop ∷ one_digit ∷ one_digit ∷ stop ∷ zero_digit ∷ one_digit ∷ one_digit
    ∷ stop ∷ zero_digit ∷ one_digit ∷ zero_digit ∷ one_digit ∷ stop ∷ one_digit ∷ one_digit
    ∷ one_digit ∷ one_digit ∷ stop ∷ []

-- PrevPtrTag(count & 1)
abbrev pub tag_of_bit : ℕ → Tag
tag_of_bit count = if count % 2 == 0 then zero_digit else one_digit

-- The second loop of InitTags, with `left` uses before `end`.
unfoldable pub counted_tags : (beg left done count : ℕ) → Memory → Memory
counted_tags beg zero done count m = m
counted_tags beg (suc left) done count m = elim (count == 0) [
  | true ↦ counted_tags beg left (suc done) (suc done) (write m (beg + left) stop)
  | false ↦ counted_tags beg left (suc done) (count / 2) (write m (beg + left) (tag_of_bit count))
]

-- The first loop, and the second after it.
unfoldable pub first_tags : (beg left done : ℕ) → Memory → Memory
unfolding counted_tags
first_tags beg zero done m = m
first_tags beg (suc left) done m = elim (get_elem? tags done) [
  | some tag ↦ first_tags beg left (suc done) (write m (beg + left) tag)
  | none ↦ counted_tags beg (suc left) done done m
]

-- InitTags(beg, beg + n)
unfoldable pub init_tags : (beg n : ℕ) → Memory → Memory
unfolding first_tags
init_tags beg n m = first_tags beg n 0 m

-- The loop of GetImpliedUser that reads an offset.
unfoldable pub read_offset : (fuel curr offset : ℕ) → Memory → Option ℕ
read_offset zero curr offset m = none
read_offset (suc fuel) curr offset m = elim (m curr) [
  | zero_digit ↦ read_offset fuel (suc curr) (offset * 2) m
  | one_digit ↦ read_offset fuel (suc curr) (offset * 2 + 1) m
  | stop ↦ some (curr + offset)
  | full_stop ↦ some (curr + offset)
]

-- GetImpliedUser: the address after the last use; `none` is no fuel left.
unfoldable pub implied_user : (fuel curr : ℕ) → Memory → Option ℕ
unfolding read_offset
implied_user zero curr m = none
implied_user (suc fuel) curr m = elim (m curr) [
  | zero_digit ↦ implied_user fuel (suc curr) m
  | one_digit ↦ implied_user fuel (suc curr) m
  | stop ↦ read_offset fuel (suc (suc curr)) 1 m
  | full_stop ↦ some (suc curr)
]
