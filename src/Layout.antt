-- ===== src/Layout.antt =====
-- Src/DataLayout.cpp: StructLayout, and RoundUpToAlignment of Include/Dilithium/MathExtras.hpp.
-- What a DataLayout answers for the type of a member, its ABI alignment and its allocation size, is
-- given with the member.
pub mod Members
pub mod Offsets
mod Tests
use dilithium.Base.{ℕ, zero, suc, ◌+◌, ◌-◌, ◌*◌, ◌/◌, ◌%◌, ◌^◌, max, bit_and}
use dilithium.Base.{Bool, true, false, if◌then◌else◌, ltb, ◌==◌, Option, none, some, List, [], ◌∷◌}

-- (value + align - 1) / align * align, in 64 bits.
unfoldable pub round_up_to_alignment : ℕ → ℕ → ℕ
round_up_to_alignment value align = (value + align + 2 ^ 64 - 1) % 2 ^ 64 / align * align % 2 ^ 64

-- ABITypeAlignment, a uint32_t, and TypeAllocSize, a uint64_t, of a member's type.
pub record Member : Type 0 where
  pub abi_align : ℕ
  pub alloc_size : ℕ

-- `if ((size & (align - 1)) != 0) size = RoundUpToAlignment(size, align)`; `align - 1` is a
-- uint32_t.
unfoldable pub align_size : ℕ → ℕ → ℕ
unfolding round_up_to_alignment
align_size size align =
    if bit_and size ((align + 2 ^ 32 - 1) % 2 ^ 32) == 0
    then size
    else round_up_to_alignment size align

abbrev pub member_align : Bool → Member → ℕ
member_align packed m = if packed then 1 else m.abi_align

-- The loop of the constructor from a size and an alignment on: the offsets of the members that are
-- left, the size behind them and the alignment.
unfoldable pub place_members : Bool → ℕ → ℕ → List Member → List ℕ × ℕ × ℕ
unfolding align_size
place_members packed size align [] = ([], size, align)
place_members packed size align (m ∷ ms) =
    let offset = align_size size (member_align packed m) in
    let (offsets, size', align') =
      place_members packed ((offset + m.alloc_size) % 2 ^ 64) (max (member_align packed m) align)
        ms in
    (offset ∷ offsets, size', align')

pub record StructLayout : Type 0 where
  pub struct_size : ℕ
  pub struct_alignment : ℕ
  pub member_offsets : List ℕ

abbrev pub finish : List ℕ × ℕ × ℕ → StructLayout
finish (offsets, size, align) =
    let align' = if align == 0 then 1 else align in
    record {
      struct_size = align_size size align';
      struct_alignment = align';
      member_offsets = offsets;
    }

-- The constructor, on the members of a struct type that is not opaque.
unfoldable pub struct_layout : Bool → List Member → StructLayout
unfolding place_members align_size
struct_layout packed ms = finish (place_members packed 0 0 ms)

-- std::upper_bound of the standard library on offsets in order: how many are at most `offset`.
unfoldable pub upper_bound : List ℕ → ℕ → ℕ
upper_bound [] offset = 0
upper_bound (o ∷ os) offset =
    let rest = upper_bound os offset in if ltb offset o then 0 else suc rest

-- `none` is the assertion that an offset is in the structure.
unfoldable pub element_containing_offset : List ℕ → ℕ → Option ℕ
unfolding upper_bound
element_containing_offset offsets offset =
    let si = upper_bound offsets offset in if si == 0 then none else some (si - 1)
