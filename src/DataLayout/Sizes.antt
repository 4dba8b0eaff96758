-- ===== src/DataLayout/Sizes.antt =====
-- TypeSizeInBits, Alignment of a type and AlignmentInfo of Src/DataLayout.cpp, with the inline functions
-- of its header. The assertion that the type is sized, which does not end on a struct, is left out,
-- and so is the cache of struct layouts, which keeps what is computed.
pub mod Matches
pub mod Closest
mod Tests
use dilithium.Base.{
  ℕ, zero, suc, ◌+◌, ◌-◌, ◌*◌, ◌/◌, ◌%◌, ◌^◌, max, bit_and, bit_or, Bool, true, false, not, ◌&&◌,
  ◌||◌, if◌then◌else◌, ltb, ◌==◌, Option, none, some, List, [], ◌∷◌,
}
use dilithium.Types.{
  Ty, Types, void_ty, half_ty, float_ty, double_ty, x86_fp80_ty, fp128_ty, ppc_fp128_ty, label_ty,
  metadata_ty, x86_mmx_ty, integer_ty, function_ty, struct_ty, array_ty, pointer_ty, vector_ty,
  no_types, and_type,
}
use dilithium.Layout.{Member, struct_layout, round_up_to_alignment}
use dilithium.DataLayout.{
  Result, ok, unreachable, fault, ◌>>=◌, AlignType, integer_align, float_align, vector_align,
  aggregate_align, align_code, LayoutAlignElem, DataLayout, is_for, pointer_abi_alignment,
  pointer_pref_alignment, pointer_size,
}

-- NextPowerOf2 of Include/Dilithium/MathExtras.hpp.
abbrev or_shifted : ℕ → ℕ → ℕ
or_shifted k val = bit_or val (val / 2 ^ k)

unfoldable pub next_power_of_2 : ℕ → ℕ
next_power_of_2 val =
    (or_shifted 32 (or_shifted 16 (or_shifted 8 (or_shifted 4 (or_shifted 2 (or_shifted 1 val)))))
      + 1)
    % 2 ^ 64

-- A uint32_t alignment, made a power of two.
unfoldable pub to_power_of_2 : ℕ → ℕ
unfolding next_power_of_2
to_power_of_2 align =
    if bit_and align ((align + 2 ^ 32 - 1) % 2 ^ 32) == 0
    then align
    else next_power_of_2 align % 2 ^ 32

-- The two elements that the loop of AlignmentInfo keeps; no element is the index -1.
abbrev pub is_better : ℕ → LayoutAlignElem → Option LayoutAlignElem → Bool
is_better bit_width elem none = ltb bit_width elem.type_bit_width
is_better bit_width elem (some best) =
    ltb bit_width elem.type_bit_width && ltb elem.type_bit_width best.type_bit_width

abbrev pub is_larger : LayoutAlignElem → Option LayoutAlignElem → Bool
is_larger elem none = true
is_larger elem (some largest) = ltb largest.type_bit_width elem.type_bit_width

-- How the loop ends: with an element that is returned, or with the two that it has kept.
pub data Scanned : Type 0 where
  exact : LayoutAlignElem → Scanned
  kept : Option LayoutAlignElem → Option LayoutAlignElem → Scanned

abbrev pub both_integer : AlignType → LayoutAlignElem → Bool
both_integer align_type elem =
    align_code align_type == align_code integer_align
    && align_code elem.align_type == align_code integer_align

unfoldable pub scan_alignments :
    AlignType → ℕ → Option LayoutAlignElem → Option LayoutAlignElem → List LayoutAlignElem → Scanned
scan_alignments align_type bit_width best largest [] = kept best largest
scan_alignments align_type bit_width best largest (elem ∷ elems) =
    elim (is_for align_type bit_width elem) [
      | true ↦ exact elem
      | false ↦ elim (both_integer align_type elem) [
        | false ↦ scan_alignments align_type bit_width best largest elems
        | true ↦
            scan_alignments align_type bit_width
              (if is_better bit_width elem best then some elem else best)
              (if is_larger elem largest then some elem else largest) elems
      ]
    ]

abbrev pub align_of : Bool → LayoutAlignElem → ℕ
align_of abi_info elem = if abi_info then elem.abi_align else elem.pref_align

-- What is returned when no element fits: for a vector `vector_size`, the allocation size of its element
-- times their number in 32 bits, else the store size of the type.
abbrev from_size : Result ℕ → Result ℕ
from_size size = size >>= λ n. ok (to_power_of_2 (n % 2 ^ 32))

abbrev pub best_kept :
    AlignType → Option LayoutAlignElem → Option LayoutAlignElem → Option LayoutAlignElem
best_kept integer_align none largest = largest
best_kept align_type best largest = best

unfoldable pub alignment_info :
    List LayoutAlignElem → AlignType → ℕ → Bool → Result ℕ → Result ℕ → Result ℕ
unfolding scan_alignments to_power_of_2
alignment_info elems align_type bit_width abi_info vector_size store_size =
    elim (scan_alignments align_type bit_width none none elems) [
      | exact elem ↦ ok (align_of abi_info elem)
      | kept best largest ↦ elim (best_kept align_type best largest) [
        | some elem ↦ ok (align_of abi_info elem)
        | none ↦ elim align_type [ vector_align ↦ from_size vector_size | _ ↦ from_size store_size ]
      ]
    ]

abbrev pointer_alignment : Bool → DataLayout → ℕ → Result ℕ
pointer_alignment abi_or_pref dl addr_space =
    if abi_or_pref
    then pointer_abi_alignment addr_space dl.pointers
    else pointer_pref_alignment addr_space dl.pointers

-- TypeStoreSize and TypeAllocSize, from what TypeSizeInBits and ABITypeAlignment answer.
abbrev pub store_size_of : ℕ → ℕ
store_size_of bits = (bits + 7) % 2 ^ 64 / 8

-- A division by an alignment of 0 is undefined.
abbrev pub alloc_size_of : ℕ → ℕ → Result ℕ
alloc_size_of bits align =
    if align == 0 then fault else ok (round_up_to_alignment (store_size_of bits) align)

abbrev pub pointer_size_in_bits : DataLayout → ℕ → Result ℕ
pointer_size_in_bits dl addr_space =
    pointer_size addr_space dl.pointers >>= λ n. ok (n * 8 % 2 ^ 32)

-- No vector is ever asked for.
abbrev scalar_alignment : DataLayout → AlignType → ℕ → Bool → Result ℕ
scalar_alignment dl align_type bits abi_or_pref =
    alignment_info dl.alignments align_type (bits % 2 ^ 32) abi_or_pref fault
      (ok (store_size_of bits))

-- The members of a struct by their types, and its layout.
unfoldable mutual
  pub type_size_in_bits : DataLayout → Ty → Result ℕ
  type_size_in_bits dl label_ty = pointer_size_in_bits dl 0
  type_size_in_bits dl (pointer_ty e a) = pointer_size_in_bits dl (a % 2 ^ 24)
  type_size_in_bits dl (array_ty n e) = do
    bits ← type_size_in_bits dl e
    align ← alignment_of dl e true
    alloc ← alloc_size_of bits align
    ok (n * (alloc * 8) % 2 ^ 64)
  type_size_in_bits dl (vector_ty n e) = do
    bits ← type_size_in_bits dl e
    align ← alignment_of dl e true
    alloc ← alloc_size_of bits align
    ok (n * (alloc * 8) % 2 ^ 64)
  type_size_in_bits dl (struct_ty packed es) = members_of dl packed es >>= λ ms.
      let layout = struct_layout packed ms in ok (layout.struct_size * 8 % 2 ^ 64)
  type_size_in_bits dl (integer_ty n) = ok n
  type_size_in_bits dl half_ty = ok 16
  type_size_in_bits dl float_ty = ok 32
  type_size_in_bits dl double_ty = ok 64
  type_size_in_bits dl x86_mmx_ty = ok 64
  type_size_in_bits dl fp128_ty = ok 128
  type_size_in_bits dl ppc_fp128_ty = ok 128
  type_size_in_bits dl x86_fp80_ty = ok 80
  type_size_in_bits dl void_ty = unreachable
  type_size_in_bits dl metadata_ty = unreachable
  type_size_in_bits dl (function_ty v r ps) = unreachable

  pub alignment_of : DataLayout → Ty → Bool → Result ℕ
  alignment_of dl label_ty abi_or_pref = pointer_alignment abi_or_pref dl 0
  alignment_of dl (pointer_ty e a) abi_or_pref = pointer_alignment abi_or_pref dl (a % 2 ^ 24)
  alignment_of dl (array_ty n e) abi_or_pref = alignment_of dl e abi_or_pref
  alignment_of dl (vector_ty n e) abi_or_pref = alignment_of dl e abi_or_pref
  alignment_of dl (struct_ty true es) true = ok 1
  alignment_of dl (struct_ty packed es) abi_or_pref = members_of dl packed es >>= λ ms.
      let layout = struct_layout packed ms in
      alignment_info dl.alignments aggregate_align 0 abi_or_pref fault
        (ok (store_size_of (layout.struct_size * 8 % 2 ^ 64)))
      >>= λ align. ok (max align layout.struct_alignment)
  alignment_of dl (integer_ty n) abi_or_pref = scalar_alignment dl integer_align n abi_or_pref
  alignment_of dl half_ty abi_or_pref = scalar_alignment dl float_align 16 abi_or_pref
  alignment_of dl float_ty abi_or_pref = scalar_alignment dl float_align 32 abi_or_pref
  alignment_of dl double_ty abi_or_pref = scalar_alignment dl float_align 64 abi_or_pref
  alignment_of dl fp128_ty abi_or_pref = scalar_alignment dl float_align 128 abi_or_pref
  alignment_of dl ppc_fp128_ty abi_or_pref = scalar_alignment dl float_align 128 abi_or_pref
  alignment_of dl x86_fp80_ty abi_or_pref = scalar_alignment dl float_align 80 abi_or_pref
  alignment_of dl x86_mmx_ty abi_or_pref = fault
  alignment_of dl void_ty abi_or_pref = unreachable
  alignment_of dl metadata_ty abi_or_pref = unreachable
  alignment_of dl (function_ty v r ps) abi_or_pref = unreachable

  pub members_of : DataLayout → Bool → Types → Result (List Member)
  members_of dl packed no_types = ok []
  members_of dl packed (and_type t ts) = do
    align ← alignment_of dl t true
    bits ← type_size_in_bits dl t
    alloc ← alloc_size_of bits align
    ms ← members_of dl packed ts
    ok (record { abi_align = align; alloc_size = alloc } ∷ ms)
