-- ===== src/DataLayout/Sizes/Tests.antt =====
-- Runs of the code of Src/DataLayout.cpp on the sizes of types.
use dilithium.Base.{ℕ, ◌≡◌, refl, List, [], ◌∷◌, true, false}
use dilithium.Types.{
  Types, integer_ty, struct_ty, array_ty, vector_ty, x86_fp80_ty, x86_mmx_ty, void_ty, and_type,
  no_types, half_ty,
}
use dilithium.DataLayout.{
  ok, unreachable, fault, LayoutAlignElem, DataLayout, integer_align, mm_none,
}
use dilithium.Layout.{struct_layout, round_up_to_alignment}
use dilithium.DataLayout.Specifier.{reset}
use dilithium.DataLayout.Sizes.{alignment_info, align_of, alignment_of, type_size_in_bits}
use dilithium.DataLayout.Sizes.Closest.{IsClosest, alignment_info-IsClosest}

abbrev made : DataLayout
made = elim (reset []) [
  | ok dl ↦ dl
  | _ ↦ record {
    big_endian = false;
    stack_natural_align = 0;
    mangling_mode = mm_none;
    legal_int_widths = [];
    alignments = [];
    string_representation = [];
    pointers = [];
  }
]

abbrev an_elem : ℕ → ℕ → LayoutAlignElem
an_elem w a = record {
  align_type = integer_align;
  type_bit_width = w;
  abi_align = a;
  pref_align = a;
}

abbrev elems : List LayoutAlignElem
elems = an_elem 64 8 ∷ an_elem 8 1 ∷ an_elem 32 4 ∷ []

i24_runs : alignment_of made (integer_ty 24) true ≡ ok 4
unfolding alignment_of alignment_info reset
i24_runs = refl

i128_runs : alignment_of made (integer_ty 128) true ≡ ok 4
unfolding alignment_of alignment_info reset
i128_runs = refl

fp80_runs : alignment_of made x86_fp80_ty true ≡ ok 16
unfolding alignment_of alignment_info reset
fp80_runs = refl

mmx_runs : alignment_of made x86_mmx_ty true ≡ fault
unfolding alignment_of
mmx_runs = refl

void_runs : type_size_in_bits made void_ty ≡ unreachable
unfolding type_size_in_bits
void_runs = refl

-- {i8, i32}, and the same packed
abbrev byte_and_word : Types
byte_and_word = and_type (integer_ty 8) (and_type (integer_ty 32) no_types)

struct_runs : type_size_in_bits made (struct_ty false byte_and_word) ≡ ok 64
unfolding type_size_in_bits alignment_info reset struct_layout round_up_to_alignment
struct_runs = refl

packed_runs : type_size_in_bits made (struct_ty true byte_and_word) ≡ ok 40
unfolding type_size_in_bits alignment_info reset struct_layout round_up_to_alignment
packed_runs = refl

array_runs : type_size_in_bits made (array_ty 3 (integer_ty 24)) ≡ ok 96
unfolding type_size_in_bits alignment_info reset struct_layout round_up_to_alignment
array_runs = refl

-- The table has an alignment of 16 for vectors of 128 bits, which is not read.
vector_runs : alignment_of made (vector_ty 8 half_ty) true ≡ ok 2
unfolding alignment_of alignment_info reset
vector_runs = refl

alignment_info-IsClosest_example :
    (e : LayoutAlignElem) × IsClosest 24 elems e
    × (alignment_info elems integer_align 24 true fault (ok 3) ≡ ok (align_of true e))
alignment_info-IsClosest_example =
    alignment_info-IsClosest 24 elems (an_elem 8 1) (1, refl) refl true fault (ok 3)
