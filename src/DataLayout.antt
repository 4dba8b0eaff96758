-- ===== src/DataLayout.antt =====
-- DataLayout of Src/DataLayout.cpp and Include/Dilithium/DataLayout.hpp: its tables of alignments.
pub mod Words
pub mod Sizes
pub mod Specifier
pub mod Outcomes
pub mod Splits
pub mod Tables
pub mod Pointers
pub mod Alignments
pub mod Entering
pub mod WellFormed
pub mod Parses
pub mod Starting
mod Tests
use dilithium.Base.{ℕ, zero, suc, ◌+◌, ◌-◌, ◌*◌, ◌/◌, ◌%◌, ◌^◌, bit_and}
use dilithium.Base.{
  Bool, true, false, not, ◌&&◌, ◌||◌, if◌then◌else◌, ltb, leb, ◌==◌, Option, none, some, List, [],
  ◌∷◌,
}

-- The exceptions: those of TERROR by their messages, and the two of std::stoi.
pub data Failure : Type 0 where
  bit_width_not_24_bits abi_not_16_bits pref_not_16_bits abi_not_power_of_2 : Failure
  pref_not_power_of_2 pref_below_abi not_byte_multiple trailing_separator missing_token : Failure
  address_space_not_24_bits missing_pointer_size zero_pointer_size : Failure
  missing_pointer_alignment pointer_abi_not_power_of_2 pointer_pref_not_power_of_2 : Failure
  sized_aggregate missing_alignment zero_abi_alignment zero_native_width : Failure
  trailing_mangling missing_mangling unknown_mangling_specifier unknown_mangling : Failure
  invalid_argument out_of_range : Failure

-- `unreachable` is DILITHIUM_UNREACHABLE; `fault` is an assertion that fails, or a read outside of a
-- text or a table.
pub data Result {ℓ} (A : Type ℓ) : Type ℓ where
  ok : A → Result A
  error : Failure → Result A
  unreachable fault out_of_fuel : Result A

infixl 5 ◌>>=◌ ◌>>◌
abbrev pub ◌>>=◌ {ℓ κ} : {A : Type ℓ} {B : Type κ} → Result A → (A → Result B) → Result B
ok a >>= f = f a
error e >>= f = error e
unreachable >>= f = unreachable
fault >>= f = fault
out_of_fuel >>= f = out_of_fuel

abbrev pub ◌>>◌ {κ} : {B : Type κ} → Result (Unit {0}) → Result B → Result B
m >> n = m >>= λ _. n

-- if (b) TERROR(...)
abbrev pub error_if : Bool → Failure → Result (Unit {0})
error_if b e = if b then error e else ok tt

-- AlignTypeEnum
pub data AlignType : Type 0 where
  integer_align vector_align float_align aggregate_align : AlignType

abbrev pub align_code : AlignType → ℕ
align_code integer_align = 105
align_code vector_align = 118
align_code float_align = 102
align_code aggregate_align = 97

pub record LayoutAlignElem : Type 0 where
  pub align_type : AlignType
  pub type_bit_width : ℕ
  pub abi_align : ℕ
  pub pref_align : ℕ

pub record PointerAlignElem : Type 0 where
  pub addr_space : ℕ
  pub abi : ℕ
  pub pref : ℕ
  pub type_byte_width : ℕ

-- ManglingMode
pub data Mangling : Type 0 where
  mm_none mm_elf mm_mach_o mm_win_coff mm_win_coff_x86 mm_mips : Mangling

-- The fields of DataLayout, less its cache of struct layouts.
pub record DataLayout : Type 0 where
  pub big_endian : Bool
  pub stack_natural_align : ℕ
  pub mangling_mode : Mangling
  pub legal_int_widths : List ℕ
  pub alignments : List LayoutAlignElem
  pub string_representation : List ℕ
  pub pointers : List PointerAlignElem

abbrev pub is_uint : ℕ → ℕ → Bool
is_uint n val = leb 64 n || ltb val (2 ^ n)

-- IsPowerOfTwo64
unfoldable pub is_power_of_two : ℕ → Bool
is_power_of_two val = not (val == 0) && bit_and val ((val + 2 ^ 64 - 1) % 2 ^ 64) == 0

-- LayoutAlignElem::Get
unfoldable pub get_layout_elem : AlignType → ℕ → ℕ → ℕ → Result LayoutAlignElem
get_layout_elem align_type abi_align pref_align bit_width =
    if leb abi_align pref_align
    then ok (record {
      align_type = align_type;
      type_bit_width = bit_width;
      abi_align = abi_align;
      pref_align = pref_align;
    })
    else fault

-- The element for a type and a width, as the loops look it up.
abbrev pub is_for : AlignType → ℕ → LayoutAlignElem → Bool
is_for align_type bit_width elem =
    align_code elem.align_type == align_code align_type && elem.type_bit_width == bit_width

-- The loop of Alignment, and the element that is added behind it.
unfoldable pub set_alignment_in :
    AlignType → ℕ → ℕ → ℕ → List LayoutAlignElem → Result (List LayoutAlignElem)
unfolding get_layout_elem
set_alignment_in align_type abi_align pref_align bit_width [] =
    get_layout_elem align_type abi_align pref_align bit_width >>= λ elem. ok (elem ∷ [])
set_alignment_in align_type abi_align pref_align bit_width (elem ∷ elems) =
    elim (is_for align_type bit_width elem) [
      | true ↦ ok (record elem { abi_align = abi_align; pref_align = pref_align } ∷ elems)
      | false ↦ set_alignment_in align_type abi_align pref_align bit_width elems >>= λ rest.
          ok (elem ∷ rest)
    ]

-- Alignment(align_type, abi_align, pref_align, bit_width)
unfoldable pub set_alignment :
    AlignType → ℕ → ℕ → ℕ → List LayoutAlignElem → Result (List LayoutAlignElem)
unfolding is_power_of_two set_alignment_in
set_alignment align_type abi_align pref_align bit_width elems = do
  error_if (not (is_uint 24 bit_width)) bit_width_not_24_bits
  error_if (not (is_uint 16 abi_align)) abi_not_16_bits
  error_if (not (is_uint 16 pref_align)) pref_not_16_bits
  error_if (not (abi_align == 0) && not (is_power_of_two abi_align)) abi_not_power_of_2
  error_if (not (pref_align == 0) && not (is_power_of_two pref_align)) pref_not_power_of_2
  error_if (ltb pref_align abi_align) pref_below_abi
  set_alignment_in align_type abi_align pref_align bit_width elems

-- PointerAlignElem::Get
unfoldable pub get_pointer_elem : ℕ → ℕ → ℕ → ℕ → Result PointerAlignElem
get_pointer_elem addr_space abi_align pref_align type_byte_width =
    if leb abi_align pref_align
    then ok (record {
      addr_space = addr_space;
      abi = abi_align;
      pref = pref_align;
      type_byte_width = type_byte_width;
    })
    else fault

-- FindPointerLowerBound: the elements from the first on whose address space is not smaller; the
-- table is in order.
unfoldable pub find_pointer_lower_bound : ℕ → List PointerAlignElem → List PointerAlignElem
find_pointer_lower_bound addr_space [] = []
find_pointer_lower_bound addr_space (elem ∷ elems) = elim (ltb elem.addr_space addr_space) [
  | true ↦ find_pointer_lower_bound addr_space elems
  | false ↦ elem ∷ elems
]

-- What PointerAlignment does at that position, after the elements before it.
unfoldable pub set_pointer_in : PointerAlignElem → List PointerAlignElem → List PointerAlignElem
set_pointer_in new [] = new ∷ []
set_pointer_in new (elem ∷ elems) = elim (ltb elem.addr_space new.addr_space) [
  | true ↦ elem ∷ set_pointer_in new elems
  | false ↦ if elem.addr_space == new.addr_space then new ∷ elems else new ∷ elem ∷ elems
]

-- PointerAlignment
unfoldable pub set_pointer_alignment :
    ℕ → ℕ → ℕ → ℕ → List PointerAlignElem → Result (List PointerAlignElem)
unfolding get_pointer_elem set_pointer_in
set_pointer_alignment addr_space abi_align pref_align type_byte_width elems = do
  error_if (ltb pref_align abi_align) pref_below_abi
  new ← get_pointer_elem addr_space abi_align pref_align type_byte_width
  ok (set_pointer_in new elems)

-- PointerABIAlignment, PointerPrefAlignment and PointerSize, by the field that they return.
unfoldable pub find_pointer : ℕ → List PointerAlignElem → Result PointerAlignElem
unfolding find_pointer_lower_bound
find_pointer addr_space elems =
    let default : Result PointerAlignElem = elim (find_pointer_lower_bound 0 elems) [
      | [] ↦ fault
      | elem ∷ _ ↦ if elem.addr_space == 0 then ok elem else fault
    ] in
    elim (find_pointer_lower_bound addr_space elems) [
      | [] ↦ default
      | elem ∷ _ ↦ if elem.addr_space == addr_space then ok elem else default
    ]

unfoldable pub pointer_abi_alignment : ℕ → List PointerAlignElem → Result ℕ
unfolding find_pointer
pointer_abi_alignment addr_space elems = find_pointer addr_space elems >>= λ elem. ok elem.abi

unfoldable pub pointer_pref_alignment : ℕ → List PointerAlignElem → Result ℕ
unfolding find_pointer
pointer_pref_alignment addr_space elems = find_pointer addr_space elems >>= λ elem. ok elem.pref

unfoldable pub pointer_size : ℕ → List PointerAlignElem → Result ℕ
unfolding find_pointer
pointer_size addr_space elems = find_pointer addr_space elems >>= λ elem. ok elem.type_byte_width
