-- ===== src/DataLayout/Specifier.antt =====
-- ParseSpecifier and Reset of Src/DataLayout.cpp. The separators '-' and ':' are 45 and 58.
use dilithium.Base.{ℕ, zero, suc, ◌%◌, ◌^◌, length}
use dilithium.Base.{true, false, not, ◌&&◌, if◌then◌else◌, ◌==◌, List, [], ◌∷◌, ◌++◌}
use dilithium.DataLayout.{
  Result, ok, error, unreachable, fault, out_of_fuel, ◌>>=◌, ◌>>◌, error_if, is_uint,
}
use dilithium.DataLayout.{
  DataLayout, AlignType, integer_align, vector_align, float_align, aggregate_align, LayoutAlignElem,
}
use dilithium.DataLayout.{
  Mangling, mm_none, mm_elf, mm_mach_o, mm_win_coff, mm_win_coff_x86, mm_mips,
}
use dilithium.DataLayout.{set_alignment, set_pointer_alignment, is_power_of_two, align_code}
use dilithium.DataLayout.{
  address_space_not_24_bits, missing_pointer_size, zero_pointer_size, missing_pointer_alignment,
}
use dilithium.DataLayout.{
  pointer_abi_not_power_of_2, pointer_pref_not_power_of_2, sized_aggregate, missing_alignment,
}
use dilithium.DataLayout.{
  zero_abi_alignment, zero_native_width, trailing_mangling, missing_mangling,
  unknown_mangling_specifier, unknown_mangling,
}
use dilithium.DataLayout.Words.{is_empty, split, to_int, in_bytes}

-- InBytes(ToInt(tok))
unfoldable pub bytes_of : List ℕ → Result ℕ
unfolding to_int in_bytes
bytes_of tok = to_int tok >>= in_bytes

-- tok.empty() ? 0 : ToInt(tok)
unfoldable pub int_or_zero : List ℕ → Result ℕ
unfolding to_int
int_or_zero tok = if is_empty tok then ok 0 else to_int tok

unfoldable pub pointer_pref : ℕ → List ℕ → Result ℕ
unfolding split bytes_of
pointer_pref abi_align [] = ok abi_align
pointer_pref abi_align (c ∷ cs) = do
  (tok, _) ← split 58 (c ∷ cs)
  pref_align ← bytes_of tok
  error_if (not (is_power_of_two pref_align)) pointer_pref_not_power_of_2
  ok pref_align

-- case 'p'
unfoldable pub parse_pointer : List ℕ → List ℕ → DataLayout → Result DataLayout
unfolding int_or_zero split bytes_of pointer_pref set_pointer_alignment
parse_pointer tok rest dl = do
  addr_space ← int_or_zero tok
  error_if (not (is_uint 24 addr_space)) address_space_not_24_bits
  error_if (is_empty rest) missing_pointer_size
  (size, after_size) ← split 58 rest
  pointer_mem_size ← bytes_of size
  error_if (pointer_mem_size == 0) zero_pointer_size
  error_if (is_empty after_size) missing_pointer_alignment
  (align, after_align) ← split 58 after_size
  abi_align ← bytes_of align
  error_if (not (is_power_of_two abi_align)) pointer_abi_not_power_of_2
  pref_align ← pointer_pref abi_align after_align
  pointers ← set_pointer_alignment addr_space abi_align pref_align pointer_mem_size dl.pointers
  ok (record dl { pointers = pointers })

unfoldable pub type_pref : ℕ → List ℕ → Result ℕ
unfolding split bytes_of
type_pref abi_align [] = ok abi_align
type_pref abi_align (c ∷ cs) = split 58 (c ∷ cs) >>= λ s. bytes_of s.0

-- cases 'i', 'v', 'f' and 'a'
unfoldable pub parse_alignment : AlignType → List ℕ → List ℕ → DataLayout → Result DataLayout
unfolding int_or_zero split bytes_of type_pref set_alignment
parse_alignment align_type tok rest dl = do
  size ← int_or_zero tok
  error_if (align_code align_type == 97 && not (size == 0)) sized_aggregate
  error_if (is_empty rest) missing_alignment
  (align, after_align) ← split 58 rest
  abi_align ← bytes_of align
  error_if (not (align_code align_type == 97) && abi_align == 0) zero_abi_alignment
  pref_align ← type_pref abi_align after_align
  alignments ← set_alignment align_type abi_align pref_align size dl.alignments
  ok (record dl { alignments = alignments })

-- case 'n', whose loop takes one text in each round; the widths are kept in a byte.
unfoldable pub parse_widths : ℕ → List ℕ → List ℕ → List ℕ → Result (List ℕ)
unfolding to_int split
parse_widths zero tok rest widths = out_of_fuel
parse_widths (suc fuel) tok rest widths = do
  width ← to_int tok
  error_if (width == 0) zero_native_width
  let widths' = widths ++ width % 2 ^ 8 ∷ []
  elim rest [
    | [] ↦ ok widths'
    | c ∷ cs ↦ split 58 (c ∷ cs) >>= λ s. parse_widths fuel s.0 s.1 widths'
  ]

unfoldable pub mangling_of : ℕ → Result Mangling
mangling_of c =
    if c == 101
    then ok mm_elf
    else if c == 111
    then ok mm_mach_o
    else if c == 109
    then ok mm_mips
    else if c == 119
    then ok mm_win_coff
    else if c == 120
    then ok mm_win_coff_x86
    else error unknown_mangling

-- case 'm'
unfoldable pub parse_mangling : List ℕ → List ℕ → DataLayout → Result DataLayout
unfolding mangling_of
parse_mangling (c ∷ cs) rest dl = error trailing_mangling
parse_mangling [] [] dl = error missing_mangling
parse_mangling [] (c ∷ d ∷ cs) dl = error unknown_mangling_specifier
parse_mangling [] (c ∷ []) dl = mangling_of c >>= λ mode. ok (record dl { mangling_mode = mode })

-- The switch on the specifier, the first byte of a token.
unfoldable pub parse_specifier_of : ℕ → List ℕ → List ℕ → DataLayout → Result DataLayout
unfolding parse_pointer parse_alignment parse_widths parse_mangling bytes_of
parse_specifier_of specifier tok rest dl =
    if specifier == 115
    then ok dl
    else if specifier == 69
    then ok (record dl { big_endian = true })
    else if specifier == 101
    then ok (record dl { big_endian = false })
    else if specifier == 112
    then parse_pointer tok rest dl
    else if specifier == 105
    then parse_alignment integer_align tok rest dl
    else if specifier == 118
    then parse_alignment vector_align tok rest dl
    else if specifier == 102
    then parse_alignment float_align tok rest dl
    else if specifier == 97
    then parse_alignment aggregate_align tok rest dl
    else if specifier == 110
    then (parse_widths (suc (length rest)) tok rest dl.legal_int_widths >>= λ widths.
        ok (record dl { legal_int_widths = widths }))
    else if specifier == 83
    then (bytes_of tok >>= λ align. ok (record dl { stack_natural_align = align }))
    else if specifier == 109
    then parse_mangling tok rest dl
    else unreachable

-- One round of the loop, on the text before a '-'; the front of an empty token is not there.
unfoldable pub parse_token : List ℕ × List ℕ → DataLayout → Result DataLayout
unfolding parse_specifier_of
parse_token ([], rest) dl = fault
parse_token (specifier ∷ tok, rest) dl = parse_specifier_of specifier tok rest dl

-- The loop of ParseSpecifier.
unfoldable pub parse_tokens : ℕ → List ℕ → DataLayout → Result DataLayout
unfolding split parse_token
parse_tokens fuel [] dl = ok dl
parse_tokens zero (c ∷ cs) dl = out_of_fuel
parse_tokens (suc fuel) (c ∷ cs) dl = do
  (first, desc) ← split 45 (c ∷ cs)
  token ← split 58 first
  dl' ← parse_token token dl
  parse_tokens fuel desc dl'

-- Each round takes a byte at least.
unfoldable pub parse_specifier : List ℕ → DataLayout → Result DataLayout
unfolding parse_tokens
parse_specifier desc dl =
    parse_tokens (length desc) desc (record dl { string_representation = desc })

abbrev pub DefaultAlignment : Type 0
DefaultAlignment = AlignType × ℕ × ℕ × ℕ

-- The type, its width in bits, the ABI alignment and the preferred one.
abbrev pub default_alignments : List DefaultAlignment
default_alignments =
    (integer_align, 1, 1, 1)
    ∷ (integer_align, 8, 1, 1)
    ∷ (integer_align, 16, 2, 2)
    ∷ (integer_align, 32, 4, 4)
    ∷ (integer_align, 64, 4, 8)
    ∷ (float_align, 16, 2, 2)
    ∷ (float_align, 32, 4, 4)
    ∷ (float_align, 64, 8, 8)
    ∷ (float_align, 128, 16, 16)
    ∷ (vector_align, 64, 8, 8)
    ∷ (vector_align, 128, 16, 16)
    ∷ (aggregate_align, 0, 0, 8)
    ∷ []

-- The loop of Reset.
unfoldable pub set_alignments :
    List DefaultAlignment → List LayoutAlignElem → Result (List LayoutAlignElem)
unfolding set_alignment
set_alignments [] elems = ok elems
set_alignments ((align_type, bit_width, abi_align, pref_align) ∷ rest) elems =
    set_alignment align_type abi_align pref_align bit_width elems >>= set_alignments rest

-- Reset, which the constructor calls.
unfoldable pub reset : List ℕ → Result DataLayout
unfolding set_alignments set_pointer_alignment parse_specifier
reset desc = do
  alignments ← set_alignments default_alignments []
  pointers ← set_pointer_alignment 0 8 8 8 []
  parse_specifier desc (record {
    big_endian = false;
    stack_natural_align = 0;
    mangling_mode = mm_none;
    legal_int_widths = [];
    alignments = alignments;
    string_representation = [];
    pointers = pointers;
  })
