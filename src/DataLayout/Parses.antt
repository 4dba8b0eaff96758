-- ===== src/DataLayout/Parses.antt =====
-- The cases of ParseSpecifier of Src/DataLayout.cpp on well-formed tables.
use dilithium.Base.{ℕ, zero, suc, ◌%◌, ◌^◌, ◌≤◌, ◌<◌, ◌≡◌, refl, arith, length}
use dilithium.Base.{Bool, true, false, not, ◌&&◌, if◌then◌else◌, ◌==◌, List, [], ◌∷◌, ◌++◌}
use dilithium.DataLayout.{
  Result, ok, ◌>>=◌, is_power_of_two, is_uint, align_code, AlignType, DataLayout,
}
use dilithium.DataLayout.{set_alignment, set_pointer_alignment}
use dilithium.DataLayout.{integer_align, vector_align, float_align, aggregate_align}
use dilithium.DataLayout.{unreachable}
use dilithium.DataLayout.{
  address_space_not_24_bits, missing_pointer_size, zero_pointer_size, missing_pointer_alignment,
}
use dilithium.DataLayout.{pointer_abi_not_power_of_2, sized_aggregate, missing_alignment}
use dilithium.DataLayout.{zero_abi_alignment, zero_native_width}
use dilithium.DataLayout.Words.{is_empty, to_int}
use dilithium.DataLayout.Specifier.{
  bytes_of, int_or_zero, pointer_pref, parse_pointer, type_pref, parse_alignment, parse_widths,
  mangling_of, parse_mangling, parse_specifier_of, parse_token, parse_tokens,
}
use dilithium.DataLayout.Outcomes.{Ensures, Ensures-bind, Ensures-ok}
use dilithium.DataLayout.Splits.{Is32Bit, to_int-Ensures, bytes_of-Ensures, int_or_zero-Ensures}
use dilithium.DataLayout.Tables.{IsTable, IsPointerTable, set_pointer_alignment-Ensures}
use dilithium.DataLayout.Entering.{set_alignment-Ensures}
use dilithium.DataLayout.WellFormed.{
  IsWellFormed, IsAny, IsPower, after_check, after_split, after_number, IsPower-of_not,
  pointer_pref-Ensures, with_pointers, with_mangling, Ensures-IsAny, with_alignments,
}

parse_pointer-Ensures :
    (tok rest : List ℕ) (dl : DataLayout)
    → IsWellFormed dl
    → Ensures IsWellFormed (parse_pointer tok rest dl)
unfolding parse_pointer IsPower
parse_pointer-Ensures tok rest dl ok_dl =
    Ensures-bind Is32Bit IsWellFormed (int_or_zero tok) _ (int_or_zero-Ensures tok) (λ addr_space _.
      after_check IsWellFormed (not (is_uint 24 addr_space)) address_space_not_24_bits _ (λ _.
        after_check IsWellFormed (is_empty rest) missing_pointer_size _ (λ more.
          after_split IsWellFormed 58 rest _ more (λ t s. after_number IsWellFormed t.0 _ (λ size.
            after_check IsWellFormed (size == 0) zero_pointer_size _ (λ _.
              after_check IsWellFormed (is_empty t.1) missing_pointer_alignment _ (λ more'.
                after_split IsWellFormed 58 t.1 _ more' (λ t' s'.
                  after_number IsWellFormed t'.0 _ (λ abi.
                    after_check IsWellFormed (not (is_power_of_two abi)) pointer_abi_not_power_of_2
                      _
                      (λ power.
                        Ensures-bind IsPower IsWellFormed (pointer_pref abi t'.1) _
                          (pointer_pref-Ensures abi t'.1 (IsPower-of_not abi power))
                          (λ pref pref_power.
                            Ensures-bind IsPointerTable IsWellFormed
                              (set_pointer_alignment addr_space abi pref size dl.pointers) _
                              (set_pointer_alignment-Ensures addr_space abi pref size dl.pointers
                                (IsPower-of_not abi power) pref_power ok_dl.pointer_table)
                              (λ pointers table.
                                Ensures-ok IsWellFormed (record dl { pointers = pointers })
                                  (with_pointers dl pointers ok_dl table)))))))))))))

type_pref-Ensures : (abi : ℕ) (rest : List ℕ) → Ensures IsAny (type_pref abi rest)
unfolding type_pref
type_pref-Ensures abi [] = Ensures-ok IsAny abi tt
type_pref-Ensures abi (c ∷ cs) =
    after_split IsAny 58 (c ∷ cs) _ refl
      (λ t s. Ensures-IsAny Is32Bit (bytes_of t.0) (bytes_of-Ensures t.0))

parse_alignment-Ensures :
    (align_type : AlignType) (tok rest : List ℕ) (dl : DataLayout)
    → IsWellFormed dl
    → Ensures IsWellFormed (parse_alignment align_type tok rest dl)
unfolding parse_alignment
parse_alignment-Ensures align_type tok rest dl ok_dl =
    Ensures-bind Is32Bit IsWellFormed (int_or_zero tok) _ (int_or_zero-Ensures tok) (λ size _.
      after_check IsWellFormed (align_code align_type == 97 && not (size == 0)) sized_aggregate _
        (λ _. after_check IsWellFormed (is_empty rest) missing_alignment _ (λ more.
          after_split IsWellFormed 58 rest _ more (λ t s. after_number IsWellFormed t.0 _ (λ abi.
            after_check IsWellFormed (not (align_code align_type == 97) && abi == 0)
              zero_abi_alignment _
              (λ _.
                Ensures-bind IsAny IsWellFormed (type_pref abi t.1) _ (type_pref-Ensures abi t.1)
                  (λ pref _.
                    Ensures-bind IsTable IsWellFormed
                      (set_alignment align_type abi pref size dl.alignments) _
                      (set_alignment-Ensures align_type abi pref size dl.alignments ok_dl.table)
                      (λ alignments table.
                        Ensures-ok IsWellFormed (record dl { alignments = alignments })
                          (with_alignments dl alignments ok_dl table)))))))))

-- A round of the loop for each text that is left, and one for the first.
parse_widths-Ensures :
    (fuel : ℕ) (tok rest widths : List ℕ)
    → length rest < fuel
    → Ensures IsAny (parse_widths fuel tok rest widths)
unfolding parse_widths
parse_widths-Ensures zero tok rest widths h = absurd (omega arith)
parse_widths-Ensures (suc fuel) tok [] widths h =
    Ensures-bind Is32Bit IsAny (to_int tok) _ (to_int-Ensures tok)
      (λ width _. after_check IsAny (width == 0) zero_native_width _ (λ _. Ensures-ok IsAny _ tt))
parse_widths-Ensures (suc fuel) tok (c ∷ cs) widths h =
    Ensures-bind Is32Bit IsAny (to_int tok) _ (to_int-Ensures tok) (λ width _.
      after_check IsAny (width == 0) zero_native_width _ (λ _.
        after_split IsAny 58 (c ∷ cs) _ refl (λ t s.
          parse_widths-Ensures fuel t.0 t.1 (widths ++ width % 2 ^ 8 ∷ []) (omega (arith, s.1)))))

mangling_of-Ensures : (c : ℕ) → Ensures IsAny (mangling_of c)
unfolding mangling_of Ensures
mangling_of-Ensures c = ground arith

parse_mangling-Ensures :
    (tok rest : List ℕ) (dl : DataLayout)
    → IsWellFormed dl
    → Ensures IsWellFormed (parse_mangling tok rest dl)
unfolding parse_mangling Ensures
parse_mangling-Ensures (c ∷ cs) rest dl ok_dl = tt
parse_mangling-Ensures [] [] dl ok_dl = tt
parse_mangling-Ensures [] (c ∷ d ∷ cs) dl ok_dl = tt
parse_mangling-Ensures [] (c ∷ []) dl ok_dl =
    Ensures-bind IsAny IsWellFormed (mangling_of c) _ (mangling_of-Ensures c)
      (λ mode _. with_mangling dl mode ok_dl)

either {ℓ} :
    {A : Type ℓ} (P : A → Type 0) (b : Bool) (x y : Result A)
    → Ensures P x
    → Ensures P y
    → Ensures P (if b then x else y)
either P true x y h k = h
either P false x y h k = k

with_widths :
    (dl : DataLayout) (widths : List ℕ)
    → IsWellFormed dl
    → IsWellFormed (record dl { legal_int_widths = widths })
with_widths dl widths ok_dl = record { table = ok_dl.table; pointer_table = ok_dl.pointer_table }

with_endian :
    (dl : DataLayout) (big : Bool) → IsWellFormed dl → IsWellFormed (record dl { big_endian = big })
with_endian dl big ok_dl = record { table = ok_dl.table; pointer_table = ok_dl.pointer_table }

with_stack :
    (dl : DataLayout) (align : ℕ)
    → IsWellFormed dl
    → IsWellFormed (record dl { stack_natural_align = align })
with_stack dl align ok_dl = record { table = ok_dl.table; pointer_table = ok_dl.pointer_table }

pub with_text :
    (dl : DataLayout) (desc : List ℕ)
    → IsWellFormed dl
    → IsWellFormed (record dl { string_representation = desc })
with_text dl desc ok_dl = record { table = ok_dl.table; pointer_table = ok_dl.pointer_table }

widths-Ensures :
    (tok rest : List ℕ) (dl : DataLayout)
    → IsWellFormed dl
    → Ensures IsWellFormed (
        parse_widths (suc (length rest)) tok rest dl.legal_int_widths >>= λ widths.
        ok (record dl { legal_int_widths = widths }))
widths-Ensures tok rest dl ok_dl =
    Ensures-bind IsAny IsWellFormed (parse_widths (suc (length rest)) tok rest dl.legal_int_widths)
      _ (parse_widths-Ensures (suc (length rest)) tok rest dl.legal_int_widths (omega arith))
      (λ widths _.
        Ensures-ok IsWellFormed (record dl { legal_int_widths = widths })
          (with_widths dl widths ok_dl))

stack-Ensures :
    (tok : List ℕ) (dl : DataLayout)
    → IsWellFormed dl
    → Ensures IsWellFormed
        (bytes_of tok >>= λ align. ok (record dl { stack_natural_align = align }))
stack-Ensures tok dl ok_dl = after_number IsWellFormed tok _ (λ align.
    Ensures-ok IsWellFormed (record dl { stack_natural_align = align }) (with_stack dl align ok_dl))

Ensures-unreachable {ℓ} : {A : Type ℓ} (P : A → Type 0) → Ensures P unreachable
unfolding Ensures
Ensures-unreachable P = tt

parse_specifier_of-Ensures :
    (specifier : ℕ) (tok rest : List ℕ) (dl : DataLayout)
    → IsWellFormed dl
    → Ensures IsWellFormed (parse_specifier_of specifier tok rest dl)
unfolding parse_specifier_of
parse_specifier_of-Ensures c tok rest dl ok_dl =
    let P = IsWellFormed in
    either P (c == 115) _ _ (Ensures-ok P dl ok_dl) (
      either P (c == 69) _ _
        (Ensures-ok P (record dl { big_endian = true }) (with_endian dl true ok_dl))
        (either P (c == 101) _ _
          (Ensures-ok P (record dl { big_endian = false }) (with_endian dl false ok_dl))
          (either P (c == 112) _ _ (parse_pointer-Ensures tok rest dl ok_dl) (
            either P (c == 105) _ _ (parse_alignment-Ensures integer_align tok rest dl ok_dl) (
              either P (c == 118) _ _ (parse_alignment-Ensures vector_align tok rest dl ok_dl) (
                either P (c == 102) _ _ (parse_alignment-Ensures float_align tok rest dl ok_dl) (
                  either P (c == 97) _ _ (parse_alignment-Ensures aggregate_align tok rest dl ok_dl)
                    (either P (c == 110) _ _ (widths-Ensures tok rest dl ok_dl) (
                      either P (c == 83) _ _ (stack-Ensures tok dl ok_dl) (
                        either P (c == 109) _ _ (parse_mangling-Ensures tok rest dl ok_dl)
                          (Ensures-unreachable P)))))))))))

parse_token-Ensures :
    (t : List ℕ × List ℕ) (dl : DataLayout)
    → is_empty t.0 ≡ false
    → IsWellFormed dl
    → Ensures IsWellFormed (parse_token t dl)
unfolding parse_token
parse_token-Ensures ([], rest) dl h ok_dl = absurd (ground (arith, h))
parse_token-Ensures (c ∷ tok, rest) dl h ok_dl = parse_specifier_of-Ensures c tok rest dl ok_dl

pub parse_tokens-Ensures :
    (fuel : ℕ) (desc : List ℕ) (dl : DataLayout)
    → length desc ≤ fuel
    → IsWellFormed dl
    → Ensures IsWellFormed (parse_tokens fuel desc dl)
unfolding parse_tokens
parse_tokens-Ensures fuel [] dl h ok_dl = Ensures-ok IsWellFormed dl ok_dl
parse_tokens-Ensures zero (c ∷ cs) dl h ok_dl = absurd (omega (arith, h))
parse_tokens-Ensures (suc fuel) (c ∷ cs) dl h ok_dl =
    after_split IsWellFormed 45 (c ∷ cs) _ refl (λ t s.
      after_split IsWellFormed 58 t.0 _ s.0 (λ token s'.
        Ensures-bind IsWellFormed IsWellFormed (parse_token token dl) _
          (parse_token-Ensures token dl s'.0 ok_dl)
          (λ dl' ok_dl'. parse_tokens-Ensures fuel t.1 dl' (omega (arith, h, s.1)) ok_dl')))
