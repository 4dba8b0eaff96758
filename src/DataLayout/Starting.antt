-- ===== src/DataLayout/Starting.antt =====
-- Reset of Src/DataLayout.cpp, which the constructor calls.
use dilithium.Base.{ℕ, ◌≡◌, refl, subst, arith, length, List, [], ◌∷◌, false}
use dilithium.DataLayout.{
  ok, DataLayout, LayoutAlignElem, PointerAlignElem, set_alignment, set_pointer_alignment,
  find_pointer, mm_none, is_power_of_two,
}
use dilithium.DataLayout.Specifier.{
  DefaultAlignment, default_alignments, set_alignments, parse_specifier, reset,
}
use dilithium.DataLayout.Outcomes.{Ensures, Ensures-bind, Ensures-ok}
use dilithium.DataLayout.Tables.{IsTable, IsPointerTable}
use dilithium.DataLayout.Pointers.{find_pointer-some}
use dilithium.DataLayout.Entering.{set_alignment-Ensures}
use dilithium.DataLayout.WellFormed.{IsWellFormed}
use dilithium.DataLayout.Parses.{parse_tokens-Ensures, with_text}

set_alignments-Ensures :
    (ds : List DefaultAlignment) (es : List LayoutAlignElem)
    → IsTable es
    → Ensures IsTable (set_alignments ds es)
unfolding set_alignments
set_alignments-Ensures [] es table = Ensures-ok IsTable es table
set_alignments-Ensures ((t, w, a, p) ∷ ds) es table =
    Ensures-bind IsTable IsTable (set_alignment t a p w es) _
      (set_alignment-Ensures t a p w es table) (λ es' table'. set_alignments-Ensures ds es' table')

first_pointer : Ensures IsPointerTable (set_pointer_alignment 0 8 8 8 [])
unfolding Ensures set_pointer_alignment is_power_of_two
first_pointer = (refl, record { in_order = omega arith; abi_power = refl; pref_power = refl }, tt)

-- ParseSpecifier on any text keeps the tables of alignments and pointers well-formed, or throws, or
-- meets a specifier that the code does not know. No assertion fails in it, no front of an empty text
-- is read, and its loops end.
pub parse_specifier-Ensures :
    (desc : List ℕ) (dl : DataLayout)
    → IsWellFormed dl
    → Ensures IsWellFormed (parse_specifier desc dl)
unfolding parse_specifier
parse_specifier-Ensures desc dl ok_dl =
    parse_tokens-Ensures (length desc) desc (record dl { string_representation = desc })
      (omega arith) (with_text dl desc ok_dl)

reset-Ensures : (desc : List ℕ) → Ensures IsWellFormed (reset desc)
unfolding reset
reset-Ensures desc =
    Ensures-bind IsTable IsWellFormed (set_alignments default_alignments []) _
      (set_alignments-Ensures default_alignments [] tt)
      (λ alignments table.
        Ensures-bind IsPointerTable IsWellFormed (set_pointer_alignment 0 8 8 8 []) _ first_pointer
          (λ pointers pointer_table.
            parse_specifier-Ensures desc
              (record {
                big_endian = false;
                stack_natural_align = 0;
                mangling_mode = mm_none;
                legal_int_widths = [];
                alignments = alignments;
                string_representation = [];
                pointers = pointers;
              })
              (record { table = table; pointer_table = pointer_table })))

-- In a DataLayout that Reset makes, from whatever text, the tables are well-formed, and the ABI
-- alignment, the preferred alignment and the size of pointers are found for every address space.
pub reset-IsWellFormed :
    (desc : List ℕ) (dl : DataLayout)
    → reset desc ≡ ok dl
    → IsWellFormed dl × ((a : ℕ) → (e : PointerAlignElem) × (find_pointer a dl.pointers ≡ ok e))
unfolding Ensures
reset-IsWellFormed desc dl h =
    let well_formed : IsWellFormed dl = subst (Ensures IsWellFormed) h (reset-Ensures desc) in
    (well_formed, λ a. find_pointer-some a dl.pointers well_formed.pointer_table)
