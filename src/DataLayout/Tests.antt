-- ===== src/DataLayout/Tests.antt =====
-- Runs of the code of Src/DataLayout.cpp.
use dilithium.Base.{ℕ, ◌≡◌, ◌≢◌, refl, arith, List, [], ◌∷◌, true, false, ◌&&◌, ◌==◌, ◌⊎◌}
use dilithium.DataLayout.{
  Result, ok, error, unreachable, Failure, trailing_separator, DataLayout, PointerAlignElem,
  AlignType, integer_align, align_code,
}
use dilithium.DataLayout.{
  set_alignment, set_pointer_alignment, find_pointer, LayoutAlignElem, mm_none, is_power_of_two,
  abi_not_power_of_2, pref_below_abi,
}
use dilithium.DataLayout.Specifier.{reset, parse_specifier}
use dilithium.DataLayout.Outcomes.{Ensures}
use dilithium.DataLayout.Tables.{IsTable, IsPointerTable}
use dilithium.DataLayout.Pointers.{pointer_elem, set_pointer_alignment-find}
use dilithium.DataLayout.Alignments.{accepts, alignment_for}
use dilithium.DataLayout.Entering.{IsEntry, set_alignment-entered}
use dilithium.DataLayout.WellFormed.{IsWellFormed}
use dilithium.DataLayout.Starting.{parse_specifier-Ensures, reset-IsWellFormed}

-- "e-p:32:32:32-i64:64"
abbrev a_layout : List ℕ
a_layout =
    101 ∷ 45 ∷ 112 ∷ 58 ∷ 51 ∷ 50 ∷ 58 ∷ 51 ∷ 50 ∷ 58 ∷ 51 ∷ 50 ∷ 45 ∷ 105 ∷ 54 ∷ 52 ∷ 58 ∷ 54 ∷ 52
    ∷ []

abbrev pointers_of : Result DataLayout → List PointerAlignElem
pointers_of (ok dl) = dl.pointers
pointers_of _ = []

layout_runs : pointers_of (reset a_layout) ≡ pointer_elem 0 4 4 4 ∷ []
unfolding reset
layout_runs = refl

-- "e-"
trailing_runs : reset (101 ∷ 45 ∷ []) ≡ error trailing_separator
unfolding reset
trailing_runs = refl

-- "q"
unknown_runs : reset (113 ∷ []) ≡ unreachable
unfolding reset
unknown_runs = refl

abbrev made : DataLayout
made = elim (reset []) [
  | ok dl ↦ dl
  | _ ↦ record {
    big_endian = false;
    stack_natural_align = 0;
    mangling_mode = mm_none;
    legal_int_widths = [];
    alignments = [];
    string_representation = [];
    pointers = [];
  }
]

made_runs : reset [] ≡ ok made
unfolding reset
made_runs = refl

reset-IsWellFormed_example :
    IsWellFormed made × ((a : ℕ) → (e : PointerAlignElem) × (find_pointer a made.pointers ≡ ok e))
reset-IsWellFormed_example = reset-IsWellFormed [] made made_runs

parse_specifier-Ensures_example : Ensures IsWellFormed (parse_specifier a_layout made)
parse_specifier-Ensures_example =
    parse_specifier-Ensures a_layout made (reset-IsWellFormed [] made made_runs).0

abbrev one_pointer : List PointerAlignElem
one_pointer = pointer_elem 0 8 8 8 ∷ []

one_pointer-IsPointerTable : IsPointerTable one_pointer
unfolding is_power_of_two
one_pointer-IsPointerTable =
    (refl, record { in_order = omega arith; abi_power = refl; pref_power = refl }, tt)

set_pointer_alignment-find_example :
    (es' : List PointerAlignElem) × (set_pointer_alignment 3 4 8 4 one_pointer ≡ ok es')
    × IsPointerTable es'
    × (find_pointer 3 es' ≡ ok (pointer_elem 3 4 8 4))
    × ((b : ℕ) → b ≢ 3 → ◌≢◌ {A = ℕ} 3 0 → find_pointer b es' ≡ find_pointer b one_pointer)
unfolding is_power_of_two
set_pointer_alignment-find_example =
    set_pointer_alignment-find 3 4 8 4 one_pointer one_pointer-IsPointerTable (omega arith) refl
      refl

set_alignment-entered_example :
    ((accepts 4 8 64 ≡ true)
      × ((es' : List LayoutAlignElem) × (set_alignment integer_align 4 8 64 [] ≡ ok es')
          × IsTable es'
          × IsEntry integer_align 64 4 8 es'
          × ((t' : AlignType) (w' : ℕ)
              → (align_code t' == align_code integer_align && w' == 64) ≡ false
              → alignment_for t' w' es' ≡ alignment_for t' w' [])))
    ⊎ ((accepts 4 8 64 ≡ false)
        × ((e : Failure) × (set_alignment integer_align 4 8 64 [] ≡ error e)))
set_alignment-entered_example = set_alignment-entered integer_align 4 8 64 [] tt

-- An ABI alignment that is not a power of two, and one above the preferred.
refused_power : set_alignment integer_align 6 8 64 [] ≡ error abi_not_power_of_2
unfolding set_alignment
refused_power = refl

refused_order : set_alignment integer_align 8 4 64 [] ≡ error pref_below_abi
unfolding set_alignment
refused_order = refl
