-- ===== src/DataLayout/Alignments.antt =====
-- The table of alignments of Src/DataLayout.cpp.
use dilithium.Base.{ℕ, ◌^◌, ◌≤◌, ◌≡◌, refl, ap, arith, inl, inr, All}
use dilithium.Base.{
  Bool, true, false, ◌&&◌, ◌||◌, ltb, leb, ◌==◌, Bool-cases, Option, none, some, List, [], ◌∷◌,
}
use dilithium.DataLayout.{
  Result, ok, error, ◌>>=◌, Failure, bit_width_not_24_bits, abi_not_16_bits, pref_not_16_bits,
  abi_not_power_of_2, pref_not_power_of_2, pref_below_abi, AlignType, LayoutAlignElem, is_for,
  is_power_of_two,
}
use dilithium.DataLayout.{get_layout_elem, set_alignment_in, set_alignment}
use dilithium.DataLayout.Tables.{IsValidElem, IsTable}

-- The arguments that the code takes.
abbrev pub accepts : (abi_align pref_align bit_width : ℕ) → Bool
accepts abi_align pref_align bit_width =
    ltb bit_width (2 ^ 24)
    && ltb abi_align (2 ^ 16)
    && ltb pref_align (2 ^ 16)
    && (abi_align == 0 || is_power_of_two abi_align)
    && (pref_align == 0 || is_power_of_two pref_align)
    && leb abi_align pref_align

pub set_alignment_ok :
    (t : AlignType) (a p w : ℕ) (es : List LayoutAlignElem)
    → accepts a p w ≡ true
    → set_alignment t a p w es ≡ set_alignment_in t a p w es
unfolding set_alignment
set_alignment_ok t a p w es h = ground (arith, h)

pub set_alignment_refused :
    (t : AlignType) (a p w : ℕ) (es : List LayoutAlignElem)
    → accepts a p w ≡ false
    → (e : Failure) × (set_alignment t a p w es ≡ error e)
unfolding set_alignment
set_alignment_refused t a p w es h = elim (Bool-cases (ltb w (2 ^ 24))) [
  | inr bad ↦ (bit_width_not_24_bits, ground (arith, bad))
  | inl ok1 ↦ elim (Bool-cases (ltb a (2 ^ 16))) [
    | inr bad ↦ (abi_not_16_bits, ground (arith, ok1, bad))
    | inl ok2 ↦ elim (Bool-cases (ltb p (2 ^ 16))) [
      | inr bad ↦ (pref_not_16_bits, ground (arith, ok1, ok2, bad))
      | inl ok3 ↦ elim (Bool-cases (a == 0 || is_power_of_two a)) [
        | inr bad ↦ (abi_not_power_of_2, ground (arith, ok1, ok2, ok3, bad))
        | inl ok4 ↦ elim (Bool-cases (p == 0 || is_power_of_two p)) [
          | inr bad ↦ (pref_not_power_of_2, ground (arith, ok1, ok2, ok3, ok4, bad))
          | inl ok5 ↦ (pref_below_abi, ground (arith, h, ok1, ok2, ok3, ok4, ok5))
        ]
      ]
    ]
  ]
]

-- The element for a type and a width.
unfoldable pub alignment_for : AlignType → ℕ → List LayoutAlignElem → Option LayoutAlignElem
alignment_for t w [] = none
alignment_for t w (e ∷ es) = elim (is_for t w e) [ true ↦ some e | false ↦ alignment_for t w es ]

-- The table after an element is entered.
unfoldable pub entered : LayoutAlignElem → List LayoutAlignElem → List LayoutAlignElem
entered new [] = new ∷ []
entered new (e ∷ es) = elim (is_for new.align_type new.type_bit_width e) [
  | true ↦ record e { abi_align = new.abi_align; pref_align = new.pref_align } ∷ es
  | false ↦ e ∷ entered new es
]

pub set_alignment_in-entered :
    (new : LayoutAlignElem) (es : List LayoutAlignElem)
    → new.abi_align ≤ new.pref_align
    → set_alignment_in new.align_type new.abi_align new.pref_align new.type_bit_width es
      ≡ ok (entered new es)
unfolding set_alignment_in get_layout_elem entered
set_alignment_in-entered new [] h = ground (arith, h)
set_alignment_in-entered new (e ∷ es) h =
    go (is_for new.align_type new.type_bit_width e) (set_alignment_in-entered new es h)
  where
    go :
        (b : Bool)
        → set_alignment_in new.align_type new.abi_align new.pref_align new.type_bit_width es
          ≡ ok (entered new es)
        → (elim b [
          | true ↦ ok (record e { abi_align = new.abi_align; pref_align = new.pref_align } ∷ es)
          | false ↦
              set_alignment_in new.align_type new.abi_align new.pref_align new.type_bit_width es
              >>= λ rest. ok (e ∷ rest)
        ])
          ≡ ok (elim b [
            | true ↦ record e { abi_align = new.abi_align; pref_align = new.pref_align } ∷ es
            | false ↦ e ∷ entered new es
          ])
    go true rest = refl
    go false rest = ap (λ (r : Result (List LayoutAlignElem)). r >>= λ es'. ok (e ∷ es')) rest

-- Two elements are for the same type and width.
is_for_comm :
    (x y z : LayoutAlignElem)
    → is_for x.align_type x.type_bit_width y ≡ true
    → is_for x.align_type x.type_bit_width z ≡ is_for y.align_type y.type_bit_width z
is_for_comm x y z h = ground (arith, h)

-- An element with another key stays alone with it.
All-entered :
    (t : AlignType) (w : ℕ) (new : LayoutAlignElem) (es : List LayoutAlignElem)
    → is_for t w new ≡ false
    → All (λ o. is_for t w o ≡ false) es
    → All (λ o. is_for t w o ≡ false) (entered new es)
unfolding entered
All-entered t w new [] h rest = (h, tt)
All-entered t w new (e ∷ es) h (first, rest) =
    go (is_for new.align_type new.type_bit_width e) (All-entered t w new es h rest)
  where
    go :
        (b : Bool)
        → All (λ o. is_for t w o ≡ false) (entered new es)
        → All
            (λ o. is_for t w o ≡ false)
            (elim b [
              | true ↦ record e { abi_align = new.abi_align; pref_align = new.pref_align } ∷ es
              | false ↦ e ∷ entered new es
            ])
    go true more = (first, rest)
    go false more = (first, more)

replaced-IsValidElem :
    (new e : LayoutAlignElem)
    → IsValidElem new
    → IsValidElem e
    → IsValidElem (record e { abi_align = new.abi_align; pref_align = new.pref_align })
replaced-IsValidElem new e valid valid_e = record {
  width = valid_e.width;
  abi_small = valid.abi_small;
  pref_small = valid.pref_small;
  in_order = valid.in_order;
  abi_power = valid.abi_power;
  pref_power = valid.pref_power;
}

is_for_symm :
    (x y : LayoutAlignElem)
    → is_for x.align_type x.type_bit_width y ≡ false
    → is_for y.align_type y.type_bit_width x ≡ false
is_for_symm x y h = ground (arith, h)

pub entered-IsTable :
    (new : LayoutAlignElem) (es : List LayoutAlignElem)
    → IsValidElem new
    → IsTable es
    → IsTable (entered new es)
unfolding entered
entered-IsTable new [] valid table = (valid, tt, tt)
entered-IsTable new (e ∷ es) valid (valid_e, alone, table) =
    go (is_for new.align_type new.type_bit_width e) refl (entered-IsTable new es valid table)
  where
    go :
        (b : Bool)
        → is_for new.align_type new.type_bit_width e ≡ b
        → IsTable (entered new es)
        → IsTable (elim b [
          | true ↦ record e { abi_align = new.abi_align; pref_align = new.pref_align } ∷ es
          | false ↦ e ∷ entered new es
        ])
    go true found rest = (replaced-IsValidElem new e valid valid_e, alone, table)
    go false other rest = (
      valid_e,
      All-entered e.align_type e.type_bit_width new es (is_for_symm new e other) alone,
      rest,
    )
