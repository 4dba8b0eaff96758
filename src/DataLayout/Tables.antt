-- ===== src/DataLayout/Tables.antt =====
-- The tables of Src/DataLayout.cpp: what they keep, and what is found in them.
use dilithium.Base.{ℕ, suc, ◌^◌, ◌≤◌, ◌<◌, ◌≡◌, refl, sym, arith, subst, inl, inr, ◌⊎◌, All}
use dilithium.Base.{
  Bool, true, false, if◌then◌else◌, ltb, ◌==◌, Bool-cases, Option, none, some, List, [], ◌∷◌,
}
use dilithium.DataLayout.{ok, error, LayoutAlignElem, PointerAlignElem, is_for, is_power_of_two}
use dilithium.DataLayout.{get_pointer_elem, set_pointer_in, set_pointer_alignment}
use dilithium.DataLayout.{find_pointer_lower_bound, pref_below_abi}
use dilithium.DataLayout.Outcomes.{Ensures}

-- An alignment in bytes: a power of two, or zero.
abbrev pub IsAlignment : ℕ → Type 0
IsAlignment v = (v ≡ 0) ⊎ (is_power_of_two v ≡ true)

pub record IsValidElem (e : LayoutAlignElem) : Type 0 where
  pub width : e.type_bit_width < 2 ^ 24
  pub abi_small : e.abi_align < 2 ^ 16
  pub pref_small : e.pref_align < 2 ^ 16
  pub in_order : e.abi_align ≤ e.pref_align
  pub abi_power : IsAlignment e.abi_align
  pub pref_power : IsAlignment e.pref_align

-- Every element is valid, and no two are for the same type and width.
abbrev pub IsTable : List LayoutAlignElem → Type 0
IsTable [] = Unit {0}
IsTable (e ∷ es) =
    IsValidElem e × All (λ o. is_for e.align_type e.type_bit_width o ≡ false) es × IsTable es

pub record IsValidPointer (e : PointerAlignElem) : Type 0 where
  pub in_order : e.abi ≤ e.pref
  pub abi_power : is_power_of_two e.abi ≡ true
  pub pref_power : is_power_of_two e.pref ≡ true

-- The address spaces ascend, from `lo` on.
abbrev pub IsAscending : ℕ → List PointerAlignElem → Type 0
IsAscending lo [] = Unit {0}
IsAscending lo (e ∷ es) = (lo ≤ e.addr_space) × IsValidPointer e × IsAscending (suc e.addr_space) es

-- And the first is address space 0.
abbrev pub IsPointerTable : List PointerAlignElem → Type 0
IsPointerTable [] = ⊥
IsPointerTable (e ∷ es) = (e.addr_space ≡ 0) × IsValidPointer e × IsAscending 1 es

set_pointer_in-IsAscending :
    (new : PointerAlignElem) (lo : ℕ) (es : List PointerAlignElem)
    → lo ≤ new.addr_space
    → IsValidPointer new
    → IsAscending lo es
    → IsAscending lo (set_pointer_in new es)
unfolding set_pointer_in
set_pointer_in-IsAscending new lo [] h valid asc = (h, valid, tt)
set_pointer_in-IsAscending new lo (e ∷ es) h valid (low, valid_e, rest) =
    go (ltb e.addr_space new.addr_space) (e.addr_space == new.addr_space) refl refl
      (λ above. set_pointer_in-IsAscending new (suc e.addr_space) es above valid rest)
  where
    go :
        (less same : Bool)
        → ltb e.addr_space new.addr_space ≡ less
        → (e.addr_space == new.addr_space) ≡ same
        → (e.addr_space < new.addr_space → IsAscending (suc e.addr_space) (set_pointer_in new es))
        → IsAscending lo (elim less [
          | true ↦ e ∷ set_pointer_in new es
          | false ↦ if same then new ∷ es else new ∷ e ∷ es
        ])
    go true same less s more = (low, valid_e, more (ground (arith, less)))
    go false true less s more =
        let eq : e.addr_space ≡ new.addr_space = ground (arith, s) in
        (h, valid, subst (λ (t : ℕ). IsAscending (suc t) es) eq rest)
    go false false less s more =
        let above : suc new.addr_space ≤ e.addr_space = ground (arith, less, s) in
        (h, valid, (above, valid_e, rest))

pub set_pointer_in-IsPointerTable :
    (new : PointerAlignElem) (es : List PointerAlignElem)
    → IsValidPointer new
    → IsPointerTable es
    → IsPointerTable (set_pointer_in new es)
unfolding set_pointer_in
set_pointer_in-IsPointerTable new [] valid table = elim table [ ]
set_pointer_in-IsPointerTable new (e ∷ es) valid (start, valid_e, rest) =
    go (ltb e.addr_space new.addr_space) (e.addr_space == new.addr_space) refl refl
  where
    go :
        (less same : Bool)
        → ltb e.addr_space new.addr_space ≡ less
        → (e.addr_space == new.addr_space) ≡ same
        → IsPointerTable (elim less [
          | true ↦ e ∷ set_pointer_in new es
          | false ↦ if same then new ∷ es else new ∷ e ∷ es
        ])
    go true same less s =
        let above : 1 ≤ new.addr_space = ground (arith, less) in
        (start, valid_e, set_pointer_in-IsAscending new 1 es above valid rest)
    go false true less s = let eq : new.addr_space ≡ 0 = ground (arith, s) in (eq, valid, rest)
    go false false less s = absurd (ground (arith, less, s))

pub set_pointer_alignment-eq :
    (addr_space abi pref size : ℕ) (es : List PointerAlignElem)
    → abi ≤ pref
    → set_pointer_alignment addr_space abi pref size es
      ≡ ok (
          set_pointer_in
            (record { addr_space = addr_space; abi = abi; pref = pref; type_byte_width = size })
            es)
unfolding set_pointer_alignment get_pointer_elem
set_pointer_alignment-eq addr_space abi pref size es h = ground arith

le_or_lt : (a b : ℕ) → (a ≤ b) ⊎ (b < a)
le_or_lt a b = omega arith

refused :
    (addr_space abi pref size : ℕ) (es : List PointerAlignElem)
    → pref < abi
    → set_pointer_alignment addr_space abi pref size es ≡ error pref_below_abi
unfolding set_pointer_alignment
refused addr_space abi pref size es h = ground arith

-- The check before the table is changed fails where the alignments are not in order.
pub set_pointer_alignment-Ensures :
    (addr_space abi pref size : ℕ) (es : List PointerAlignElem)
    → is_power_of_two abi ≡ true
    → is_power_of_two pref ≡ true
    → IsPointerTable es
    → Ensures IsPointerTable (set_pointer_alignment addr_space abi pref size es)
unfolding Ensures
set_pointer_alignment-Ensures addr_space abi pref size es abi_power pref_power table =
    elim (le_or_lt abi pref) [
      | inl h ↦
          subst (Ensures IsPointerTable)
            (sym (set_pointer_alignment-eq addr_space abi pref size es h))
            (set_pointer_in-IsPointerTable _ es
              (record { in_order = h; abi_power = abi_power; pref_power = pref_power }) table)
      | inr h ↦ subst (Ensures IsPointerTable) (sym (refused addr_space abi pref size es h)) tt
    ]

-- The element for an address space.
unfoldable pub entry_for : ℕ → List PointerAlignElem → Option PointerAlignElem
entry_for a [] = none
entry_for a (e ∷ es) = elim (e.addr_space == a) [ true ↦ some e | false ↦ entry_for a es ]

entry_for-below :
    (a lo : ℕ) (es : List PointerAlignElem) → a < lo → IsAscending lo es → entry_for a es ≡ none
unfolding entry_for
entry_for-below a lo [] h asc = refl
entry_for-below a lo (e ∷ es) h (low, valid, rest) =
    ground (arith, low, entry_for-below a (suc e.addr_space) es (omega (arith, low)) rest)

-- The head of what FindPointerLowerBound finds, if it is the element looked for.
abbrev pub pick : ℕ → List PointerAlignElem → Option PointerAlignElem
pick a [] = none
pick a (e ∷ es) = if e.addr_space == a then some e else none

pub pick-entry_for :
    (a lo : ℕ) (es : List PointerAlignElem)
    → IsAscending lo es
    → pick a (find_pointer_lower_bound a es) ≡ entry_for a es
unfolding find_pointer_lower_bound entry_for
pick-entry_for a lo [] asc = refl
pick-entry_for a lo (e ∷ es) (low, valid, rest) = elim (Bool-cases (ltb e.addr_space a)) [
  | inl less ↦ grind (arith, less, pick-entry_for a (suc e.addr_space) es rest)
  | inr not_less ↦ elim (Bool-cases (e.addr_space == a)) [
    | inl same ↦ grind (arith, not_less, same)
    | inr other ↦
        (let below : a < suc e.addr_space = ground (arith, not_less) in
          grind (arith, not_less, other, entry_for-below a (suc e.addr_space) es below rest))
  ]
]
