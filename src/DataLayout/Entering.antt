-- ===== src/DataLayout/Entering.antt =====
-- What the table of alignments of Src/DataLayout.cpp says after an element is entered.
use dilithium.Base.{ℕ, ◌≡◌, refl, sym, ◌∙◌, arith, subst, inl, inr, ◌⊎◌}
use dilithium.Base.{Bool, true, false, ◌&&◌, ◌||◌, ◌==◌, Bool-cases, some, List, [], ◌∷◌}
use dilithium.DataLayout.{
  ok, error, Failure, AlignType, align_code, LayoutAlignElem, is_for, is_power_of_two,
}
use dilithium.DataLayout.{set_alignment}
use dilithium.DataLayout.Outcomes.{Ensures}
use dilithium.DataLayout.Tables.{IsAlignment, IsValidElem, IsTable}
use dilithium.DataLayout.Alignments.{
  accepts, set_alignment_ok, set_alignment_refused, alignment_for, entered,
  set_alignment_in-entered, entered-IsTable,
}

-- What the table says for a type and a width.
pub IsEntry : AlignType → ℕ → ℕ → ℕ → List LayoutAlignElem → Type 0
IsEntry t w abi pref es =
    (e : LayoutAlignElem) × (alignment_for t w es ≡ some e)
    × (e.abi_align ≡ abi)
    × (e.pref_align ≡ pref)

entered-IsEntry :
    (new : LayoutAlignElem) (es : List LayoutAlignElem)
    → IsEntry new.align_type new.type_bit_width new.abi_align new.pref_align (entered new es)
unfolding IsEntry alignment_for entered
entered-IsEntry new [] = (new, ground arith, refl, refl)
entered-IsEntry new (e ∷ es) =
    go (is_for new.align_type new.type_bit_width e) refl (entered-IsEntry new es)
  where
    go :
        (b : Bool)
        → is_for new.align_type new.type_bit_width e ≡ b
        → IsEntry new.align_type new.type_bit_width new.abi_align new.pref_align (entered new es)
        → IsEntry new.align_type new.type_bit_width new.abi_align new.pref_align (elim b [
          | true ↦ record e { abi_align = new.abi_align; pref_align = new.pref_align } ∷ es
          | false ↦ e ∷ entered new es
        ])
    go true found rest = (
      record e { abi_align = new.abi_align; pref_align = new.pref_align },
      ground (arith, found),
      refl,
      refl,
    )
    go false other (x, found, abi, pref) = (x, ground (arith, other, found), abi, pref)

alignment_for-entered :
    (t : AlignType) (w : ℕ) (new : LayoutAlignElem) (es : List LayoutAlignElem)
    → is_for t w new ≡ false
    → alignment_for t w (entered new es) ≡ alignment_for t w es
unfolding alignment_for entered
alignment_for-entered t w new [] h = ground (arith, h)
alignment_for-entered t w new (e ∷ es) h =
    go (is_for new.align_type new.type_bit_width e) refl (alignment_for-entered t w new es h)
  where
    go :
        (b : Bool)
        → is_for new.align_type new.type_bit_width e ≡ b
        → alignment_for t w (entered new es) ≡ alignment_for t w es
        → alignment_for t w (elim b [
          | true ↦ record e { abi_align = new.abi_align; pref_align = new.pref_align } ∷ es
          | false ↦ e ∷ entered new es
        ])
          ≡ alignment_for t w (e ∷ es)
    go true found rest =
        let other : is_for t w e ≡ false = ground (arith, found, h) in ground (arith, other)
    go false other rest = ground (arith, rest)

accepts-IsValidElem :
    (t : AlignType) (a p w : ℕ)
    → accepts a p w ≡ true
    → IsValidElem (record { align_type = t; type_bit_width = w; abi_align = a; pref_align = p })
accepts-IsValidElem t a p w h = record {
  width = ground (arith, h);
  abi_small = ground (arith, h);
  pref_small = ground (arith, h);
  in_order = ground (arith, h);
  abi_power = power a (ground (arith, h));
  pref_power = power p (ground (arith, h));
}
  where
    power : (v : ℕ) → (v == 0 || is_power_of_two v) ≡ true → IsAlignment v
    power v some_power = elim (Bool-cases (v == 0)) [
      | inl nothing ↦ inl (ground (arith, nothing))
      | inr more ↦ inr (ground (arith, some_power, more))
    ]

-- A call of Alignment that enters an ABI alignment and a preferred one for a type and a width in a
-- table whose elements are valid and have different keys does one of two things. Where the width fits
-- in 24 bits, each alignment fits in 16 bits and is a power of two or zero, and the preferred one is
-- not below the other, it succeeds: the new table is such a table again, holds the two alignments for
-- the type and the width, and holds for every other type or width what it held before. Else it throws.
pub set_alignment-entered :
    (t : AlignType) (a p w : ℕ) (es : List LayoutAlignElem)
    → IsTable es
    → ((accepts a p w ≡ true)
        × ((es' : List LayoutAlignElem) × (set_alignment t a p w es ≡ ok es')
            × IsTable es'
            × IsEntry t w a p es'
            × ((t' : AlignType) (w' : ℕ)
                → (align_code t' == align_code t && w' == w) ≡ false
                → alignment_for t' w' es' ≡ alignment_for t' w' es)))
      ⊎ ((accepts a p w ≡ false) × ((e : Failure) × (set_alignment t a p w es ≡ error e)))
set_alignment-entered t a p w es table = elim (Bool-cases (accepts a p w)) [
  | inr refused ↦ inr (refused, set_alignment_refused t a p w es refused)
  | inl accepted ↦
      (let new : LayoutAlignElem = record {
        align_type = t;
        type_bit_width = w;
        abi_align = a;
        pref_align = p;
      } in
        let valid = accepts-IsValidElem t a p w accepted in
        inl (
          accepted,
          (
            entered new es,
            set_alignment_ok t a p w es accepted ∙ set_alignment_in-entered new es valid.in_order,
            entered-IsTable new es valid table,
            entered-IsEntry new es,
            λ t' w' other. alignment_for-entered t' w' new es (ground (arith, other)),
          ),
        ))
]

pub set_alignment-Ensures :
    (t : AlignType) (a p w : ℕ) (es : List LayoutAlignElem)
    → IsTable es
    → Ensures IsTable (set_alignment t a p w es)
unfolding Ensures
set_alignment-Ensures t a p w es table = elim (set_alignment-entered t a p w es table) [
  | inl (accepted, (es', done, table', _, _)) ↦ subst (Ensures IsTable) (sym done) table'
  | inr (refused, (e, done)) ↦ subst (Ensures IsTable) (sym done) tt
]
