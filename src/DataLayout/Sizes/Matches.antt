-- ===== src/DataLayout/Sizes/Matches.antt =====
-- AlignmentInfo of Src/DataLayout.cpp for an integer type: which element of the table is taken.
use dilithium.Base.{ℕ, ◌≤◌, ◌<◌, ◌≡◌, arith, inl, inr, ◌⊎◌, All}
use dilithium.Base.{if◌then◌else◌, lt→ltb, Bool-cases, Option, none, some, List, [], ◌∷◌}
use dilithium.DataLayout.{LayoutAlignElem, integer_align, align_code, is_for}
use dilithium.DataLayout.Sizes.{
  is_better, is_larger, Scanned, exact, kept, both_integer, scan_alignments,
}

abbrev pub IsInteger : LayoutAlignElem → Type 0
IsInteger e = align_code e.align_type ≡ align_code integer_align

abbrev pub Holds {ℓ} : {A : Type 0} → (A → Type ℓ) → Option A → Type ℓ
Holds P none = Unit
Holds P (some a) = P a

abbrev pub IsAtMost : ℕ → Option LayoutAlignElem → Type 0
IsAtMost v none = ⊥
IsAtMost v (some e) = e.type_bit_width ≤ v

abbrev pub IsAtLeast : ℕ → Option LayoutAlignElem → Type 0
IsAtLeast v none = ⊥
IsAtLeast v (some e) = v ≤ e.type_bit_width

-- What the two elements that are kept at the end are for an element that was passed over.
pub record IsCovered (w : ℕ) (best largest : Option LayoutAlignElem) (e : LayoutAlignElem)
    : Type 0 where
  pub other : (e.type_bit_width < w) ⊎ (w < e.type_bit_width)
  pub below : w < e.type_bit_width → IsAtMost e.type_bit_width best
  pub above : IsAtLeast e.type_bit_width largest

abbrev pub IsWider {ℓ} : (LayoutAlignElem → Type ℓ) → ℕ → LayoutAlignElem → Type ℓ
IsWider P w e = P e × (w < e.type_bit_width)

pub record IsKept {ℓ} (P : LayoutAlignElem → Type ℓ) (w : ℕ) (es : List LayoutAlignElem)
    (best largest best' largest' : Option LayoutAlignElem) : Type ℓ where
  pub wider : Holds (IsWider P w) best'
  pub own : Holds P largest'
  pub closer : (v : ℕ) → IsAtMost v best → IsAtMost v best'
  pub larger : (v : ℕ) → IsAtLeast v largest → IsAtLeast v largest'
  pub covered : All (λ e. IsInteger e → IsCovered w best' largest' e) es

abbrev pub Ends {ℓ} :
    (LayoutAlignElem → Type ℓ)
    → ℕ
    → List LayoutAlignElem
    → Option LayoutAlignElem
    → Option LayoutAlignElem
    → Scanned
    → Type ℓ
Ends P w es best largest (exact e) = P e × (e.type_bit_width ≡ w)
Ends P w es best largest (kept best' largest') = IsKept P w es best largest best' largest'

module _ {ℓ} (P : LayoutAlignElem → Type ℓ) (w : ℕ) where
  abbrev next_best : LayoutAlignElem → Option LayoutAlignElem → Option LayoutAlignElem
  next_best e best = if is_better w e best then some e else best

  abbrev next_largest : LayoutAlignElem → Option LayoutAlignElem → Option LayoutAlignElem
  next_largest e largest = if is_larger e largest then some e else largest

  next_best-closer :
      (e : LayoutAlignElem) (best : Option LayoutAlignElem) (v : ℕ)
      → IsAtMost v best
      → IsAtMost v (next_best e best)
  next_best-closer e none v h = absurd h
  next_best-closer e (some b) v h = elim (Bool-cases (is_better w e (some b))) [
    | inl y ↦ rw y (ground (arith, y))
    | inr n ↦ rw n h
  ]

  next_best-own :
      (e : LayoutAlignElem) (best : Option LayoutAlignElem)
      → w < e.type_bit_width
      → IsAtMost e.type_bit_width (next_best e best)
  next_best-own e none h = rw (lt→ltb w e.type_bit_width h) (omega arith)
  next_best-own e (some b) h = elim (Bool-cases (is_better w e (some b))) [
    | inl y ↦ rw y (omega arith)
    | inr n ↦ rw n (ground (arith, n))
  ]

  next_best-Holds :
      (e : LayoutAlignElem) (best : Option LayoutAlignElem)
      → P e
      → Holds (IsWider P w) best
      → Holds (IsWider P w) (next_best e best)
  next_best-Holds e none p h = elim (Bool-cases (is_better w e none)) [
    | inl y ↦ rw y (p, ground (arith, y))
    | inr n ↦ rw n h
  ]
  next_best-Holds e (some b) p h = elim (Bool-cases (is_better w e (some b))) [
    | inl y ↦ rw y (p, ground (arith, y))
    | inr n ↦ rw n h
  ]

  next_largest-larger :
      (e : LayoutAlignElem) (largest : Option LayoutAlignElem) (v : ℕ)
      → IsAtLeast v largest
      → IsAtLeast v (next_largest e largest)
  next_largest-larger e none v h = absurd h
  next_largest-larger e (some l) v h = elim (Bool-cases (is_larger e (some l))) [
    | inl y ↦ rw y (ground (arith, y))
    | inr n ↦ rw n h
  ]

  next_largest-own :
      (e : LayoutAlignElem) (largest : Option LayoutAlignElem)
      → IsAtLeast e.type_bit_width (next_largest e largest)
  next_largest-own e none = omega arith
  next_largest-own e (some l) = elim (Bool-cases (is_larger e (some l))) [
    | inl y ↦ rw y (omega arith)
    | inr n ↦ rw n (ground (arith, n))
  ]

  next_largest-Holds :
      (e : LayoutAlignElem) (largest : Option LayoutAlignElem)
      → P e
      → Holds P largest
      → Holds P (next_largest e largest)
  next_largest-Holds e none p h = p
  next_largest-Holds e (some l) p h = elim (Bool-cases (is_larger e (some l))) [
    | inl y ↦ rw y p
    | inr n ↦ rw n h
  ]

  IsCovered-own :
      (e : LayoutAlignElem) (es : List LayoutAlignElem) (best largest : Option LayoutAlignElem)
      → {best' largest' : Option LayoutAlignElem}
      → (IsInteger e → (e.type_bit_width < w) ⊎ (w < e.type_bit_width))
      → (IsInteger e → IsKept P w es (next_best e best) (next_largest e largest) best' largest')
      → IsInteger e
      → IsCovered w best' largest' e
  IsCovered-own e es best largest differs k int = record {
    other = differs int;
    below = λ lt. (k int).closer e.type_bit_width (next_best-own e best lt);
    above = (k int).larger e.type_bit_width (next_largest-own e largest);
  }

  Ends-next :
      (e : LayoutAlignElem) (es : List LayoutAlignElem) (best largest : Option LayoutAlignElem)
      → (r : Scanned) → (e.type_bit_width < w) ⊎ (w < e.type_bit_width)
      → Ends P w es (next_best e best) (next_largest e largest) r
      → Ends P w (e ∷ es) best largest r
  Ends-next e es best largest (exact x) differs h = h
  Ends-next e es best largest (kept b l) differs h = record {
    wider = h.wider;
    own = h.own;
    closer = λ v at_most. h.closer v (next_best-closer e best v at_most);
    larger = λ v at_least. h.larger v (next_largest-larger e largest v at_least);
    covered = (IsCovered-own e es best largest (λ int. differs) (λ int. h), h.covered);
  }

  Ends-skip :
      (e : LayoutAlignElem) (es : List LayoutAlignElem) (best largest : Option LayoutAlignElem)
      → (r : Scanned) → (IsInteger e → ⊥)
      → Ends P w es best largest r
      → Ends P w (e ∷ es) best largest r
  Ends-skip e es best largest (exact x) other h = h
  Ends-skip e es best largest (kept b l) other h = record {
    wider = h.wider;
    own = h.own;
    closer = h.closer;
    larger = h.larger;
    covered = ((λ int. absurd (other int)), h.covered);
  }

  pub scan_alignments-Ends :
      (es : List LayoutAlignElem) (best largest : Option LayoutAlignElem)
      → All (λ e. IsInteger e → P e) es
      → Holds (IsWider P w) best
      → Holds P largest
      → Ends P w es best largest (scan_alignments integer_align w best largest es)
  unfolding scan_alignments
  scan_alignments-Ends [] best largest ps hb hl = record {
    wider = hb;
    own = hl;
    closer = λ v h. h;
    larger = λ v h. h;
    covered = tt;
  }
  scan_alignments-Ends (e ∷ es) best largest (p, ps) hb hl =
      elim (Bool-cases (is_for integer_align w e)) [
        | inl same ↦ rw (same, scan_alignments) (p (ground (arith, same)), ground (arith, same))
        | inr differs ↦ elim (Bool-cases (both_integer integer_align e)) [
          | inr other ↦
              rw (differs, other, scan_alignments)
                (Ends-skip e es best largest _ (ground (arith, other))
                  (scan_alignments-Ends es best largest ps hb hl))
          | inl int ↦
              let own : P e = p (ground (arith, int)) in
              rw (differs, int, scan_alignments)
                (Ends-next e es best largest _ (ground (arith, differs, int)) (
                  scan_alignments-Ends es (next_best e best) (next_largest e largest) ps
                    (next_best-Holds e best own hb) (next_largest-Holds e largest own hl)))
        ]
      ]
