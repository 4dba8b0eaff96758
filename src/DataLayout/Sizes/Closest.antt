-- ===== src/DataLayout/Sizes/Closest.antt =====
-- AlignmentInfo of Src/DataLayout.cpp for an integer type: the alignment that is returned.
use dilithium.Base.{ℕ, suc, ◌≤◌, ◌<◌, ◌≡◌, refl, arith, inl, inr, ◌⊎◌, All, get_elem?, All-get}
use dilithium.Base.{Bool, Option, none, some, List, [], ◌∷◌}
use dilithium.DataLayout.{Result, ok, LayoutAlignElem, integer_align}
use dilithium.DataLayout.Sizes.{Scanned, exact, kept, scan_alignments, align_of, alignment_info}
use dilithium.DataLayout.Sizes.Matches.{IsInteger, IsCovered, IsKept, Ends, scan_alignments-Ends}

abbrev pub IsAt : List LayoutAlignElem → LayoutAlignElem → Type 0
IsAt es e = (i : ℕ) × (get_elem? es i ≡ some e)

-- For integers of a width, an element is no closer than another that is at least as wide and the
-- narrower of such, or that is too narrow and the widest of such.
abbrev pub IsNoCloser : ℕ → LayoutAlignElem → LayoutAlignElem → Type 0
IsNoCloser w e o =
    ((w ≤ e.type_bit_width) × ((o.type_bit_width < w) ⊎ (e.type_bit_width ≤ o.type_bit_width)))
    ⊎ ((e.type_bit_width < w) × (o.type_bit_width ≤ e.type_bit_width))

pub record IsClosest (w : ℕ) (es : List LayoutAlignElem) (e : LayoutAlignElem) : Type 0 where
  pub integer : IsInteger e
  pub place : IsAt es e
  pub closest : (o : LayoutAlignElem) → IsAt es o → IsInteger o → IsNoCloser w e o

All-at {κ} :
    (P : LayoutAlignElem → Type κ) (es : List LayoutAlignElem)
    → ((e : LayoutAlignElem) → IsAt es e → P e)
    → All P es
All-at P [] h = tt
All-at P (e ∷ es) h = (h e (0, refl), All-at P es (λ o (i, at). h o (suc i, at)))

abbrev IsOwn : List LayoutAlignElem → LayoutAlignElem → Type 0
IsOwn es e = IsInteger e × IsAt es e

module _ (w : ℕ) (es : List LayoutAlignElem) where
  exact-IsClosest : (e : LayoutAlignElem) → IsOwn es e → e.type_bit_width ≡ w → IsClosest w es e
  exact-IsClosest e (int, at) same = record {
    integer = int;
    place = at;
    closest = λ o at_o int_o. omega arith;
  }

  IsCovered-at :
      (best largest : Option LayoutAlignElem)
      → IsKept (IsOwn es) w es none none best largest
      → (o : LayoutAlignElem) → IsOwn es o
      → IsCovered w best largest o
  IsCovered-at best largest k o (int, (i, at)) = All-get _ es i o k.covered at int

  best-IsClosest :
      (e : LayoutAlignElem) (largest : Option LayoutAlignElem)
      → IsKept (IsOwn es) w es none none (some e) largest
      → IsClosest w es e
  best-IsClosest e largest k = record {
    integer = k.wider.0.0;
    place = k.wider.0.1;
    closest = λ o at int. by_cover o (IsCovered-at (some e) largest k o (int, at));
  }
    where
      by_cover : (o : LayoutAlignElem) → IsCovered w (some e) largest o → IsNoCloser w e o
      by_cover o c = elim c.other [
        | inl narrow ↦ let wide = k.wider.1 in omega arith
        | inr wide_o ↦ let below = c.below wide_o in let wide = k.wider.1 in omega arith
      ]

  IsCovered-narrow :
      (largest : Option LayoutAlignElem) (o : LayoutAlignElem)
      → IsCovered w none largest o
      → o.type_bit_width < w
  IsCovered-narrow largest o c = elim c.other [
    | inl narrow ↦ narrow
    | inr wide ↦ absurd (c.below wide)
  ]

  largest-IsClosest :
      (e : LayoutAlignElem) → IsKept (IsOwn es) w es none none none (some e) → IsClosest w es e
  largest-IsClosest e k = record {
    integer = k.own.0;
    place = k.own.1;
    closest = λ o at int. inr (
      IsCovered-narrow (some e) e (IsCovered-at none (some e) k e k.own),
      (IsCovered-at none (some e) k o (int, at)).above,
    );
  }

  abbrev ChosenBy : Scanned → Bool → Result ℕ → Type 0
  ChosenBy r abi answer = (e : LayoutAlignElem) × IsClosest w es e × (answer ≡ ok (align_of abi e))

  abbrev Answers : Scanned → Bool → Result ℕ → Type 0
  Answers (exact e) abi answer = answer ≡ ok (align_of abi e)
  Answers (kept (some e) largest) abi answer = answer ≡ ok (align_of abi e)
  Answers (kept none (some e)) abi answer = answer ≡ ok (align_of abi e)
  Answers (kept none none) abi answer = Unit {0}

  Ends-Chosen :
      (r : Scanned) (abi : Bool) (answer : Result ℕ) (o : LayoutAlignElem)
      → IsOwn es o
      → Ends (IsOwn es) w es none none r
      → Answers r abi answer
      → ChosenBy r abi answer
  Ends-Chosen (exact e) abi answer o own h a = (e, exact-IsClosest e h.0 h.1, a)
  Ends-Chosen (kept (some e) largest) abi answer o own h a = (e, best-IsClosest e largest h, a)
  Ends-Chosen (kept none (some e)) abi answer o own h a = (e, largest-IsClosest e h, a)
  Ends-Chosen (kept none none) abi answer o own h a = absurd (IsCovered-at none none h o own).above

  alignment_info-Answers :
      (abi : Bool) (vector_size store_size : Result ℕ) (r : Scanned)
      → scan_alignments integer_align w none none es ≡ r
      → Answers r abi (alignment_info es integer_align w abi vector_size store_size)
  unfolding alignment_info
  alignment_info-Answers abi vector_size store_size (exact e) h = rw (h, alignment_info) refl
  alignment_info-Answers abi vector_size store_size (kept (some e) l) h =
      rw (h, alignment_info) refl
  alignment_info-Answers abi vector_size store_size (kept none (some e)) h =
      rw (h, alignment_info) refl
  alignment_info-Answers abi vector_size store_size (kept none none) h = tt

-- For an integer of a width, on a table that has an element for integers, what is returned is the
-- alignment of one of its elements for integers that is closest to the width: none of them that is at
-- least as wide as the integer is narrower, and where none is as wide none of them is wider.
pub alignment_info-IsClosest :
    (w : ℕ) (es : List LayoutAlignElem) (o : LayoutAlignElem)
    → IsAt es o
    → IsInteger o
    → (abi : Bool) (vector_size store_size : Result ℕ)
    → (e : LayoutAlignElem) × IsClosest w es e
      × (alignment_info es integer_align w abi vector_size store_size ≡ ok (align_of abi e))
alignment_info-IsClosest w es o at int abi vector_size store_size =
    Ends-Chosen w es _ abi _ o (int, at)
      (scan_alignments-Ends (IsOwn es) w es none none (All-at _ es (λ e at_e int_e. (int_e, at_e)))
        tt tt)
      (alignment_info-Answers w es abi vector_size store_size _ refl)
