-- ===== src/Layout/Members.antt =====
-- The layout that StructLayout of Src/DataLayout.cpp gives the members of a struct.
use dilithium.Base.{
  ℕ, ◌+◌, ◌-◌, ◌*◌, ◌/◌, ◌%◌, ◌^◌, ◌≤◌, ◌<◌, ◌≡◌, refl, sym, ap, ◌∙◌, arith, max, bit_and,
}
use dilithium.Base.{
  bit_and_mask, two_pow_pos, Bool, true, false, if◌then◌else◌, ◌==◌, List, [], ◌∷◌, All, ◌⊎◌, inl,
  inr, Bool-cases,
}
use native.Mathlib.Nat.{pow-le-pow_right, mul-mod_left, div-mul-le_self, lt-div-mul-add}
use dilithium.Layout.{Member, member_align, align_size, round_up_to_alignment, place_members}

-- An alignment that a uint32_t holds.
abbrev pub IsAlignment : ℕ → Type 0
IsAlignment a = (k : ℕ) × (k < 32) × (a ≡ 2 ^ k)

-- The least multiple of `align` from `size` on.
pub record IsNextMultiple (size align next : ℕ) : Type 0 where
  pub from_le : size ≤ next
  pub divides : next % align ≡ 0
  pub nearest : next < size + align

round_up_IsNextMultiple :
    (size align : ℕ)
    → 0 < align
    → size + align < 2 ^ 64
    → IsNextMultiple size align (round_up_to_alignment size align)
unfolding round_up_to_alignment
round_up_IsNextMultiple size align pos small =
    let no_wrap : (size + align + 2 ^ 64 - 1) % 2 ^ 64 ≡ size + align - 1 = omega arith in
    let below = div-mul-le_self (size + align - 1) align in
    let above = lt-div-mul-add {a = size + align - 1} pos in
    let at : (size + align + 2 ^ 64 - 1) % 2 ^ 64 / align * align % 2 ^ 64
        ≡ (size + align - 1) / align * align =
      rw no_wrap (omega (arith, below)) in
    record {
      from_le = rw at (omega (arith, below, above));
      divides = rw at (mul-mod_left ((size + align - 1) / align) align);
      nearest = rw at (omega (arith, below));
    }

align_cases :
    (size align masked : ℕ)
    → 0 < align
    → size + align < 2 ^ 64
    → masked ≡ size % align
    → IsNextMultiple size align (if masked == 0 then size else round_up_to_alignment size align)
align_cases size align masked pos room e = elim (Bool-cases (masked == 0)) [
  | inl none_left ↦ rw none_left (record {
    from_le = omega arith;
    divides = ground (arith, e, none_left);
    nearest = omega arith;
  })
  | inr some_left ↦ rw some_left (round_up_IsNextMultiple size align pos room)
]

-- The rounding of a size to an alignment, a power of two below 2 ^ 32, gives the least multiple of
-- the alignment from the size on, if the two stay below 2 ^ 64 together.
pub align_size-IsNextMultiple :
    (size align : ℕ)
    → IsAlignment align
    → size + align < 2 ^ 64
    → IsNextMultiple size align (align_size size align)
unfolding align_size
align_size-IsNextMultiple size align (k, small, e) room =
    let pos : 0 < align = omega (arith, two_pow_pos k) in
    let below : 2 ^ k ≤ 2 ^ 31 =
      pow-le-pow_right {n = 2} (omega arith) {i = k} {j = 31} (omega arith) in
    let mask : bit_and size ((align + 2 ^ 32 - 1) % 2 ^ 32) ≡ size % align =
      ap (bit_and size) (omega (arith, below))
      ∙ bit_and_mask k size
      ∙ ap (λ (a : ℕ). size % a) (sym e) in
    align_cases size align _ pos room mask

-- The members lie in order from byte `lo` on and end by `hi`, each at the first multiple of its
-- alignment that is free.
abbrev pub Placed : Bool → ℕ → List Member → List ℕ → ℕ → Type 0
Placed packed lo [] [] hi = lo ≤ hi
Placed packed lo [] (o ∷ os) hi = ⊥
Placed packed lo (m ∷ ms) [] hi = ⊥
Placed packed lo (m ∷ ms) (o ∷ os) hi =
    IsNextMultiple lo (member_align packed m) o × Placed packed (o + m.alloc_size) ms os hi

-- More than the bytes that the members can take.
abbrev pub total : Bool → List Member → ℕ
total packed [] = 0
total packed (m ∷ ms) = member_align packed m + m.alloc_size + total packed ms

-- The alignment so far: none, or that of some member.
abbrev pub IsAlignmentSoFar : ℕ → Type 0
IsAlignmentSoFar a = (a ≡ 0) ⊎ IsAlignment a

member_align-IsAlignment :
    (packed : Bool) (m : Member) → IsAlignment m.abi_align → IsAlignment (member_align packed m)
member_align-IsAlignment true m h = (0, omega arith, refl)
member_align-IsAlignment false m h = h

max-cases : (a b : ℕ) → (max a b ≡ a) ⊎ (max a b ≡ b)
max-cases a b = omega arith

max-IsAlignmentSoFar : (a b : ℕ) → IsAlignment a → IsAlignmentSoFar b → IsAlignmentSoFar (max a b)
max-IsAlignmentSoFar a b h k = elim (max-cases a b) [ inl e ↦ rw e (inr h) | inr e ↦ rw e k ]

-- What the loop has done from `size` and `align` on.
pub record Places (packed : Bool) (size align : ℕ) (ms : List Member) (r : List ℕ × ℕ × ℕ)
    : Type 0 where
  pub placed : Placed packed size ms r.0 r.1
  pub bounded : r.1 ≤ size + total packed ms
  pub aligned : IsAlignmentSoFar r.2
  pub align_le : align ≤ r.2
  pub members_le : All (λ m. member_align packed m ≤ r.2) ms

pub place_members-Places :
    (packed : Bool) (size align : ℕ) (ms : List Member)
    → All (λ m. IsAlignment m.abi_align) ms
    → IsAlignmentSoFar align
    → size + total packed ms < 2 ^ 63
    → Places packed size align ms (place_members packed size align ms)
unfolding place_members
place_members-Places packed size align [] h a room = record {
  placed = omega arith;
  bounded = omega arith;
  aligned = a;
  align_le = omega arith;
  members_le = tt;
}
place_members-Places packed size align (m ∷ ms) (hm, hs) a room =
    let ha = member_align-IsAlignment packed m hm in
    let o = align_size size (member_align packed m) in
    let next = align_size-IsNextMultiple size (member_align packed m) ha (omega arith) in
    let no_wrap : (o + m.alloc_size) % 2 ^ 64 ≡ o + m.alloc_size = omega (arith, next.nearest) in
    let rest =
      place_members-Places packed (o + m.alloc_size) (max (member_align packed m) align) ms hs
        (max-IsAlignmentSoFar _ align ha a) (omega (arith, next.nearest)) in
    rw no_wrap (record {
      placed = (next, rest.placed);
      bounded = omega (arith, rest.bounded, next.nearest);
      aligned = rest.aligned;
      align_le = omega (arith, rest.align_le);
      members_le = (omega (arith, rest.align_le), rest.members_le);
    })
