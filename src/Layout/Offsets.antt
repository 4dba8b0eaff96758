-- ===== src/Layout/Offsets.antt =====
-- StructLayout of Src/DataLayout.cpp as a whole, and its search for the member at an offset.
use dilithium.Base.{ℕ, zero, suc, ◌+◌, ◌%◌, ◌^◌, ◌≤◌, ◌<◌, ◌≡◌, refl, arith, ◌⊎◌, inl, inr}
use dilithium.Base.{
  two_pow_pos, Bool, if◌then◌else◌, ◌==◌, some, List, [], ◌∷◌, All, get_elem?, Bool-cases,
}
use native.Mathlib.Nat.{pow-le-pow_right}
use dilithium.Layout.{finish, Member, StructLayout, member_align, place_members, struct_layout}
use dilithium.Layout.{upper_bound, element_containing_offset}
use dilithium.Layout.Members.{
  IsAlignment, Placed, Places, place_members-Places, align_size-IsNextMultiple, total,
  IsAlignmentSoFar,
}

Placed-mono :
    (packed : Bool) (lo hi hi' : ℕ) (ms : List Member) (os : List ℕ)
    → hi ≤ hi'
    → Placed packed lo ms os hi
    → Placed packed lo ms os hi'
Placed-mono packed lo hi hi' [] [] le h = omega arith
Placed-mono packed lo hi hi' [] (o ∷ os) le h = h
Placed-mono packed lo hi hi' (m ∷ ms) [] le h = h
Placed-mono packed lo hi hi' (m ∷ ms) (o ∷ os) le (next, rest) =
    (next, Placed-mono packed (o + m.alloc_size) hi hi' ms os le rest)

-- What a layout of the members promises.
pub record IsLayoutOf (packed : Bool) (ms : List Member) (l : StructLayout) : Type 0 where
  pub placed : Placed packed 0 ms l.member_offsets l.struct_size
  pub alignment : IsAlignment l.struct_alignment
  pub members_le : All (λ m. member_align packed m ≤ l.struct_alignment) ms
  pub whole : l.struct_size % l.struct_alignment ≡ 0

final_IsAlignment : (a : ℕ) → IsAlignmentSoFar a → IsAlignment (if a == 0 then 1 else a)
final_IsAlignment a (inl e) = rw e (0, omega arith, refl)
final_IsAlignment a (inr (k, lt, e)) =
    let pos = two_pow_pos k in
    elim (Bool-cases (a == 0)) [
      | inl none_yet ↦ absurd (ground (arith, none_yet, e, pos))
      | inr some_yet ↦ rw some_yet (k, lt, e)
    ]

IsAlignment-lt : (a : ℕ) → IsAlignment a → a < 2 ^ 32
IsAlignment-lt a (k, lt, e) =
    let below : 2 ^ k ≤ 2 ^ 31 =
      pow-le-pow_right {n = 2} (omega arith) {i = k} {j = 31} (omega arith) in
    omega (arith, below)

members_le_mono :
    (packed : Bool) (a b : ℕ) (ms : List Member)
    → a ≤ b
    → All (λ m. member_align packed m ≤ a) ms
    → All (λ m. member_align packed m ≤ b) ms
members_le_mono packed a b [] le h = tt
members_le_mono packed a b (m ∷ ms) le (h, hs) = (omega arith, members_le_mono packed a b ms le hs)

finished :
    (packed : Bool) (ms : List Member) (r : List ℕ × ℕ × ℕ)
    → Places packed 0 0 ms r
    → total packed ms < 2 ^ 63
    → IsLayoutOf packed ms (finish r)
finished packed ms (offsets, size, align) p room =
    let a = final_IsAlignment align p.aligned in
    let next =
      align_size-IsNextMultiple size (if align == 0 then 1 else align) a
        (omega (arith, IsAlignment-lt _ a, p.bounded)) in
    record {
      placed = Placed-mono packed 0 size _ ms offsets next.from_le p.placed;
      alignment = a;
      members_le = members_le_mono packed align _ ms (ground arith) p.members_le;
      whole = next.divides;
    }

-- For members whose alignments are powers of two below 2 ^ 32 and which take less than 2 ^ 63 bytes
-- with their alignments, the members of the layout lie in order from byte 0 on without overlap,
-- each at the first multiple of its alignment that is free, and end within the struct; the size
-- is a multiple of the alignment, which is a power of two and at least that of every member.
pub struct_layout-IsLayoutOf :
    (packed : Bool) (ms : List Member)
    → All (λ m. IsAlignment m.abi_align) ms
    → total packed ms < 2 ^ 63
    → IsLayoutOf packed ms (struct_layout packed ms)
unfolding struct_layout
struct_layout-IsLayoutOf packed ms h room =
    let p = place_members-Places packed 0 0 ms h (inl refl) (omega arith) in
    finished packed ms (place_members packed 0 0 ms) p room

le_or_lt : (a b : ℕ) → (a ≤ b) ⊎ (b < a)
le_or_lt a b = omega arith

upper_bound-below :
    (packed : Bool) (lo hi : ℕ) (ms : List Member) (os : List ℕ) (offset : ℕ)
    → Placed packed lo ms os hi
    → offset < lo
    → upper_bound os offset ≡ 0
unfolding upper_bound
upper_bound-below packed lo hi ms [] offset h lt = refl
upper_bound-below packed lo hi [] (o ∷ os) offset h lt = absurd h
upper_bound-below packed lo hi (m ∷ ms) (o ∷ os) offset (next, rest) lt =
    ground (arith, next.from_le)

upper_bound-found :
    (packed : Bool) (lo hi : ℕ) (ms : List Member) (os : List ℕ) (i offset o : ℕ) (m : Member)
    → Placed packed lo ms os hi
    → get_elem? ms i ≡ some m
    → get_elem? os i ≡ some o
    → o ≤ offset
    → offset < o + m.alloc_size
    → upper_bound os offset ≡ suc i
unfolding upper_bound
upper_bound-found packed lo hi [] os i offset o m h at_m at_o le lt = absurd (ground (arith, at_m))
upper_bound-found packed lo hi (x ∷ xs) [] i offset o m h at_m at_o le lt = absurd h
upper_bound-found packed lo hi (x ∷ xs) (y ∷ ys) zero offset o m (next, rest) at_m at_o le lt =
    let later =
      upper_bound-below packed (y + x.alloc_size) hi xs ys offset rest
        (ground (arith, at_m, at_o)) in
    ground (arith, at_o, later)
upper_bound-found packed lo hi (x ∷ xs) (y ∷ ys) (suc i) offset o m (next, rest) at_m at_o le lt =
    let later =
      upper_bound-found packed (y + x.alloc_size) hi xs ys i offset o m rest at_m at_o le lt in
    elim (le_or_lt (y + x.alloc_size) offset) [
      | inl behind ↦ ground (arith, later)
      | inr before ↦
          absurd (omega (arith, later, upper_bound-below packed _ hi xs ys offset rest before))
    ]

-- For members whose alignments are powers of two below 2 ^ 32 and which take less than 2 ^ 63 bytes
-- with their alignments, an offset in the bytes of a member is found to be in that member, also where
-- members without bytes lie before it.
pub element_containing_offset-found :
    (packed : Bool) (ms : List Member) (i offset o : ℕ) (m : Member)
    → All (λ m. IsAlignment m.abi_align) ms
    → total packed ms < 2 ^ 63
    → get_elem? ms i ≡ some m
    → get_elem? (struct_layout packed ms).member_offsets i ≡ some o
    → o ≤ offset
    → offset < o + m.alloc_size
    → element_containing_offset (struct_layout packed ms).member_offsets offset ≡ some i
unfolding element_containing_offset
element_containing_offset-found packed ms i offset o m h room at_m at_o le lt =
    let l = struct_layout-IsLayoutOf packed ms h room in
    let found = upper_bound-found packed 0 _ ms _ i offset o m l.placed at_m at_o le lt in
    ground (arith, found)
