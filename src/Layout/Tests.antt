-- ===== src/Layout/Tests.antt =====
-- The layout of `{ i8, i32, i16 }`.
use dilithium.Base.{◌≡◌, refl, arith, false, some, List, [], ◌∷◌, All}
use dilithium.Layout.{Member, struct_layout, place_members, align_size, round_up_to_alignment}
use dilithium.Layout.{element_containing_offset}
use dilithium.Layout.Members.{IsAlignment}
use dilithium.Layout.Offsets.{IsLayoutOf, struct_layout-IsLayoutOf, element_containing_offset-found}

abbrev i8 : Member
i8 = record { abi_align = 1; alloc_size = 1 }

abbrev i16 : Member
i16 = record { abi_align = 2; alloc_size = 2 }

abbrev i32 : Member
i32 = record { abi_align = 4; alloc_size = 4 }

abbrev members : List Member
members = i8 ∷ i32 ∷ i16 ∷ []

members-IsAlignment : All (λ m. IsAlignment m.abi_align) members
members-IsAlignment =
    ((0, omega arith, refl), ((2, omega arith, refl), ((1, omega arith, refl), tt)))

offsets_of_members : (struct_layout false members).member_offsets ≡ 0 ∷ 4 ∷ 8 ∷ []
unfolding struct_layout place_members align_size round_up_to_alignment
offsets_of_members = refl

struct_layout-IsLayoutOf_example : IsLayoutOf false members (struct_layout false members)
struct_layout-IsLayoutOf_example =
    struct_layout-IsLayoutOf false members members-IsAlignment (omega arith)

element_containing_offset-found_example :
    element_containing_offset (struct_layout false members).member_offsets 6 ≡ some 1
unfolding struct_layout place_members align_size round_up_to_alignment
element_containing_offset-found_example =
    element_containing_offset-found false members 1 6 4 i32 members-IsAlignment (omega arith) refl
      refl (omega arith) (omega arith)
