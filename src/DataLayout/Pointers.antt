-- ===== src/DataLayout/Pointers.antt =====
-- The table of pointers of Src/DataLayout.cpp as a map with a default.
use dilithium.Base.{ℕ, suc, ◌≤◌, ◌≡◌, ◌≢◌, refl, ap, sym, ◌∙◌, arith, subst, inl, inr}
use dilithium.Base.{true, if◌then◌else◌, ◌==◌, Bool-cases, Option, none, some, List, [], ◌∷◌}
use dilithium.DataLayout.{
  Result, ok, fault, PointerAlignElem, set_pointer_in, set_pointer_alignment,
  find_pointer_lower_bound, find_pointer, is_power_of_two,
}
use dilithium.DataLayout.Tables.{
  IsValidPointer, IsAscending, IsPointerTable, entry_for, pick, pick-entry_for,
  set_pointer_alignment-eq, set_pointer_in-IsPointerTable,
}

abbrev or_else : Option PointerAlignElem → Result PointerAlignElem → Result PointerAlignElem
or_else none d = d
or_else (some e) d = ok e

or_else-pick :
    (a : ℕ) (es : List PointerAlignElem) (d : Result PointerAlignElem)
    → (elim es as (λ _. Result PointerAlignElem) [
      | [] ↦ d
      | e ∷ _ ↦ if e.addr_space == a then ok e else d
    ])
      ≡ or_else (pick a es) d
or_else-pick a [] d = refl
or_else-pick a (e ∷ es) d = elim (Bool-cases (e.addr_space == a)) [
  | inl same ↦ grind (arith, same)
  | inr other ↦ grind (arith, other)
]

IsAscending-from_zero :
    (e : PointerAlignElem) (es : List PointerAlignElem)
    → IsPointerTable (e ∷ es)
    → IsAscending 0 (e ∷ es)
IsAscending-from_zero e es (start, valid, rest) =
    (omega arith, valid, subst (λ (t : ℕ). IsAscending (suc t) es) (sym start) rest)

find_default :
    (e : PointerAlignElem) (es : List PointerAlignElem)
    → e.addr_space ≡ 0
    → find_pointer 0 (e ∷ es) ≡ ok e
unfolding find_pointer find_pointer_lower_bound
find_default e es h = grind (arith, h)

-- The element for the address space, or else that for address space 0, which comes first.
pub find_pointer-entry_for :
    (a : ℕ) (e : PointerAlignElem) (es : List PointerAlignElem)
    → IsPointerTable (e ∷ es)
    → find_pointer a (e ∷ es) ≡ or_else (entry_for a (e ∷ es)) (ok e)
unfolding find_pointer find_pointer_lower_bound
find_pointer-entry_for a e es table =
    let start : e.addr_space ≡ 0 = table.0 in
    let default : (elim (find_pointer_lower_bound 0 (e ∷ es)) as (λ _. Result PointerAlignElem) [
      | [] ↦ fault
      | elem ∷ _ ↦ if elem.addr_space == 0 then ok elem else fault
    ])
        ≡ ok e =
      grind (arith, start) in
    or_else-pick a (find_pointer_lower_bound a (e ∷ es)) _
    ∙ ap (or_else (pick a (find_pointer_lower_bound a (e ∷ es)))) default
    ∙ ap (λ (o : Option PointerAlignElem). or_else o (ok e))
        (pick-entry_for a 0 (e ∷ es) (IsAscending-from_zero e es table))

entry_for-set :
    (a : ℕ) (new : PointerAlignElem) (es : List PointerAlignElem)
    → entry_for a (set_pointer_in new es)
      ≡ (if new.addr_space == a then some new else entry_for a es)
unfolding entry_for set_pointer_in
entry_for-set a new [] = ground arith
entry_for-set a new (e ∷ es) = grind (arith, entry_for-set a new es)

find_pointer-map :
    (b : ℕ) (es : List PointerAlignElem)
    → IsPointerTable es
    → find_pointer b es ≡ or_else (entry_for b es) (or_else (entry_for 0 es) fault)
unfolding entry_for
find_pointer-map b [] table = elim table [ ]
find_pointer-map b (e ∷ es) table =
    let start : e.addr_space ≡ 0 = table.0 in
    let head : entry_for 0 (e ∷ es) ≡ some e = ground (arith, start) in
    find_pointer-entry_for b e es table
    ∙ ap (λ (o : Option PointerAlignElem). or_else (entry_for b (e ∷ es)) (or_else o fault))
        (sym head)

-- In a well-formed table every lookup finds an element.
pub find_pointer-some :
    (b : ℕ) (es : List PointerAlignElem)
    → IsPointerTable es
    → (e : PointerAlignElem) × (find_pointer b es ≡ ok e)
find_pointer-some b [] table = elim table [ ]
find_pointer-some b (e ∷ es) table = go (entry_for b (e ∷ es)) (find_pointer-entry_for b e es table)
  where
    go :
        (o : Option PointerAlignElem)
        → find_pointer b (e ∷ es) ≡ or_else o (ok e)
        → (e' : PointerAlignElem) × (find_pointer b (e ∷ es) ≡ ok e')
    go none h = (e, h)
    go (some e') h = (e', h)

entered :
    (new : PointerAlignElem) (es : List PointerAlignElem)
    → IsPointerTable (set_pointer_in new es)
    → find_pointer new.addr_space (set_pointer_in new es) ≡ ok new
entered new es table' =
    let own : entry_for new.addr_space (set_pointer_in new es) ≡ some new =
      entry_for-set new.addr_space new es ∙ ground arith in
    find_pointer-map new.addr_space (set_pointer_in new es) table'
    ∙ ap
        (λ (o : Option PointerAlignElem).
          or_else o (or_else (entry_for 0 (set_pointer_in new es)) fault))
        own

kept :
    (new : PointerAlignElem) (es : List PointerAlignElem)
    → IsPointerTable es
    → IsPointerTable (set_pointer_in new es)
    → (b : ℕ) → b ≢ new.addr_space
    → new.addr_space ≢ 0
    → find_pointer b (set_pointer_in new es) ≡ find_pointer b es
kept new es table table' b other high =
    let own : entry_for b (set_pointer_in new es) ≡ entry_for b es =
      entry_for-set b new es ∙ ground (arith, other) in
    let default : entry_for 0 (set_pointer_in new es) ≡ entry_for 0 es =
      entry_for-set 0 new es ∙ ground (arith, high) in
    find_pointer-map b (set_pointer_in new es) table'
    ∙ ap
        (λ (o : Option PointerAlignElem).
          or_else o (or_else (entry_for 0 (set_pointer_in new es)) fault))
        own
    ∙ ap (λ (o : Option PointerAlignElem). or_else (entry_for b es) (or_else o fault)) default
    ∙ sym (find_pointer-map b es table)

-- The element that a call of PointerAlignment enters.
abbrev pub pointer_elem : ℕ → ℕ → ℕ → ℕ → PointerAlignElem
pointer_elem a abi pref size = record {
  addr_space = a;
  abi = abi;
  pref = pref;
  type_byte_width = size;
}

-- In a table of pointers that is well-formed, with the address spaces in ascending order from 0 on,
-- PointerAlignment with two powers of two of which the preferred is not below the other succeeds. The
-- new table is well-formed, what is found in it for the address space is what was entered, and, if
-- the address space is not 0, what is found for another address space is what was found before.
pub set_pointer_alignment-find :
    (a abi pref size : ℕ) (es : List PointerAlignElem)
    → IsPointerTable es
    → abi ≤ pref
    → is_power_of_two abi ≡ true
    → is_power_of_two pref ≡ true
    → (es' : List PointerAlignElem) × (set_pointer_alignment a abi pref size es ≡ ok es')
      × IsPointerTable es'
      × (find_pointer a es' ≡ ok (pointer_elem a abi pref size))
      × ((b : ℕ) → b ≢ a → a ≢ 0 → find_pointer b es' ≡ find_pointer b es)
set_pointer_alignment-find a abi pref size es table h abi_power pref_power =
    let new = pointer_elem a abi pref size in
    let valid : IsValidPointer new = record {
      in_order = h;
      abi_power = abi_power;
      pref_power = pref_power;
    } in
    let table' = set_pointer_in-IsPointerTable new es valid table in
    (
      set_pointer_in new es,
      set_pointer_alignment-eq a abi pref size es h,
      table',
      entered new es table',
      kept new es table table',
    )
