-- ===== src/Uses/Sort.antt =====
-- SortUseList and the merges of Src/Value.cpp. A chain of uses by their `next_` pointers is a list.
use dilithium.Base.{Bool, true, false, Option, none, some, List, [], ◌∷◌}

module _ {ℓ} {A : Type ℓ} (cmp : A → A → Bool) where
  -- MergeUseLists
  unfoldable pub merge_use_lists : List A → List A → List A
  merge_use_lists [] r = r
  merge_use_lists (x ∷ l) [] = x ∷ l
  merge_use_lists (x ∷ l) (y ∷ r) = elim (cmp y x) [
    | true ↦ y ∷ merge_use_lists (x ∷ l) r
    | false ↦ x ∷ merge_use_lists l (y ∷ r)
  ]

  -- The first open slot takes `current`, merged with the lists in the slots before it.
  unfoldable pub save_in_slot : List (Option (List A)) → List A → List (Option (List A))
  unfolding merge_use_lists
  save_in_slot [] current = some current ∷ []
  save_in_slot (none ∷ slots) current = some current ∷ slots
  save_in_slot (some held ∷ slots) current =
      none ∷ save_in_slot slots (merge_use_lists held current)

  -- The loop that merges all slots into the list.
  unfoldable pub merge_slots : List (Option (List A)) → List A → List A
  unfolding merge_use_lists
  merge_slots [] use_list = use_list
  merge_slots (none ∷ slots) use_list = merge_slots slots use_list
  merge_slots (some held ∷ slots) use_list = merge_slots slots (merge_use_lists held use_list)

  -- The loop over all uses but the last, and what follows it.
  unfoldable pub collect : List (Option (List A)) → A → List A → List A
  unfolding save_in_slot merge_slots
  collect slots next [] = merge_slots slots (next ∷ [])
  collect slots next (after ∷ rest) = collect (save_in_slot slots (next ∷ [])) after rest

  unfoldable pub sort_use_list : List A → List A
  unfolding collect
  sort_use_list [] = []
  sort_use_list (only ∷ []) = only ∷ []
  sort_use_list (first ∷ next ∷ rest) = collect (some (first ∷ []) ∷ []) next rest
