-- ===== src/Uses/Sorted.antt =====
-- SortUseList of Src/Value.cpp against insertion into a sorted list.
use dilithium.Base.{ℕ, ◌≤◌, ◌≡◌, refl, ap, sym, ◌∙◌, subst, arith, inl, inr}
use dilithium.Base.{
  Bool, true, false, ltb, Bool-cases, Option, none, some, List, [], ◌∷◌, ◌++◌, All,
}
use mathlib.Core.List.{append_assoc, Perm}
use mathlib.Core.List.Perm
use dilithium.Uses.Sort.{merge_use_lists, save_in_slot, merge_slots, collect, sort_use_list}

module _ {ℓ} {A : Type ℓ} (cmp : A → A → Bool) where
  -- Before the first element that is not before it.
  unfoldable pub insert : A → List A → List A
  insert x [] = x ∷ []
  insert x (y ∷ ys) = elim (cmp y x) [ true ↦ y ∷ insert x ys | false ↦ x ∷ y ∷ ys ]

  unfoldable pub insertion_sort : List A → List A
  unfolding insert
  insertion_sort [] = []
  insertion_sort (x ∷ xs) = insert x (insertion_sort xs)

-- A comparison of keys, as the reader of use lists passes it.
module _ {ℓ} {A : Type ℓ} (cmp : A → A → Bool) (key : A → ℕ)
    (by_key : (x y : A) → cmp x y ≡ ltb (key x) (key y)) where
  merge-insert :
      (x : A) (l r : List A)
      → merge_use_lists cmp (insert cmp x l) r ≡ insert cmp x (merge_use_lists cmp l r)
  unfolding insert merge_use_lists
  merge-insert x [] [] = refl
  merge-insert x [] (b ∷ r) = elim (Bool-cases (cmp b x)) [
    | inl before ↦ grind (arith, before, merge-insert x [] r)
    | inr after ↦ grind (arith, after)
  ]
  merge-insert x (a ∷ l) [] = elim (Bool-cases (cmp a x)) [
    | inl before ↦ grind (arith, before)
    | inr after ↦ grind (arith, after)
  ]
  merge-insert x (a ∷ l) (b ∷ r) = grind (
    arith,
    by_key a x,
    by_key b a,
    by_key b x,
    merge-insert x (a ∷ l) r,
    merge-insert x l (b ∷ r),
  )

  merge-insertion_sort :
      (a b : List A)
      → merge_use_lists cmp (insertion_sort cmp a) (insertion_sort cmp b)
        ≡ insertion_sort cmp (a ++ b)
  unfolding insertion_sort merge_use_lists
  merge-insertion_sort [] b = refl
  merge-insertion_sort (x ∷ a) b =
      merge-insert x (insertion_sort cmp a) (insertion_sort cmp b)
      ∙ ap (insert cmp x) (merge-insertion_sort a b)

  -- The slots hold, from the last on, the sorted pieces of `xs`.
  data Holds : List (Option (List A)) → List A → Type ℓ where
    nothing : Holds [] []
    open_slot :
        {slots : List (Option (List A))} {xs : List A} → Holds slots xs → Holds (none ∷ slots) xs
    taken :
        (slots : List (Option (List A))) (xs piece : List A)
        → Holds slots xs
        → Holds (some (insertion_sort cmp piece) ∷ slots) (xs ++ piece)

  save_in_slot-Holds :
      (slots : List (Option (List A))) (xs b : List A)
      → Holds slots xs
      → Holds (save_in_slot cmp slots (insertion_sort cmp b)) (xs ++ b)
  unfolding save_in_slot
  save_in_slot-Holds slots xs b nothing = taken [] [] b nothing
  save_in_slot-Holds slots xs b (open_slot h) = taken _ _ b h
  save_in_slot-Holds slots xs b (taken rest ys piece h) =
      let kept = save_in_slot-Holds rest ys (piece ++ b) h in
      let merged = ap (save_in_slot cmp rest) (sym (merge-insertion_sort piece b)) in
      open_slot (
        subst (λ (s : List (Option (List A))). Holds s (ys ++ piece ++ b)) merged
          (subst (Holds (save_in_slot cmp rest (insertion_sort cmp (piece ++ b))))
            (sym (append_assoc ys piece b)) kept))

  merge_slots-sort :
      (slots : List (Option (List A))) (xs b : List A)
      → Holds slots xs
      → merge_slots cmp slots (insertion_sort cmp b) ≡ insertion_sort cmp (xs ++ b)
  unfolding merge_slots
  merge_slots-sort slots xs b nothing = refl
  merge_slots-sort slots xs b (open_slot h) = merge_slots-sort _ _ b h
  merge_slots-sort slots xs b (taken rest ys piece h) =
      ap (merge_slots cmp rest) (merge-insertion_sort piece b)
      ∙ merge_slots-sort rest ys (piece ++ b) h
      ∙ ap (insertion_sort cmp) (sym (append_assoc ys piece b))

  collect-sort :
      (slots : List (Option (List A))) (xs : List A) (next : A) (rest : List A)
      → Holds slots xs
      → collect cmp slots next rest ≡ insertion_sort cmp (xs ++ next ∷ rest)
  unfolding collect insertion_sort
  collect-sort slots xs next [] h = merge_slots-sort slots xs (next ∷ []) h
  collect-sort slots xs next (after ∷ rest) h =
      collect-sort (save_in_slot cmp slots (next ∷ [])) (xs ++ next ∷ []) after rest
        (save_in_slot-Holds slots xs (next ∷ []) h)
      ∙ ap (insertion_sort cmp) (append_assoc xs (next ∷ []) (after ∷ rest))

  -- For a comparison by numeric keys, SortUseList orders the uses as insertion into a sorted list
  -- does, one behind those of the same key that were before it.
  pub sort_use_list-insertion_sort : (xs : List A) → sort_use_list cmp xs ≡ insertion_sort cmp xs
  unfolding sort_use_list insertion_sort insert
  sort_use_list-insertion_sort [] = refl
  sort_use_list-insertion_sort (only ∷ []) = refl
  sort_use_list-insertion_sort (first ∷ next ∷ rest) =
      collect-sort (some (first ∷ []) ∷ []) (first ∷ []) next rest
        (taken [] [] (first ∷ []) nothing)

  abbrev pub IsSorted : List A → Type 0
  IsSorted [] = Unit {0}
  IsSorted (x ∷ xs) = All (λ y. key x ≤ key y) xs × IsSorted xs

  All-insert :
      (k : ℕ) (x : A) (ys : List A)
      → k ≤ key x
      → All (λ y. k ≤ key y) ys
      → All (λ y. k ≤ key y) (insert cmp x ys)
  unfolding insert
  All-insert k x [] h tail = (h, tt)
  All-insert k x (y ∷ ys) h (first, tail) =
      elim (cmp y x)
        as (λ b.
          All (λ y. k ≤ key y) (elim b [ true ↦ y ∷ insert cmp x ys | false ↦ x ∷ y ∷ ys ])) [
            | true ↦ (first, All-insert k x ys h tail)
            | false ↦ (h, (first, tail))
          ]

  All-le : (a b : ℕ) (ys : List A) → a ≤ b → All (λ y. b ≤ key y) ys → All (λ y. a ≤ key y) ys
  All-le a b [] h tail = tt
  All-le a b (y ∷ ys) h (first, tail) = (omega arith, All-le a b ys h tail)

  insert-IsSorted : (x : A) (ys : List A) → IsSorted ys → IsSorted (insert cmp x ys)
  unfolding insert
  insert-IsSorted x [] h = (tt, tt)
  insert-IsSorted x (y ∷ ys) (first, tail) = go (cmp y x) (by_key y x) (insert-IsSorted x ys tail)
    where
      go :
          (b : Bool)
          → b ≡ ltb (key y) (key x)
          → IsSorted (insert cmp x ys)
          → IsSorted (elim b [ true ↦ y ∷ insert cmp x ys | false ↦ x ∷ y ∷ ys ])
      go true before rest =
          let less : key y ≤ key x = ground (arith, before) in
          (All-insert (key y) x ys less first, rest)
      go false after rest =
          let less : key x ≤ key y = ground (arith, after) in
          ((less, All-le (key x) (key y) ys less first), (first, tail))

  insertion_sort-IsSorted : (xs : List A) → IsSorted (insertion_sort cmp xs)
  unfolding insertion_sort
  insertion_sort-IsSorted [] = tt
  insertion_sort-IsSorted (x ∷ xs) =
      insert-IsSorted x (insertion_sort cmp xs) (insertion_sort-IsSorted xs)

  insert-Perm : (x : A) (ys : List A) → Perm (insert cmp x ys) (x ∷ ys)
  unfolding insert
  insert-Perm x [] = Perm.refl (x ∷ [])
  insert-Perm x (y ∷ ys) =
      elim (cmp y x)
        as (λ b. Perm (elim b [ true ↦ y ∷ insert cmp x ys | false ↦ x ∷ y ∷ ys ]) (x ∷ y ∷ ys)) [
          | true ↦ Perm.trans (Perm.cons y (insert-Perm x ys)) (Perm.swap x y ys)
          | false ↦ Perm.refl (x ∷ y ∷ ys)
        ]

  insertion_sort-Perm : (xs : List A) → Perm (insertion_sort cmp xs) xs
  unfolding insertion_sort
  insertion_sort-Perm [] = Perm.refl []
  insertion_sort-Perm (x ∷ xs) =
      Perm.trans (insert-Perm x (insertion_sort cmp xs)) (Perm.cons x (insertion_sort-Perm xs))

  -- For a comparison by numeric keys, the list that SortUseList leaves has the same uses as before,
  -- and no use in it has one of a smaller key behind it.
  pub sort_use_list-IsSorted :
      (xs : List A) → IsSorted (sort_use_list cmp xs) × Perm (sort_use_list cmp xs) xs
  sort_use_list-IsSorted xs =
      let same = sym (sort_use_list-insertion_sort xs) in
      (
        subst IsSorted same (insertion_sort-IsSorted xs),
        subst (λ (ys : List A). Perm ys xs) same (insertion_sort-Perm xs),
      )
