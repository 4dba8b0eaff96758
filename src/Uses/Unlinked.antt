-- ===== src/Uses/Unlinked.antt =====
-- RemoveFromList of Src/Use.cpp on the lists of a store.
use dilithium.Base.{
  ℕ, ◌≡◌, ◌≢◌, refl, ap, sym, ◌∙◌, subst, All, Option, none, some, List, [], ◌∷◌, ◌++◌,
}
use dilithium.Uses.Store.{
  Store, Slot, head_of, next_of, read_slot, write_slot, set_prev, remove_from_list,
}
use dilithium.Uses.Chains.{
  IsChain, AllOther, IsDistinct, IsKept, IsChain-kept, All-map, All-both, assign_at-same,
  assign_at-other,
}

-- RemoveFromList of a use with these links.
abbrev pub unlinked : Store → Slot → Option ℕ → Store
unlinked h before after = set_prev (write_slot h before after) after before

pub remove_from_list-unlinked :
    (h : Store) (u : ℕ) (before : Slot) (after : Option ℕ)
    → h.prev_ptr u ≡ before
    → h.next u ≡ after
    → remove_from_list h u ≡ unlinked h before after
unfolding remove_from_list
remove_from_list-unlinked h u before after b a =
    ap (λ (s : Slot). unlinked h s (h.next u)) b ∙ ap (unlinked h before) a

-- The slot is not the `next_` of a use.
abbrev pub IsNotNext : Slot → ℕ → Type 0
IsNotNext (head_of v) y = Unit {0}
IsNotNext (next_of u) y = y ≢ u

read_slot-write : (h : Store) (s : Slot) (o : Option ℕ) → read_slot (write_slot h s o) s ≡ o
read_slot-write h (head_of v) o = assign_at-same h.use_list v o
read_slot-write h (next_of u) o = assign_at-same h.next u o

pub read_slot-set_prev :
    (h : Store) (o : Option ℕ) (s t : Slot) → read_slot (set_prev h o s) t ≡ read_slot h t
read_slot-set_prev h none s (head_of v) = refl
read_slot-set_prev h none s (next_of u) = refl
read_slot-set_prev h (some n) s (head_of v) = refl
read_slot-set_prev h (some n) s (next_of u) = refl

-- A use whose `next_` is not the slot, and which is not the use after it, keeps its links.
abbrev pub FirstNot : Option ℕ → ℕ → Type 0
FirstNot none y = Unit {0}
FirstNot (some n) y = y ≢ n

pub unlinked-IsKept :
    (h : Store) (before : Slot) (after : Option ℕ) (y : ℕ)
    → IsNotNext before y
    → FirstNot after y
    → IsKept h (unlinked h before after) y
unlinked-IsKept h (head_of v) none y slot first = (refl, refl)
unlinked-IsKept h (head_of v) (some n) y slot first =
    (refl, assign_at-other h.prev_ptr n y (head_of v) first)
unlinked-IsKept h (next_of u) none y slot first = (assign_at-other h.next u y none slot, refl)
unlinked-IsKept h (next_of u) (some n) y slot first =
    (assign_at-other h.next u y (some n) slot, assign_at-other h.prev_ptr n y (next_of u) first)

write_slot-next :
    (h : Store) (s : Slot) (y : ℕ) (o : Option ℕ)
    → IsNotNext s y
    → (write_slot h s o).next y ≡ h.next y
write_slot-next h (head_of v) y o slot = refl
write_slot-next h (next_of u) y o slot = assign_at-other h.next u y o slot

-- The list from the slot on, where the use after the removed one comes first.
unlinked-here :
    (h : Store) (u : ℕ) (s : Slot) (post : List ℕ)
    → All (IsNotNext s) post
    → IsDistinct post
    → IsChain h s (u ∷ post)
    → IsChain (remove_from_list h u) s post
unlinked-here h u s [] slot distinct (here, back, after) =
    subst (λ (h' : Store). IsChain h' s []) (sym (remove_from_list-unlinked h u s none back after))
      (read_slot-write h s none)
unlinked-here h u s (n ∷ post) (own, slot) (apart, distinct) (here, back, (after, back', rest)) =
    let h' = unlinked h s (some n) in
    let before_back = write_slot h s (some n) in
    let kept : All (IsKept h h') post =
      All-map (λ y. IsNotNext s y × (y ≢ n)) (IsKept h h') post
        (λ y p. unlinked-IsKept h s (some n) y p.0 p.1)
        (All-both (IsNotNext s) (λ y. y ≢ n) post slot apart) in
    subst (λ (h'' : Store). IsChain h'' s (n ∷ post))
      (sym (remove_from_list-unlinked h u s (some n) back after))
      (
        read_slot-set_prev (write_slot h s (some n)) (some n) s s ∙ read_slot-write h s (some n),
        assign_at-same before_back.prev_ptr n s,
        IsChain-kept h h' (next_of n) post (write_slot-next h s n (some n) own) kept rest,
      )

abbrev pub first_of : List ℕ → Option ℕ
first_of [] = none
first_of (n ∷ ns) = some n

pub after_of : (h : Store) (s : Slot) (us : List ℕ) → IsChain h s us → read_slot h s ≡ first_of us
after_of h s [] chain = chain
after_of h s (n ∷ us) chain = chain.0

-- What a use in a list links to.
pub next-first_of :
    (h : Store) (s : Slot) (pre : List ℕ) (u : ℕ) (post : List ℕ)
    → IsChain h s (pre ++ u ∷ post)
    → h.next u ≡ first_of post
next-first_of h s [] u post (here, back, rest) = after_of h (next_of u) post rest
next-first_of h s (p ∷ pre) u post (here, back, rest) = next-first_of h (next_of p) pre u post rest

-- A use in a list behind `p` has the `next_` of `p`, or of a use behind it, before it.
pub prev-next_of :
    (P : ℕ → Type 0) (h : Store) (p : ℕ) (pre : List ℕ) (u : ℕ) (post : List ℕ)
    → IsChain h (next_of p) (pre ++ u ∷ post)
    → P p
    → All P (pre ++ u ∷ post)
    → (q : ℕ) × (h.prev_ptr u ≡ next_of q) × P q
prev-next_of P h p [] u post (here, back, rest) own others = (p, back, own)
prev-next_of P h p (x ∷ pre) u post (here, back, rest) own (first, others) =
    prev-next_of P h x pre u post rest first others

pub read_slot-write_other :
    (h : Store) (q : ℕ) (s : Slot) (o : Option ℕ)
    → IsNotNext s q
    → read_slot (write_slot h (next_of q) o) s ≡ read_slot h s
read_slot-write_other h q (head_of v) o apart = refl
read_slot-write_other h q (next_of x) o apart =
    assign_at-other h.next q x o (λ same. apart (sym same))

FirstNot-first_of :
    (p : ℕ) (pre : List ℕ) (u : ℕ) (post : List ℕ)
    → AllOther p (pre ++ u ∷ post)
    → FirstNot (first_of post) p
FirstNot-first_of p [] u [] other = tt
FirstNot-first_of p [] u (n ∷ post) (_, (first, _)) = λ same. first (sym same)
FirstNot-first_of p (x ∷ pre) u post (_, other) = FirstNot-first_of p pre u post other

prev-unlinked :
    (h : Store) (q p : ℕ) (after : Option ℕ)
    → FirstNot after p
    → (unlinked h (next_of q) after).prev_ptr p ≡ h.prev_ptr p
prev-unlinked h q p none first = refl
prev-unlinked h q p (some n) first = assign_at-other h.prev_ptr n p (next_of q) first

-- RemoveFromList takes the use out of the list that it is in.
pub unlinked-IsChain :
    (h : Store) (u : ℕ) (s : Slot) (pre post : List ℕ)
    → All (IsNotNext s) (pre ++ u ∷ post)
    → IsDistinct (pre ++ u ∷ post)
    → IsChain h s (pre ++ u ∷ post)
    → IsChain (remove_from_list h u) s (pre ++ post)
unlinked-IsChain h u s [] post (_, slot) (_, distinct) chain =
    unlinked-here h u s post slot distinct chain
unlinked-IsChain h u s (p ∷ pre) post (own, slot) (apart, distinct) (here, back, rest) =
    let (q, before, not_next) = prev-next_of (IsNotNext s) h p pre u post rest own slot in
    let after = next-first_of h (next_of p) pre u post rest in
    let same = remove_from_list-unlinked h u (next_of q) (first_of post) before after in
    let more = unlinked-IsChain h u (next_of p) pre post apart distinct rest in
    let read_same : read_slot (remove_from_list h u) s ≡ read_slot h s =
      ap (λ (h' : Store). read_slot h' s) same
      ∙ read_slot-set_prev (write_slot h (next_of q) (first_of post)) (first_of post) (next_of q) s
      ∙ read_slot-write_other h q s (first_of post) not_next in
    let prev_same : (remove_from_list h u).prev_ptr p ≡ h.prev_ptr p =
      ap (λ (h' : Store). h'.prev_ptr p) same
      ∙ prev-unlinked h q p (first_of post) (FirstNot-first_of p pre u post apart) in
    (read_same ∙ here, prev_same ∙ back, more)
