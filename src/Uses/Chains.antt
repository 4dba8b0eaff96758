-- ===== src/Uses/Chains.antt =====
-- The lists of uses that a store of Src/Use.cpp holds, through a change of their links.
use dilithium.Base.{ℕ, ◌≡◌, ◌≢◌, ap, sym, ◌∙◌, arith, subst, All, Option, none, some, List, [], ◌∷◌}
use dilithium.Uses.Store.{
  Store, Slot, head_of, next_of, assign_at, read_slot, set_prev, add_to_list, add_use,
}

-- From a slot, the `next_` fields lead through the uses, and their `prev_ptr_` fields lead back.
abbrev pub IsChain : Store → Slot → List ℕ → Type 0
IsChain h s [] = read_slot h s ≡ none
IsChain h s (u ∷ us) = (read_slot h s ≡ some u) × (h.prev_ptr u ≡ s) × IsChain h (next_of u) us

abbrev pub AllOther : ℕ → List ℕ → Type 0
AllOther u us = All (λ y. y ≢ u) us

abbrev pub IsDistinct : List ℕ → Type 0
IsDistinct [] = Unit {0}
IsDistinct (u ∷ us) = AllOther u us × IsDistinct us

-- The links of a use are the same in both stores.
abbrev pub IsKept : Store → Store → ℕ → Type 0
IsKept h h' y = (h'.next y ≡ h.next y) × (h'.prev_ptr y ≡ h.prev_ptr y)

pub IsChain-kept :
    (h h' : Store) (s : Slot) (us : List ℕ)
    → read_slot h' s ≡ read_slot h s
    → All (IsKept h h') us
    → IsChain h s us
    → IsChain h' s us
IsChain-kept h h' s [] same kept chain = same ∙ chain
IsChain-kept h h' s (u ∷ us) same (first, kept) (here, back, rest) =
    (same ∙ here, first.1 ∙ back, IsChain-kept h h' (next_of u) us first.0 kept rest)

pub All-map {ℓ} :
    {A : Type ℓ} (P Q : A → Type 0) (xs : List A) → ((x : A) → P x → Q x) → All P xs → All Q xs
All-map P Q [] f h = tt
All-map P Q (x ∷ xs) f (first, rest) = (f x first, All-map P Q xs f rest)

-- AddUse where the list starts with `first`.
abbrev pub linked : Store → ℕ → ℕ → Option ℕ → Store
linked h v u first =
    let h1 = record h { next = assign_at h.next u first } in
    let h2 = set_prev h1 first (next_of u) in
    record h2 {
      prev_ptr = assign_at h2.prev_ptr u (head_of v);
      use_list = assign_at h2.use_list v (some u);
    }

pub add_use-linked :
    (h : Store) (u v : ℕ) (first : Option ℕ)
    → h.use_list v ≡ first
    → add_use h v u ≡ linked h v u first
unfolding add_use add_to_list
add_use-linked h u v first is_first = ap (linked h v u) is_first

pub assign_at-same {ℓ} : {A : Type ℓ} (f : ℕ → A) (k : ℕ) (a : A) → assign_at f k a k ≡ a
assign_at-same f k a = ground arith

pub assign_at-other {ℓ} :
    {A : Type ℓ} (f : ℕ → A) (k n : ℕ) (a : A) → n ≢ k → assign_at f k a n ≡ f n
assign_at-other f k n a h = ground (arith, h)

-- A use that is neither the new one nor the first keeps its links.
linked-IsKept : (h : Store) (v u x y : ℕ) → y ≢ u → y ≢ x → IsKept h (linked h v u (some x)) y
linked-IsKept h v u x y other apart = (
  assign_at-other h.next u y (some x) other,
  assign_at-other (assign_at h.prev_ptr x (next_of u)) u y (head_of v) other
      ∙ assign_at-other h.prev_ptr x y (next_of u) apart,
)

pub All-both {ℓ} :
    {A : Type ℓ} (P Q : A → Type 0) (xs : List A) → All P xs → All Q xs → All (λ x. P x × Q x) xs
All-both P Q [] h k = tt
All-both P Q (x ∷ xs) (p, h) (q, k) = ((p, q), All-both P Q xs h k)

AllOther-linked :
    (h : Store) (v u x : ℕ) (us : List ℕ)
    → AllOther u us
    → AllOther x us
    → All (IsKept h (linked h v u (some x))) us
AllOther-linked h v u x us other apart =
    All-map (λ y. (y ≢ u) × (y ≢ x)) (IsKept h (linked h v u (some x))) us
      (λ y p. linked-IsKept h v u x y p.0 p.1) (All-both (λ y. y ≢ u) (λ y. y ≢ x) us other apart)

-- The new list of a value, whose list the use is not in.
pub linked-IsChain :
    (h : Store) (u v : ℕ) (us : List ℕ)
    → AllOther u us
    → IsDistinct us
    → IsChain h (head_of v) us
    → IsChain (add_use h v u) (head_of v) (u ∷ us)
linked-IsChain h u v [] other distinct chain =
    subst (λ (h' : Store). IsChain h' (head_of v) (u ∷ [])) (sym (add_use-linked h u v none chain))
      (
        assign_at-same h.use_list v (some u),
        assign_at-same h.prev_ptr u (head_of v),
        assign_at-same h.next u none,
      )
linked-IsChain h u v (x ∷ us) (other, others) (apart, distinct) (here, back, rest) =
    let h' = linked h v u (some x) in
    subst (λ (h' : Store). IsChain h' (head_of v) (u ∷ x ∷ us))
      (sym (add_use-linked h u v (some x) here))
      (
        assign_at-same h.use_list v (some u),
        assign_at-same (assign_at h.prev_ptr x (next_of u)) u (head_of v),
        (
          assign_at-same h.next u (some x),
          assign_at-other (assign_at h.prev_ptr x (next_of u)) u x (head_of v) other
              ∙ assign_at-same h.prev_ptr x (next_of u),
          IsChain-kept h h' (next_of x) us (assign_at-other h.next u x (some x) other)
              (AllOther-linked h v u x us others apart) rest,
        ),
      )

abbrev pub FirstOther : Option ℕ → List ℕ → Type 0
FirstOther none us = Unit {0}
FirstOther (some x) us = AllOther x us

-- The list of another value, in which neither use is.
pub linked-IsChain_other :
    (h : Store) (u v w : ℕ) (us : List ℕ) (first : Option ℕ)
    → h.use_list v ≡ first
    → w ≢ v
    → AllOther u us
    → FirstOther first us
    → IsChain h (head_of w) us
    → IsChain (add_use h v u) (head_of w) us
linked-IsChain_other h u v w us none is_first apart other first_apart chain =
    subst (λ (h' : Store). IsChain h' (head_of w) us) (sym (add_use-linked h u v none is_first))
      (IsChain-kept h (linked h v u none) (head_of w) us
        (assign_at-other h.use_list v w (some u) apart)
        (All-map (λ y. y ≢ u) (IsKept h (linked h v u none)) us
          (λ y p. (assign_at-other h.next u y none p, assign_at-other h.prev_ptr u y (head_of v) p))
          other)
        chain)
linked-IsChain_other h u v w us (some x) is_first apart other first_apart chain =
    subst (λ (h' : Store). IsChain h' (head_of w) us) (sym (add_use-linked h u v (some x) is_first))
      (IsChain-kept h (linked h v u (some x)) (head_of w) us
        (assign_at-other h.use_list v w (some u) apart)
        (AllOther-linked h v u x us other first_apart) chain)
