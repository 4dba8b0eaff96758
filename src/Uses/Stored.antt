-- ===== src/Uses/Stored.antt =====
-- Set of Src/Use.cpp on a store in which every value has the list of its uses.
use dilithium.Base.{
  ℕ, ◌≡◌, ◌≢◌, refl, ap, sym, ◌∙◌, arith, subst, All, Option, none, some, List, [], ◌∷◌, ◌++◌,
}
use dilithium.Uses.Store.{Store, Slot, head_of, next_of, write_slot, set_prev, remove_from_list}
use dilithium.Uses.Chains.{
  IsChain, AllOther, IsDistinct, IsKept, IsChain-kept, All-map, assign_at-other,
}
use dilithium.Uses.Unlinked.{
  unlinked, remove_from_list-unlinked, next-first_of, prev-next_of, first_of, FirstNot,
  unlinked-IsKept, read_slot-set_prev,
}
use dilithium.Uses.Without.{All-append_right}

-- Each value has its uses in its list, once each, and every use of a value is in its list.
pub record IsStore (h : Store) (uses : ℕ → List ℕ) : Type 0 where
  pub chain : (v : ℕ) → IsChain h (head_of v) (uses v)
  pub distinct : (v : ℕ) → IsDistinct (uses v)
  pub owned : (v : ℕ) → All (λ y. h.val y ≡ some v) (uses v)
  pub listed :
      (y v : ℕ) → h.val y ≡ some v → (pre : List ℕ) × (post : List ℕ) × (uses v ≡ pre ++ y ∷ post)

-- The same where the use `u` is in no list, whatever its value.
pub record IsStoreBut (u : ℕ) (h : Store) (uses : ℕ → List ℕ) : Type 0 where
  pub chain : (v : ℕ) → IsChain h (head_of v) (uses v)
  pub distinct : (v : ℕ) → IsDistinct (uses v)
  pub other : (v : ℕ) → AllOther u (uses v)
  pub owned : (v : ℕ) → All (λ y. h.val y ≡ some v) (uses v)
  pub listed :
      (y v : ℕ)
      → y ≢ u
      → h.val y ≡ some v
      → (pre : List ℕ) × (post : List ℕ) × (uses v ≡ pre ++ y ∷ post)

pub none≢some : (v : ℕ) → none ≢ some v
none≢some v h = absurd (ground (arith, h))

some_injective : (v w : ℕ) → some v ≡ some w → v ≡ w
some_injective v w h = ground (arith, h)

-- The use of one value is in no list of another.
pub owned-AllOther :
    (h : Store) (u v w : ℕ) (us : List ℕ)
    → h.val u ≡ some v
    → w ≢ v
    → All (λ y. h.val y ≡ some w) us
    → AllOther u us
owned-AllOther h u v w us value apart owned =
    All-map (λ y. h.val y ≡ some w) (λ y. y ≢ u) us
      (λ y o same. apart (some_injective w v (sym o ∙ ap h.val same ∙ value))) owned

pub unused-AllOther :
    (h : Store) (u w : ℕ) (us : List ℕ)
    → h.val u ≡ none
    → All (λ y. h.val y ≡ some w) us
    → AllOther u us
unused-AllOther h u w us value owned =
    All-map (λ y. h.val y ≡ some w) (λ y. y ≢ u) us
      (λ y o same. none≢some w (sym value ∙ ap h.val (sym same) ∙ o)) owned

-- RemoveFromList leaves the values as they are.
pub remove_from_list-val : (h : Store) (u : ℕ) → (remove_from_list h u).val ≡ h.val
unfolding remove_from_list
remove_from_list-val h u = go (h.prev_ptr u) (h.next u)
  where
    go : (s : Slot) (o : Option ℕ) → (set_prev (write_slot h s o) o s).val ≡ h.val
    go (head_of v) none = refl
    go (head_of v) (some n) = refl
    go (next_of q) none = refl
    go (next_of q) (some n) = refl

owned_outside :
    (h : Store) (v w y : ℕ) (us : List ℕ)
    → h.val y ≡ some w
    → w ≢ v
    → All (λ z. h.val z ≡ some v) us
    → All (λ z. y ≢ z) us
owned_outside h v w y us value apart owned =
    All-map (λ z. h.val z ≡ some v) (λ z. y ≢ z) us
      (λ z o same. apart (some_injective w v (sym value ∙ ap h.val same ∙ o))) owned

FirstNot-outside : (y : ℕ) (us : List ℕ) → All (λ z. y ≢ z) us → FirstNot (first_of us) y
FirstNot-outside y [] all = tt
FirstNot-outside y (n ∷ us) (first, rest) = first

-- The list of another value, when the use `u` of `v` is removed from its list.
pub removed-IsChain_other :
    (h : Store) (u v w : ℕ) (pre post ws : List ℕ)
    → w ≢ v
    → IsChain h (head_of v) (pre ++ u ∷ post)
    → All (λ z. h.val z ≡ some v) (pre ++ u ∷ post)
    → All (λ y. h.val y ≡ some w) ws
    → IsChain h (head_of w) ws
    → IsChain (remove_from_list h u) (head_of w) ws
removed-IsChain_other h u v w [] post ws apart chain owned owned_w chain_w =
    let after = next-first_of h (head_of v) [] u post chain in
    let same = remove_from_list-unlinked h u (head_of v) (first_of post) chain.1 after in
    subst (λ (h' : Store). IsChain h' (head_of w) ws) (sym same)
      (IsChain-kept h (unlinked h (head_of v) (first_of post)) (head_of w) ws
        (read_slot-set_prev (write_slot h (head_of v) (first_of post)) (first_of post) (head_of v)
            (head_of w)
          ∙ assign_at-other h.use_list v w (first_of post) apart)
        (All-map (λ y. h.val y ≡ some w) (IsKept h (unlinked h (head_of v) (first_of post))) ws
          (λ y o.
            unlinked-IsKept h (head_of v) (first_of post) y tt
              (FirstNot-outside y post (owned_outside h v w y post o apart owned.1)))
          owned_w)
        chain_w)
removed-IsChain_other h u v w (p ∷ pre) post ws apart chain owned owned_w chain_w =
    let after = next-first_of h (head_of v) (p ∷ pre) u post chain in
    let (q, before, value) =
      prev-next_of (λ y. h.val y ≡ some v) h p pre u post chain.2 owned.0 owned.1 in
    let same = remove_from_list-unlinked h u (next_of q) (first_of post) before after in
    let post_owned = (All-append_right (λ z. h.val z ≡ some v) pre (u ∷ post) owned.1).1 in
    subst (λ (h' : Store). IsChain h' (head_of w) ws) (sym same)
      (IsChain-kept h (unlinked h (next_of q) (first_of post)) (head_of w) ws
        (read_slot-set_prev (write_slot h (next_of q) (first_of post)) (first_of post) (next_of q)
          (head_of w))
        (All-map (λ y. h.val y ≡ some w) (IsKept h (unlinked h (next_of q) (first_of post))) ws
          (λ y o.
            unlinked-IsKept h (next_of q) (first_of post) y
              (λ same_use. apart (some_injective w v (sym o ∙ ap h.val same_use ∙ value)))
              (FirstNot-outside y post (owned_outside h v w y post o apart post_owned)))
          owned_w)
        chain_w)
