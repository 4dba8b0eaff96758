-- ===== src/Uses/Moved.antt =====
-- Set of Src/Use.cpp: a use moves from the list of one value to that of another.
use dilithium.Base.{
  ℕ, ◌≡◌, ◌≢◌, refl, ap, sym, ◌∙◌, arith, subst, All, if◌then◌else◌, ◌==◌, inl, inr, Option, none,
  some, List, [], ◌∷◌, ◌++◌,
}
use dilithium.Uses.Store.{Store, head_of, add_to_list, add_use, unlink, set_use}
use dilithium.Uses.Chains.{
  IsChain, IsDistinct, All-map, assign_at-same, linked-IsChain, linked-IsChain_other, FirstOther,
  linked,
}
use dilithium.Uses.Unlinked.{first_of, after_of}
use dilithium.Uses.Without.{without, same_or_other}
use dilithium.Uses.Stored.{IsStore, IsStoreBut, owned-AllOther, none≢some}
use dilithium.Uses.Sets.{unlink-IsStoreBut, assigned-IsStoreBut}

add_use-val : (h : Store) (v u : ℕ) → (add_use h v u).val ≡ h.val
unfolding add_use add_to_list
add_use-val h v u = go (h.use_list v)
  where
    go : (o : Option ℕ) → (linked h v u o).val ≡ h.val
    go none = refl
    go (some x) = refl

-- The lists after the use is put in front of that of `t`.
abbrev pub in_front : ℕ → ℕ → (ℕ → List ℕ) → ℕ → List ℕ
in_front u t uses w = if w == t then u ∷ uses w else uses w

in_front-same : (u t : ℕ) (uses : ℕ → List ℕ) → in_front u t uses t ≡ u ∷ uses t
in_front-same u t uses = ground arith

in_front-other : (u t w : ℕ) (uses : ℕ → List ℕ) → w ≢ t → in_front u t uses w ≡ uses w
in_front-other u t w uses h = ground (arith, h)

-- A statement on the lists, by the value whose list has the use in front.
in_front-split :
    (P : ℕ → List ℕ → Type 0) (u t w : ℕ) (uses : ℕ → List ℕ)
    → P t (u ∷ uses t)
    → (w ≢ t → P w (uses w))
    → P w (in_front u t uses w)
in_front-split P u t w uses h k = elim (same_or_other w t) [
  | inl same ↦
      subst (λ (v : ℕ). P v (in_front u t uses v)) (sym same)
        (subst (P t) (sym (in_front-same u t uses)) h)
  | inr other ↦ subst (P w) (sym (in_front-other u t w uses other)) (k other)
]

first-FirstOther :
    (h : Store) (t w : ℕ) (us ws : List ℕ)
    → w ≢ t
    → All (λ y. h.val y ≡ some t) us
    → All (λ y. h.val y ≡ some w) ws
    → FirstOther (first_of us) ws
first-FirstOther h t w [] ws apart owned owned_w = tt
first-FirstOther h t w (x ∷ us) ws apart (value, owned) owned_w =
    owned-AllOther h x t w ws value apart owned_w

listed_in_front :
    (u t y v : ℕ) (uses : ℕ → List ℕ)
    → ((pre : List ℕ) × (post : List ℕ) × (uses v ≡ pre ++ y ∷ post))
    → (pre : List ℕ) × (post : List ℕ) × (in_front u t uses v ≡ pre ++ y ∷ post)
listed_in_front u t y v uses (pre, post, parts) = elim (same_or_other v t) [
  | inl same ↦ (
    u ∷ pre,
    post,
    ap (in_front u t uses) same
        ∙ in_front-same u t uses
        ∙ ap (λ (w : ℕ). u ∷ uses w) (sym same)
        ∙ ap (λ (us : List ℕ). u ∷ us) parts,
  )
  | inr other ↦ (pre, post, in_front-other u t v uses other ∙ parts)
]

listed_now :
    (h : Store) (uses : ℕ → List ℕ) (u t y v : ℕ)
    → IsStoreBut u h uses
    → h.val u ≡ some t
    → h.val y ≡ some v
    → (pre : List ℕ) × (post : List ℕ) × (in_front u t uses v ≡ pre ++ y ∷ post)
listed_now h uses u t y v store value has = elim (same_or_other y u) [
  | inl same ↦
      (let here : v ≡ t = ground (arith, sym has ∙ ap h.val same ∙ value) in
        (
          [],
          uses t,
          ap (in_front u t uses) here
              ∙ in_front-same u t uses
              ∙ ap (λ (x : ℕ). x ∷ uses t) (sym same),
        ))
  | inr other ↦ listed_in_front u t y v uses (store.listed y v other has)
]

add_use-IsStore :
    (h : Store) (uses : ℕ → List ℕ) (u t : ℕ)
    → IsStoreBut u h uses
    → h.val u ≡ some t
    → IsStore (add_use h t u) (in_front u t uses)
add_use-IsStore h uses u t store value =
    let same = add_use-val h t u in
    let kept : (w : ℕ) → All (λ y. (add_use h t u).val y ≡ some w) (uses w) = λ w.
      All-map (λ y. h.val y ≡ some w) (λ y. (add_use h t u).val y ≡ some w) (uses w)
        (λ y o. ap (λ (f : ℕ → Option ℕ). f y) same ∙ o) (store.owned w) in
    record {
      chain = λ w.
          in_front-split (λ v us. IsChain (add_use h t u) (head_of v) us) u t w uses
            (linked-IsChain h u t (uses t) (store.other t) (store.distinct t) (store.chain t))
            (λ apart.
              linked-IsChain_other h u t w (uses w) (first_of (uses t))
                (after_of h (head_of t) (uses t) (store.chain t)) apart (store.other w)
                (first-FirstOther h t w (uses t) (uses w) apart (store.owned t) (store.owned w))
                (store.chain w));
      distinct = λ w.
          in_front-split (λ v us. IsDistinct us) u t w uses (store.other t, store.distinct t)
            (λ _. store.distinct w);
      owned = λ w.
          in_front-split (λ v us. All (λ y. (add_use h t u).val y ≡ some v) us) u t w uses
            (ap (λ (f : ℕ → Option ℕ). f u) same ∙ value, kept t) (λ _. kept w);
      listed = λ y v has.
          listed_now h uses u t y v store value (sym (ap (λ (f : ℕ → Option ℕ). f y) same) ∙ has);
    }

unused-IsStore :
    (h : Store) (uses : ℕ → List ℕ) (u : ℕ) → IsStoreBut u h uses → h.val u ≡ none → IsStore h uses
unused-IsStore h uses u store unused = record {
  chain = store.chain;
  distinct = store.distinct;
  owned = store.owned;
  listed = λ y v has.
      store.listed y v (λ same. none≢some v (sym unused ∙ ap h.val (sym same) ∙ has)) has;
}

-- The lists after a call of Set.
abbrev pub moved : ℕ → Option ℕ → (ℕ → List ℕ) → ℕ → List ℕ
moved u none uses w = without u (uses w)
moved u (some t) uses w = in_front u t (λ v. without u (uses v)) w

-- In a store in which every value has exactly its uses in its list, once each and linked back, Set of
-- a use to a value or to null leaves such a store: the use is taken out of the list it was in, if
-- any, and is the first of the list of the new value, if any; all other uses stay in their lists, in
-- their order.
pub set_use-IsStore :
    (h : Store) (uses : ℕ → List ℕ) (u : ℕ) (v : Option ℕ)
    → IsStore h uses
    → IsStore (set_use h u v) (moved u v uses)
unfolding set_use
set_use-IsStore h uses u none store =
    let but =
      assigned-IsStoreBut (unlink h u) (λ w. without u (uses w)) u none
        (unlink-IsStoreBut h uses u store) in
    unused-IsStore _ (λ w. without u (uses w)) u but (assign_at-same (unlink h u).val u none)
set_use-IsStore h uses u (some t) store =
    let but =
      assigned-IsStoreBut (unlink h u) (λ w. without u (uses w)) u (some t)
        (unlink-IsStoreBut h uses u store) in
    add_use-IsStore _ (λ w. without u (uses w)) u t but (assign_at-same (unlink h u).val u (some t))
