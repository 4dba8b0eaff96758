-- ===== src/Uses/Sets.antt =====
-- The steps of Set of Src/Use.cpp on a store.
use dilithium.Base.{
  ℕ, ◌≡◌, ◌≢◌, refl, ap, sym, ◌∙◌, subst, All, inl, inr, Option, none, some, Option-cases, List, [],
  ◌∷◌, ◌++◌,
}
use dilithium.Uses.Store.{Store, Slot, head_of, assign_at, remove_from_list, unlink}
use dilithium.Uses.Chains.{
  IsChain, IsDistinct, IsKept, IsChain-kept, All-map, All-both, assign_at-other,
}
use dilithium.Uses.Unlinked.{IsNotNext, unlinked-IsChain}
use dilithium.Uses.Without.{
  without, without_absent, without-middle, without-split, same_or_other, All-without,
  AllOther-without, IsDistinct-without,
}
use dilithium.Uses.Stored.{
  IsStore, IsStoreBut, owned-AllOther, unused-AllOther, remove_from_list-val, removed-IsChain_other,
}

All-IsNotNext : (v : ℕ) (us : List ℕ) → All (IsNotNext (head_of v)) us
All-IsNotNext v [] = tt
All-IsNotNext v (u ∷ us) = (tt, All-IsNotNext v us)

-- The list of a value after the use is removed from the one that it is in.
removed-IsChain :
    (h : Store) (uses : ℕ → List ℕ) (u v w : ℕ)
    → IsStore h uses
    → h.val u ≡ some v
    → IsChain (remove_from_list h u) (head_of w) (without u (uses w))
removed-IsChain h uses u v w store value =
    let (pre, post, parts) = store.listed u v value in
    let chain_v = subst (IsChain h (head_of v)) parts (store.chain v) in
    let distinct_v = subst IsDistinct parts (store.distinct v) in
    let owned_v = subst (All (λ y. h.val y ≡ some v)) parts (store.owned v) in
    elim (same_or_other w v) [
      | inl same ↦
          (let rest : without u (uses v) ≡ pre ++ post =
              ap (without u) parts ∙ without-middle u pre post distinct_v in
            subst (λ (t : ℕ). IsChain (remove_from_list h u) (head_of t) (without u (uses t)))
              (sym same)
              (subst (IsChain (remove_from_list h u) (head_of v)) (sym rest) (
                unlinked-IsChain h u (head_of v) pre post (All-IsNotNext v (pre ++ u ∷ post))
                  distinct_v chain_v)))
      | inr apart ↦
          (let all_kept : without u (uses w) ≡ uses w =
              without_absent u (uses w)
                (owned-AllOther h u v w (uses w) value apart (store.owned w)) in
            subst (IsChain (remove_from_list h u) (head_of w)) (sym all_kept) (
              removed-IsChain_other h u v w pre post (uses w) apart chain_v owned_v (store.owned w)
                (store.chain w)))
    ]

without-listed :
    (u y : ℕ) (us : List ℕ)
    → y ≢ u
    → ((pre : List ℕ) × (post : List ℕ) × (us ≡ pre ++ y ∷ post))
    → (pre : List ℕ) × (post : List ℕ) × (without u us ≡ pre ++ y ∷ post)
without-listed u y us other (pre, post, parts) =
    (without u pre, without u post, without-split u y us pre post other parts)

-- The lists without the use, in any store whose lists and values are right.
left_out-IsStoreBut :
    (h h' : Store) (uses : ℕ → List ℕ) (u : ℕ)
    → IsStore h uses
    → h'.val ≡ h.val
    → ((w : ℕ) → IsChain h' (head_of w) (without u (uses w)))
    → IsStoreBut u h' (λ w. without u (uses w))
left_out-IsStoreBut h h' uses u store same chains = record {
  chain = chains;
  distinct = λ v. IsDistinct-without u (uses v) (store.distinct v);
  other = λ v. AllOther-without u (uses v);
  owned = λ v.
      All-without (λ y. h'.val y ≡ some v) u (uses v)
        (All-map (λ y. h.val y ≡ some v) (λ y. h'.val y ≡ some v) (uses v)
          (λ y o. ap (λ (f : ℕ → Option ℕ). f y) same ∙ o) (store.owned v));
  listed = λ y v other value.
      without-listed u y (uses v) other
        (store.listed y v (sym (ap (λ (f : ℕ → Option ℕ). f y) same) ∙ value));
}

pub unlink-IsStoreBut :
    (h : Store) (uses : ℕ → List ℕ) (u : ℕ)
    → IsStore h uses
    → IsStoreBut u (unlink h u) (λ w. without u (uses w))
unlink-IsStoreBut h uses u store = elim (Option-cases (h.val u)) [
  | inl unused ↦
      (let kept : unlink h u ≡ h =
          ap (λ (o : Option ℕ). elim o as (λ _. Store) [ none ↦ h | some _ ↦ remove_from_list h u ])
            unused in
        subst (λ (h' : Store). IsStoreBut u h' (λ w. without u (uses w))) (sym kept)
          (left_out-IsStoreBut h h uses u store refl (λ w.
            subst (IsChain h (head_of w))
              (sym
                (without_absent u (uses w) (unused-AllOther h u w (uses w) unused (store.owned w))))
              (store.chain w))))
  | inr (v, value) ↦
      (let removed : unlink h u ≡ remove_from_list h u =
          ap (λ (o : Option ℕ). elim o as (λ _. Store) [ none ↦ h | some _ ↦ remove_from_list h u ])
            value in
        subst (λ (h' : Store). IsStoreBut u h' (λ w. without u (uses w))) (sym removed)
          (left_out-IsStoreBut h (remove_from_list h u) uses u store (remove_from_list-val h u)
            (λ w. removed-IsChain h uses u v w store value)))
]

All-IsKept :
    (h h' : Store) (us : List ℕ)
    → h'.next ≡ h.next
    → h'.prev_ptr ≡ h.prev_ptr
    → All (IsKept h h') us
All-IsKept h h' [] n p = tt
All-IsKept h h' (u ∷ us) n p =
    ((ap (λ (f : ℕ → Option ℕ). f u) n, ap (λ (f : ℕ → Slot). f u) p), All-IsKept h h' us n p)

-- The value of the use is in no way in its lists.
pub assigned-IsStoreBut :
    (h : Store) (uses : ℕ → List ℕ) (u : ℕ) (o : Option ℕ)
    → IsStoreBut u h uses
    → IsStoreBut u (record h { val = assign_at h.val u o }) uses
assigned-IsStoreBut h uses u o store =
    let h' = record h { val = assign_at h.val u o } in
    record {
      chain = λ v.
          IsChain-kept h h' (head_of v) (uses v) refl (All-IsKept h h' (uses v) refl refl)
            (store.chain v);
      distinct = store.distinct;
      other = store.other;
      owned = λ v.
          All-map (λ y. (y ≢ u) × (h.val y ≡ some v)) (λ y. h'.val y ≡ some v) (uses v)
            (λ y p. assign_at-other h.val u y o p.0 ∙ p.1)
            (All-both (λ y. y ≢ u) (λ y. h.val y ≡ some v) (uses v) (store.other v)
              (store.owned v));
      listed = λ y v other value.
          store.listed y v other (sym (assign_at-other h.val u y o other) ∙ value);
    }
