-- ===== src/Uses/Without.antt =====
-- Lists of uses without one of them.
use dilithium.Base.{
  ℕ, ◌≡◌, ◌≢◌, refl, ap, sym, ◌∙◌, arith, subst, All, Bool, true, false, ◌==◌, Bool-cases, ◌⊎◌, inl,
  inr, List, [], ◌∷◌, ◌++◌,
}
use dilithium.Uses.Chains.{AllOther, IsDistinct}

unfoldable pub without : ℕ → List ℕ → List ℕ
without u [] = []
without u (y ∷ ys) = elim (y == u) [ true ↦ without u ys | false ↦ y ∷ without u ys ]

pub same_or_other : (a b : ℕ) → (a ≡ b) ⊎ (a ≢ b)
same_or_other a b = elim (Bool-cases (a == b)) [
  | inl same ↦ inl (ground (arith, same))
  | inr other ↦ inr (λ same. absurd (ground (arith, other, same)))
]

without-same : (u : ℕ) (ys : List ℕ) → without u (u ∷ ys) ≡ without u ys
unfolding without
without-same u ys = ground arith

without-cons : (u y : ℕ) (ys : List ℕ) → y ≢ u → without u (y ∷ ys) ≡ y ∷ without u ys
unfolding without
without-cons u y ys other = ground (arith, other)

pub without_absent : (u : ℕ) (ys : List ℕ) → AllOther u ys → without u ys ≡ ys
unfolding without
without_absent u [] other = refl
without_absent u (y ∷ ys) (first, other) =
    without-cons u y ys first ∙ ap (λ (t : List ℕ). y ∷ t) (without_absent u ys other)

pub without-append : (u : ℕ) (xs ys : List ℕ) → without u (xs ++ ys) ≡ without u xs ++ without u ys
unfolding without
without-append u [] ys = refl
without-append u (x ∷ xs) ys = elim (Bool-cases (x == u)) [
  | inl same ↦ grind (arith, same, without-append u xs ys)
  | inr other ↦ grind (arith, other, without-append u xs ys)
]

pub All-without {κ} : (P : ℕ → Type κ) (u : ℕ) (ys : List ℕ) → All P ys → All P (without u ys)
unfolding without
All-without P u [] all = tt
All-without P u (y ∷ ys) (first, rest) = go (y == u) (All-without P u ys rest)
  where
    go :
        (b : Bool)
        → All P (without u ys)
        → All P (elim b [ true ↦ without u ys | false ↦ y ∷ without u ys ])
    go true more = more
    go false more = (first, more)

pub AllOther-without : (u : ℕ) (ys : List ℕ) → AllOther u (without u ys)
unfolding without
AllOther-without u [] = tt
AllOther-without u (y ∷ ys) = elim (same_or_other y u) [
  | inl same ↦
      subst (AllOther u) (sym (ap (λ (t : ℕ). without u (t ∷ ys)) same ∙ without-same u ys))
        (AllOther-without u ys)
  | inr other ↦ subst (AllOther u) (sym (without-cons u y ys other)) (other, AllOther-without u ys)
]

pub IsDistinct-without : (u : ℕ) (ys : List ℕ) → IsDistinct ys → IsDistinct (without u ys)
unfolding without
IsDistinct-without u [] distinct = tt
IsDistinct-without u (y ∷ ys) (apart, distinct) = go (y == u) (IsDistinct-without u ys distinct)
  where
    go :
        (b : Bool)
        → IsDistinct (without u ys)
        → IsDistinct (elim b [ true ↦ without u ys | false ↦ y ∷ without u ys ])
    go true more = more
    go false more = (All-without (λ z. z ≢ y) u ys apart, more)

-- A part of a list, and an element in the middle of it.
pub All-append_left {κ} : (P : ℕ → Type κ) (xs ys : List ℕ) → All P (xs ++ ys) → All P xs
All-append_left P [] ys all = tt
All-append_left P (x ∷ xs) ys (first, rest) = (first, All-append_left P xs ys rest)

pub All-append_right {κ} : (P : ℕ → Type κ) (xs ys : List ℕ) → All P (xs ++ ys) → All P ys
All-append_right P [] ys all = all
All-append_right P (x ∷ xs) ys (first, rest) = All-append_right P xs ys rest

AllOther-before : (u : ℕ) (pre post : List ℕ) → IsDistinct (pre ++ u ∷ post) → AllOther u pre
AllOther-before u [] post distinct = tt
AllOther-before u (x ∷ pre) post (apart, distinct) = (
  λ same. (All-append_right (λ z. z ≢ x) pre (u ∷ post) apart).0 (sym same),
  AllOther-before u pre post distinct,
)

AllOther-after : (u : ℕ) (pre post : List ℕ) → IsDistinct (pre ++ u ∷ post) → AllOther u post
AllOther-after u [] post (apart, distinct) = apart
AllOther-after u (x ∷ pre) post (apart, distinct) = AllOther-after u pre post distinct

pub without-middle :
    (u : ℕ) (pre post : List ℕ)
    → IsDistinct (pre ++ u ∷ post)
    → without u (pre ++ u ∷ post) ≡ pre ++ post
without-middle u pre post distinct =
    without-append u pre (u ∷ post)
    ∙ ap (λ (t : List ℕ). t ++ without u (u ∷ post))
        (without_absent u pre (AllOther-before u pre post distinct))
    ∙ ap (λ (t : List ℕ). pre ++ t)
        (without-same u post ∙ without_absent u post (AllOther-after u pre post distinct))

-- An element that is not left out is still in the list.
pub without-split :
    (u y : ℕ) (us pre post : List ℕ)
    → y ≢ u
    → us ≡ pre ++ y ∷ post
    → without u us ≡ without u pre ++ y ∷ without u post
without-split u y us pre post other parts =
    ap (without u) parts
    ∙ without-append u pre (y ∷ post)
    ∙ ap (λ (t : List ℕ). without u pre ++ t) (without-cons u y post other)
