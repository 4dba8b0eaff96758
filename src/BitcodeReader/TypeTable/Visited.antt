-- ===== src/BitcodeReader/TypeTable/Visited.antt =====
-- The operands that the loops of ParseTypeTable of Src/BitcodeReader.cpp go through.
use dilithium.Base.{
  ℕ, zero, suc, ◌-◌, ◌%◌, ◌^◌, ◌≤◌, ◌<◌, ◌≡◌, refl, ap, ◌∙◌, arith, inl, inr, ◌⊎◌, List, [], ◌∷◌,
  ◌++◌, length, take, drop, length-take, length-append,
}
use dilithium.BitcodeReader.TypeTable.{visited}

take_all : (n : ℕ) (xs : List ℕ) → length xs ≤ n → take n xs ≡ xs
take_all zero [] h = refl
take_all zero (x ∷ xs) h = absurd (omega arith)
take_all (suc n) [] h = refl
take_all (suc n) (x ∷ xs) h = ap (λ z. x ∷ z) (take_all n xs (omega arith))

take-append : (n : ℕ) (xs ys : List ℕ) → length xs ≡ n → take n (xs ++ ys) ≡ xs
take-append zero [] ys h = refl
take-append zero (x ∷ xs) ys h = absurd (omega arith)
take-append (suc n) [] ys h = absurd (omega arith)
take-append (suc n) (x ∷ xs) ys h = ap (λ z. x ∷ z) (take-append n xs ys (omega arith))

take-append_one :
    (n v : ℕ) (xs ys : List ℕ) → length xs ≡ n → take (suc n) (xs ++ (v ∷ ys)) ≡ xs ++ (v ∷ [])
take-append_one zero v [] ys h = refl
take-append_one zero v (x ∷ xs) ys h = absurd (omega arith)
take-append_one (suc n) v [] ys h = absurd (omega arith)
take-append_one (suc n) v (x ∷ xs) ys h = ap (λ z. x ∷ z) (take-append_one n v xs ys (omega arith))

-- A record of less than 2 ^ 32 operands, from the first.
pub visited-whole : (ops : List ℕ) → length ops < 2 ^ 32 → visited 0 ops ≡ ops
unfolding visited
visited-whole ops short =
    let count : (length ops - 0) % 2 ^ 32 ≡ length ops = omega arith in
    rw (visited, count, take_all (2 ^ 32) ops (omega arith)) (take-append (length ops) ops ops refl)

visited-two :
    (v r : ℕ) (ps : List ℕ)
    → visited 2 (v ∷ r ∷ ps) ≡ take (length ps % 2 ^ 32) (take (2 ^ 32 - 2) ps ++ (v ∷ r ∷ ps))
unfolding visited
visited-two v r ps =
    let ops : List ℕ = v ∷ r ∷ ps in
    let count : (length ops - 2) % 2 ^ 32 ≡ length ps % 2 ^ 32 = omega arith in
    let split : 2 ^ 32 ≡ suc (suc (2 ^ 32 - 2)) = omega arith in
    ap (λ n. take n (drop 2 (take (2 ^ 32) ops) ++ ops)) count
    ∙ ap (λ n. take (length ps % 2 ^ 32) (drop 2 (take n ops) ++ ops)) split

by_length : (n : ℕ) → (n < 2 ^ 32 - 1) ⊎ ((n ≡ 2 ^ 32 - 1) ⊎ (2 ^ 32 ≤ n))
by_length n = omega arith

abbrev pub wrapped : ℕ → List ℕ → List ℕ
wrapped v ps = take (2 ^ 32 - 2) ps ++ (v ∷ [])

pub length-wrapped :
    (v : ℕ) (ps : List ℕ) → length ps ≡ 2 ^ 32 - 1 → length (wrapped v ps) ≡ length ps
length-wrapped v ps e =
    omega (arith, length-append (take (2 ^ 32 - 2) ps) (v ∷ []), length-take (2 ^ 32 - 2) ps, e)

pub visited-all : (v r : ℕ) (ps : List ℕ) → length ps < 2 ^ 32 - 1 → visited 2 (v ∷ r ∷ ps) ≡ ps
visited-all v r ps short =
    let count : length ps % 2 ^ 32 ≡ length ps = omega arith in
    visited-two v r ps
    ∙ ap (λ n. take n (take (2 ^ 32 - 2) ps ++ (v ∷ r ∷ ps))) count
    ∙ ap (λ z. take (length ps) (z ++ (v ∷ r ∷ ps))) (take_all (2 ^ 32 - 2) ps (omega arith))
    ∙ take-append (length ps) ps (v ∷ r ∷ ps) refl

pub visited-wrapped :
    (v r : ℕ) (ps : List ℕ) → length ps ≡ 2 ^ 32 - 1 → visited 2 (v ∷ r ∷ ps) ≡ wrapped v ps
visited-wrapped v r ps e =
    let count : length ps % 2 ^ 32 ≡ suc (2 ^ 32 - 2) = omega arith in
    visited-two v r ps
    ∙ ap (λ n. take n (take (2 ^ 32 - 2) ps ++ (v ∷ r ∷ ps))) count
    ∙ take-append_one (2 ^ 32 - 2) v (take (2 ^ 32 - 2) ps) (r ∷ ps)
        (omega (arith, length-take (2 ^ 32 - 2) ps, e))

visited-few :
    (v r : ℕ) (ps : List ℕ) → 2 ^ 32 ≤ length ps → length (visited 2 (v ∷ r ∷ ps)) < length ps
visited-few v r ps long =
    let size = length-take (length ps % 2 ^ 32) (take (2 ^ 32 - 2) ps ++ (v ∷ r ∷ ps)) in
    omega (arith, ap (λ (zs : List ℕ). length zs) (visited-two v r ps), size, long)

-- The operands behind the first two: all of them, or all but the last and then the first of the
-- record, or too few.
pub visited-parameters :
    (v r : ℕ) (ps : List ℕ)
    → ((length ps < 2 ^ 32 - 1) × (visited 2 (v ∷ r ∷ ps) ≡ ps))
      ⊎ (((length ps ≡ 2 ^ 32 - 1) × (visited 2 (v ∷ r ∷ ps) ≡ wrapped v ps))
          ⊎ (length (visited 2 (v ∷ r ∷ ps)) < length ps))
visited-parameters v r ps = elim (by_length (length ps)) [
  | inl short ↦ inl (short, visited-all v r ps short)
  | inr (inl one_more) ↦ inr (inl (one_more, visited-wrapped v r ps one_more))
  | inr (inr long) ↦ inr (inr (visited-few v r ps long))
]
