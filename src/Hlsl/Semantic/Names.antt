-- ===== src/Hlsl/Semantic/Names.antt =====
-- The look-up of semantics by their names in Src/HLSL/DxilSemantic.cpp.
use dilithium.Base.{
  ℕ, zero, suc, ◌≡◌, ◌≢◌, refl, sym, ap, ◌∙◌, subst, arith, ◌↔◌, ◌⊎◌, inl, inr, min, Bool, true,
  false, Bool-cases, if◌then◌else◌, ltb, ◌==◌, Option, none, some, List, [], ◌∷◌, length, map, ◌&&◌,
}
use dilithium.Hlsl.SigPoint.{SemanticKind, arbitrary_sem, no_semantic}
use dilithium.Hlsl.Semantic.{
  Semantic, invalid_semantic, arbitrary_semantic, named_semantics, tolower, Compared, same, below,
  above, ascii_strncasecmp, compare_lower, has_sv_prefix, has_name, find_semantic,
  get_semantic_by_name, is_same, get_semantic,
}

-- A text without its case.
abbrev pub lower : List ℕ → List ℕ
lower name = map tolower name

same_bytes : List ℕ → List ℕ → Bool
same_bytes [] [] = true
same_bytes (a ∷ xs) (b ∷ ys) = a == b && same_bytes xs ys
same_bytes _ _ = false

same_bytes_refl : (xs : List ℕ) → same_bytes xs xs ≡ true
unfolding same_bytes
same_bytes_refl [] = refl
same_bytes_refl (a ∷ xs) = ground (arith, same_bytes_refl xs)

same_bytes-eq : (xs ys : List ℕ) → same_bytes xs ys ≡ true → xs ≡ ys
unfolding same_bytes
same_bytes-eq [] [] e = refl
same_bytes-eq (a ∷ xs) (b ∷ ys) e = ground (arith, e, same_bytes-eq xs ys)
same_bytes-eq [] (b ∷ ys) e = absurd (ground (arith, e))
same_bytes-eq (a ∷ xs) [] e = absurd (ground (arith, e))

Compared-cases : (c : Compared) → (c ≡ below) ⊎ ((c ≡ same) ⊎ (c ≡ above))
Compared-cases below = inl refl
Compared-cases same = inr (inl refl)
Compared-cases above = inr (inr refl)

ascii_strncasecmp-nil : (n : ℕ) (ys : List ℕ) → ascii_strncasecmp n [] ys ≡ same
unfolding ascii_strncasecmp
ascii_strncasecmp-nil zero ys = refl
ascii_strncasecmp-nil (suc n) ys = refl

ascii_strncasecmp-nil_right : (n : ℕ) (xs : List ℕ) → ascii_strncasecmp n xs [] ≡ same
unfolding ascii_strncasecmp
ascii_strncasecmp-nil_right zero xs = refl
ascii_strncasecmp-nil_right (suc n) [] = refl
ascii_strncasecmp-nil_right (suc n) (x ∷ xs) = refl

compare_lower-cons :
    (a b : ℕ) (xs ys : List ℕ)
    → compare_lower (a ∷ xs) (b ∷ ys) ≡ (
        if tolower a == tolower b
        then compare_lower xs ys
        else if ltb (tolower a) (tolower b)
        then below
        else above)
unfolding compare_lower ascii_strncasecmp
compare_lower-cons a b xs ys =
    let m : min (suc (length xs)) (suc (length ys)) ≡ suc (min (length xs) (length ys)) =
      omega arith in
    rw (compare_lower, m)
      (ground (arith, Compared-cases (ascii_strncasecmp (min (length xs) (length ys)) xs ys)))

is_same-compare_lower :
    (xs ys : List ℕ) → is_same (compare_lower xs ys) ≡ same_bytes (lower xs) (lower ys)
unfolding same_bytes compare_lower
is_same-compare_lower [] [] = refl
is_same-compare_lower [] (b ∷ ys) =
    rw (compare_lower, ascii_strncasecmp-nil (min 0 (suc (length ys))) (b ∷ ys)) (ground arith)
is_same-compare_lower (a ∷ xs) [] =
    rw (compare_lower, ascii_strncasecmp-nil_right (min (suc (length xs)) 0) (a ∷ xs))
      (ground arith)
is_same-compare_lower (a ∷ xs) (b ∷ ys) =
    rw compare_lower-cons (elim (Bool-cases (tolower a == tolower b)) [
      | inl e ↦ rw e (is_same-compare_lower xs ys)
      | inr e ↦ rw e (ground arith)
    ])

is_named : List ℕ → Option (List ℕ) → Bool
is_named l none = false
is_named l (some n) = same_bytes l (lower n)

has_name-is_named :
    (name : List ℕ) (n : Option (List ℕ)) → has_name name n ≡ is_named (lower name) n
unfolding is_named
has_name-is_named name none = refl
has_name-is_named name (some n) = is_same-compare_lower name n

-- The search by the bytes without their case.
found_lower : List ℕ → List Semantic → Semantic
unfolding is_named same_bytes
found_lower l [] = invalid_semantic
found_lower l (s ∷ ss) = let rest = found_lower l ss in if is_named l s.name then s else rest

find_semantic-found_lower :
    (name : List ℕ) (ss : List Semantic) → find_semantic name ss ≡ found_lower (lower name) ss
unfolding find_semantic found_lower
find_semantic-found_lower name [] = refl
find_semantic-found_lower name (s ∷ ss) =
    rw (has_name-is_named name s.name, find_semantic-found_lower name ss) refl

-- What is found has the name.
found_lower-name :
    (l n : List ℕ) (ss : List Semantic) → (found_lower l ss).name ≡ some n → l ≡ lower n
unfolding found_lower
found_lower-name l n [] e = absurd (ground (arith, e))
found_lower-name l n (s ∷ ss) e = elim (Bool-cases (is_named l s.name)) [
  | inl hit ↦
      same_bytes-eq l (lower n) (subst (λ z. is_named l z ≡ true) (rw (hit, found_lower) at e) hit)
  | inr miss ↦ found_lower-name l n ss (rw (miss, found_lower) at e)
]

-- The name of a semantic that has one.
abbrev name_or_empty : Option (List ℕ) → List ℕ
name_or_empty none = []
name_or_empty (some n) = n

-- No two names of the table are the same without their case.
named_kind :
    (k : SemanticKind)
    → k ≢ arbitrary_sem
    → k ≢ no_semantic
    → (has_sv_prefix (lower (name_or_empty (get_semantic k).name)) ≡ true)
      × (found_lower (lower (name_or_empty (get_semantic k).name)) named_semantics ≡ get_semantic k)
unfolding get_semantic has_sv_prefix found_lower
named_kind arbitrary_sem named valid = absurd (named refl)
named_kind no_semantic named valid = absurd (valid refl)
named_kind k named valid = (refl, refl)

-- The prefix does not depend on the case.
has_sv_prefix-lower : (name : List ℕ) → has_sv_prefix name ≡ has_sv_prefix (lower name)
unfolding has_sv_prefix
has_sv_prefix-lower [] = refl
has_sv_prefix-lower (a ∷ []) = refl
has_sv_prefix-lower (a ∷ b ∷ []) = refl
has_sv_prefix-lower (a ∷ b ∷ c ∷ cs) = ground arith

with_prefix :
    (name : List ℕ)
    → has_sv_prefix name ≡ true
    → get_semantic_by_name name ≡ found_lower (lower name) named_semantics
unfolding get_semantic_by_name
with_prefix name h = rw (get_semantic_by_name, h) (find_semantic-found_lower name named_semantics)

without_prefix :
    (name : List ℕ) → has_sv_prefix name ≡ false → get_semantic_by_name name ≡ arbitrary_semantic
unfolding get_semantic_by_name
without_prefix name h = rw (get_semantic_by_name, h) refl

no_name : (n : List ℕ) → none ≡ some n → ⊥
no_name n e = ground (arith, e)

is_one_of_named :
    (k : SemanticKind) (n : List ℕ)
    → (get_semantic k).name ≡ some n
    → (has_sv_prefix (lower n) ≡ true) × (found_lower (lower n) named_semantics ≡ get_semantic k)
unfolding get_semantic
is_one_of_named k n has =
    subst
      (λ z.
        (has_sv_prefix (lower z) ≡ true) × (found_lower (lower z) named_semantics ≡ get_semantic k))
      (ap name_or_empty has)
      (named_kind k (λ e. no_name n (sym (ap (λ z. (get_semantic z).name) e) ∙ has))
        (λ e. no_name n (sym (ap (λ z. (get_semantic z).name) e) ∙ has)))

-- GetByName finds a semantic that has a name exactly for the texts that are its name, whatever the case
-- of their letters.
pub get_semantic_by_name_iff :
    (k : SemanticKind) (name n : List ℕ)
    → (get_semantic k).name ≡ some n
    → (get_semantic_by_name name ≡ get_semantic k) ↔ (lower name ≡ lower n)
get_semantic_by_name_iff k name n has = (
  λ e. elim (Bool-cases (has_sv_prefix name)) [
    | inl with_sv ↦
        found_lower-name (lower name) n named_semantics
          (ap (λ s. s.name) (sym (with_prefix name with_sv) ∙ e) ∙ has)
    | inr plain ↦
        absurd (ground (arith, ap (λ s. s.name) (sym (without_prefix name plain) ∙ e) ∙ has))
  ],
  λ e.
      let (prefix, found) = is_one_of_named k n has in
      with_prefix name
        (has_sv_prefix-lower name ∙ subst (λ z. has_sv_prefix z ≡ true) (sym e) prefix)
      ∙ ap (λ z. found_lower z named_semantics) e
      ∙ found,
)
