-- ===== src/Uses/Count.antt =====
-- The tags that InitTags of Src/Use.cpp writes, by the distance of a use from the end.
use dilithium.Base.{
  ℕ, zero, suc, ◌+◌, ◌-◌, ◌/◌, ◌≤◌, ◌<◌, ◌≡◌, refl, ap, sym, ◌∙◌, arith, subst, ◌⊎◌, inl, inr,
}
use dilithium.Base.{if◌then◌else◌, ◌==◌, Option, none, some, List, [], ◌∷◌, get_elem?, Bool-cases}
use dilithium.Uses.{
  Tag, stop, full_stop, Memory, write, tags, tag_of_bit, counted_tags, first_tags, init_tags,
}

-- The digits that are left to write before the use at distance `k`.
unfoldable pub count_at : ℕ → ℕ
count_at zero = 0
count_at (suc k) = let c = count_at k in if c == 0 then suc k else c / 2

unfoldable pub tag_at : ℕ → Tag
unfolding count_at
tag_at k = if count_at k == 0 then if k == 0 then full_stop else stop else tag_of_bit (count_at k)

write-same : (m : Memory) (at p : ℕ) (tag : Tag) → p ≡ at → write m at tag p ≡ tag
write-same m at p tag h = ground (arith, h)

write-other : (m : Memory) (at p : ℕ) (tag : Tag) → at < p → write m at tag p ≡ m p
write-other m at p tag h = ground (arith, h)

last-or_before : (o left : ℕ) → o < suc left → (o < left) ⊎ (o ≡ left)
last-or_before o left h = omega arith

counted_tags-above :
    (beg left done count : ℕ) (m : Memory) (p : ℕ)
    → beg + left ≤ p
    → counted_tags beg left done count m p ≡ m p
unfolding counted_tags
counted_tags-above beg zero done count m p h = refl
counted_tags-above beg (suc left) done count m p h = elim (Bool-cases (count == 0)) [
  | inl run_out ↦ grind (
    arith,
    run_out,
    counted_tags-above beg left (suc done) (suc done) (write m (beg + left) stop) p (omega arith),
  )
  | inr more ↦ grind (
    arith,
    more,
    counted_tags-above beg left (suc done) (count / 2) (write m (beg + left) (tag_of_bit count)) p
        (omega arith),
  )
]

-- The digits to write for a use, of which none are left after the last.
pub count_at-suc_zero : (k : ℕ) → count_at k ≡ 0 → count_at (suc k) ≡ suc k
unfolding count_at
count_at-suc_zero k h = ground (arith, h)

pub count_at-suc_more : (k : ℕ) → 0 < count_at k → count_at (suc k) ≡ count_at k / 2
unfolding count_at
count_at-suc_more k h = ground (arith, h)

pub tag_at-stop : (k : ℕ) → 0 < k → count_at k ≡ 0 → tag_at k ≡ stop
unfolding tag_at
tag_at-stop k pos h = ground (arith, pos, h)

pub tag_at-bit : (k : ℕ) → 0 < count_at k → tag_at k ≡ tag_of_bit (count_at k)
unfolding tag_at
tag_at-bit k h = ground (arith, h)

-- One step of the loop, which writes the tag of the use before `end`.
counted_tags-suc :
    (beg left done : ℕ) (m : Memory)
    → 0 < done
    → counted_tags beg (suc left) done (count_at done) m
      ≡ counted_tags beg left (suc done) (count_at (suc done)) (write m (beg + left) (tag_at done))
unfolding counted_tags count_at tag_at
counted_tags-suc beg left done m pos = elim (Bool-cases (count_at done == 0)) [
  | inl run_out ↦ grind (arith, run_out, pos)
  | inr more ↦ grind (arith, more, pos)
]

counted_tags-at :
    (beg left done o : ℕ) (m : Memory)
    → 0 < done
    → o < left
    → counted_tags beg left done (count_at done) m (beg + o) ≡ tag_at (done + left - suc o)
counted_tags-at beg zero done o m pos h = absurd (omega arith)
counted_tags-at beg (suc left) done o m pos h =
    let step = ap (λ (f : Memory). f (beg + o)) (counted_tags-suc beg left done m pos) in
    step ∙ elim (last-or_before o left h) [
      | inl before ↦
          (let same : suc done + left - suc o ≡ done + suc left - suc o = omega arith in
            counted_tags-at beg left (suc done) o (write m (beg + left) (tag_at done)) (omega arith)
              before
            ∙ ap tag_at same)
      | inr last ↦
          (let same : done ≡ done + suc left - suc o = omega arith in
            counted_tags-above beg left (suc done) (count_at (suc done))
              (write m (beg + left) (tag_at done)) (beg + o) (omega arith)
            ∙ write-same m (beg + left) (beg + o) (tag_at done) (omega arith)
            ∙ ap tag_at same)
    ]

-- The table that the first loop takes its tags from.
tag_list : ℕ → ℕ → List Tag
tag_list start zero = []
tag_list start (suc n) = tag_at start ∷ tag_list (suc start) n

tags-tag_list : tags ≡ tag_list 0 20
unfolding tag_list tag_at count_at
tags-tag_list = refl

tag_list-get : (n start i : ℕ) → i < n → get_elem? (tag_list start n) i ≡ some (tag_at (start + i))
unfolding tag_list
tag_list-get zero start i h = absurd (omega arith)
tag_list-get (suc n) start zero h =
    let same : start ≡ start + 0 = omega arith in ap (λ (t : ℕ). some (tag_at t)) same
tag_list-get (suc n) start (suc i) h =
    let same : suc start + i ≡ start + suc i = omega arith in
    tag_list-get n (suc start) i (omega arith) ∙ ap (λ (t : ℕ). some (tag_at t)) same

first_tags-suc :
    (beg left done : ℕ) (m : Memory)
    → done < 20
    → first_tags beg (suc left) done m
      ≡ first_tags beg left (suc done) (write m (beg + left) (tag_at done))
unfolding first_tags
first_tags-suc beg left done m h =
    let entry : get_elem? tags done ≡ some (tag_at done) =
      ap (λ (t : List Tag). get_elem? t done) tags-tag_list
      ∙ tag_list-get 20 0 done h
      ∙ ap (λ (t : ℕ). some (tag_at t)) (omega arith) in
    ap
      (λ (o : Option Tag). elim o [
        | some tag ↦ first_tags beg left (suc done) (write m (beg + left) tag)
        | none ↦ counted_tags beg (suc left) done done m
      ])
      entry

first_tags-counted :
    (beg left : ℕ) (m : Memory)
    → first_tags beg left 20 m ≡ counted_tags beg left 20 (count_at 20) m
unfolding first_tags count_at counted_tags
first_tags-counted beg zero m = refl
first_tags-counted beg (suc left) m = refl

first_tags-above :
    (k beg left done : ℕ) (m : Memory) (p : ℕ)
    → done + k ≡ 20
    → beg + left ≤ p
    → first_tags beg left done m p ≡ m p
unfolding first_tags
first_tags-above k beg zero done m p count h = refl
first_tags-above zero beg (suc left) done m p count h =
    let twenty : done ≡ 20 = omega arith in
    ap (λ (d : ℕ). first_tags beg (suc left) d m p) twenty
    ∙ ap (λ (f : Memory). f p) (first_tags-counted beg (suc left) m)
    ∙ counted_tags-above beg (suc left) 20 (count_at 20) m p h
first_tags-above (suc k) beg (suc left) done m p count h =
    ap (λ (f : Memory). f p) (first_tags-suc beg left done m (omega arith))
    ∙ first_tags-above k beg left (suc done) (write m (beg + left) (tag_at done)) p (omega arith)
        (omega arith)
    ∙ write-other m (beg + left) p (tag_at done) (omega arith)

first_tags-at :
    (k beg left done o : ℕ) (m : Memory)
    → done + k ≡ 20
    → o < left
    → first_tags beg left done m (beg + o) ≡ tag_at (done + left - suc o)
first_tags-at k beg zero done o m count h = absurd (omega arith)
first_tags-at zero beg (suc left) done o m count h =
    let twenty : done ≡ 20 = omega arith in
    subst (λ (d : ℕ). first_tags beg (suc left) d m (beg + o) ≡ tag_at (d + suc left - suc o))
      (sym twenty)
      (ap (λ (f : Memory). f (beg + o)) (first_tags-counted beg (suc left) m)
        ∙ counted_tags-at beg (suc left) 20 o m (omega arith) h)
first_tags-at (suc k) beg (suc left) done o m count h =
    ap (λ (f : Memory). f (beg + o)) (first_tags-suc beg left done m (omega arith))
    ∙ elim (last-or_before o left h) [
      | inl before ↦
          (let same : suc done + left - suc o ≡ done + suc left - suc o = omega arith in
            first_tags-at k beg left (suc done) o (write m (beg + left) (tag_at done)) (omega arith)
              before
            ∙ ap tag_at same)
      | inr last ↦
          (let same : done ≡ done + suc left - suc o = omega arith in
            first_tags-above k beg left (suc done) (write m (beg + left) (tag_at done)) (beg + o)
              (omega arith) (omega arith)
            ∙ write-same m (beg + left) (beg + o) (tag_at done) (omega arith)
            ∙ ap tag_at same)
    ]

-- The use `o` places after the first of `n` has the tag for its distance from the end.
pub init_tags-at :
    (beg n o : ℕ) (m : Memory) → o < n → init_tags beg n m (beg + o) ≡ tag_at (n - suc o)
unfolding init_tags
init_tags-at beg n o m h =
    let same : 0 + n - suc o ≡ n - suc o = omega arith in
    first_tags-at 20 beg n 0 o m (omega arith) h ∙ ap tag_at same

pub init_tags-above : (beg n p : ℕ) (m : Memory) → beg + n ≤ p → init_tags beg n m p ≡ m p
unfolding init_tags
init_tags-above beg n p m h = first_tags-above 20 beg n 0 m p (omega arith) h
