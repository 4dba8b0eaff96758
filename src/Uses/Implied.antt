-- ===== src/Uses/Implied.antt =====
-- GetImpliedUser of Src/Use.cpp on the tags that InitTags writes.
use dilithium.Base.{
  ℕ, zero, suc, ◌+◌, ◌-◌, ◌*◌, ◌/◌, ◌%◌, ◌≤◌, ◌<◌, ◌≡◌, refl, ap, sym, ◌∙◌, arith, ◌⊎◌, inl, inr,
}
use dilithium.Base.{some}
use dilithium.Uses.{stop, Memory, tag_of_bit, read_offset, implied_user, init_tags}
use dilithium.Uses.Count.{
  count_at, tag_at, init_tags-at, count_at-suc_zero, count_at-suc_more, tag_at-stop, tag_at-bit,
}

-- The `n` uses before the address `e` have the tags of their distances.
abbrev IsTagged : Memory → ℕ → ℕ → Type 0
IsTagged m e n = (k : ℕ) → k < n → m (e - suc k) ≡ tag_at k

zero-or_more : (n : ℕ) → (n ≡ 0) ⊎ (0 < n)
zero-or_more n = omega arith

-- A digit that is read gives back the count that it was taken from.
read_offset-bit :
    (fuel curr c : ℕ) (m : Memory)
    → m curr ≡ tag_of_bit c
    → read_offset (suc fuel) curr (c / 2) m ≡ read_offset fuel (suc curr) c m
unfolding read_offset
read_offset-bit fuel curr c m h = elim (zero-or_more (c % 2)) [
  | inl even ↦
      (let back : c / 2 * 2 ≡ c = omega arith in
        grind (arith, h, even, ap (λ (t : ℕ). read_offset fuel (suc curr) t m) back))
  | inr odd ↦
      (let back : c / 2 * 2 + 1 ≡ c = omega arith in
        grind (arith, h, odd, ap (λ (t : ℕ). read_offset fuel (suc curr) t m) back))
]

read_offset-end :
    (fuel curr offset k : ℕ) (m : Memory)
    → m curr ≡ tag_at k
    → count_at k ≡ 0
    → read_offset (suc fuel) curr offset m ≡ some (curr + offset)
unfolding read_offset tag_at
read_offset-end fuel curr offset k m h stopped = grind (arith, h, stopped)

stops :
    (j fuel e n : ℕ) (m : Memory)
    → IsTagged m e n
    → n ≤ e
    → j < n
    → count_at j ≡ 0
    → read_offset (suc fuel) (e - suc j) (count_at (suc j)) m ≡ some e
stops j fuel e n m tagged fits h stopped =
    let end : e - suc j + count_at (suc j) ≡ e = omega (arith, count_at-suc_zero j stopped) in
    read_offset-end fuel (e - suc j) (count_at (suc j)) j m (tagged j h) stopped ∙ ap some end

-- From the use at distance `j`, with the digits before it read.
read_offset-count :
    (j fuel e n : ℕ) (m : Memory)
    → IsTagged m e n
    → n ≤ e
    → j < n
    → j < fuel
    → read_offset fuel (e - suc j) (count_at (suc j)) m ≡ some e
unfolding count_at
read_offset-count j zero e n m tagged fits h enough = absurd (omega arith)
read_offset-count zero (suc fuel) e n m tagged fits h enough = stops 0 fuel e n m tagged fits h refl
read_offset-count (suc j) (suc fuel) e n m tagged fits h enough =
    elim (zero-or_more (count_at (suc j))) [
      | inl stopped ↦ stops (suc j) fuel e n m tagged fits h stopped
      | inr more ↦
          (let next : suc (e - suc (suc j)) ≡ e - suc j = omega arith in
            ap (λ (t : ℕ). read_offset (suc fuel) (e - suc (suc j)) t m)
              (count_at-suc_more (suc j) more)
            ∙ read_offset-bit fuel (e - suc (suc j)) (count_at (suc j)) m
                (tagged (suc j) h ∙ tag_at-bit (suc j) more)
            ∙ ap (λ (t : ℕ). read_offset fuel t (count_at (suc j)) m) next
            ∙ read_offset-count j fuel e n m tagged fits (omega arith) (omega arith))
    ]

count_at_zero : count_at 0 ≡ 0
unfolding count_at
count_at_zero = refl

-- No digits are left before the first use after a stop, and one digit before the second.
before-stop :
    (k : ℕ) → 0 < k → count_at k ≡ 0 → (j : ℕ) × (k ≡ suc (suc j)) × (count_at (suc j) ≡ 1)
before-stop zero pos h = absurd (omega arith)
before-stop (suc zero) pos h =
    let one : count_at 1 ≡ 1 = count_at-suc_zero 0 count_at_zero in absurd (omega (arith, h, one))
before-stop (suc (suc j)) pos h = (
  j,
  refl,
  elim (zero-or_more (count_at (suc j))) [
    | inl none_left ↦ absurd (omega (arith, h, count_at-suc_zero (suc j) none_left))
    | inr more ↦ omega (arith, h, more, count_at-suc_more (suc j) more)
  ],
)

implied_user-bit :
    (fuel curr c : ℕ) (m : Memory)
    → m curr ≡ tag_of_bit c
    → implied_user (suc fuel) curr m ≡ implied_user fuel (suc curr) m
unfolding implied_user
implied_user-bit fuel curr c m h = elim (zero-or_more (c % 2)) [
  | inl even ↦ grind (arith, h, even)
  | inr odd ↦ grind (arith, h, odd)
]

implied_user-stop :
    (fuel curr : ℕ) (m : Memory)
    → m curr ≡ stop
    → implied_user (suc fuel) curr m ≡ read_offset fuel (suc (suc curr)) 1 m
unfolding implied_user
implied_user-stop fuel curr m h = grind (arith, h)

implied_user-full_stop :
    (fuel curr : ℕ) (m : Memory)
    → m curr ≡ tag_at 0
    → implied_user (suc fuel) curr m ≡ some (suc curr)
unfolding implied_user tag_at count_at
implied_user-full_stop fuel curr m h = grind (arith, h)

implied_user-count :
    (k fuel e n : ℕ) (m : Memory)
    → IsTagged m e n
    → n ≤ e
    → k < n
    → k < fuel
    → implied_user fuel (e - suc k) m ≡ some e
implied_user-count k zero e n m tagged fits h enough = absurd (omega arith)
implied_user-count zero (suc fuel) e n m tagged fits h enough =
    implied_user-full_stop fuel (e - 1) m (tagged 0 h) ∙ ap some (omega arith)
implied_user-count (suc k) (suc fuel) e n m tagged fits h enough =
    elim (zero-or_more (count_at (suc k))) [
      | inl stopped ↦
          (let (j, apart, one) = before-stop (suc k) (omega arith) stopped in
            let next : suc (suc (e - suc (suc k))) ≡ e - suc j = omega arith in
            implied_user-stop fuel (e - suc (suc k)) m
              (tagged (suc k) h ∙ tag_at-stop (suc k) (omega arith) stopped)
            ∙ ap (λ (t : ℕ). read_offset fuel t 1 m) next
            ∙ ap (λ (t : ℕ). read_offset fuel (e - suc j) t m) (sym one)
            ∙ read_offset-count j fuel e n m tagged fits (omega arith) (omega arith))
      | inr more ↦
          (let next : suc (e - suc (suc k)) ≡ e - suc k = omega arith in
            implied_user-bit fuel (e - suc (suc k)) (count_at (suc k)) m
              (tagged (suc k) h ∙ tag_at-bit (suc k) more)
            ∙ ap (λ (t : ℕ). implied_user fuel t m) next
            ∙ implied_user-count k fuel e n m tagged fits (omega arith) (omega arith))
    ]

-- After InitTags on the `n` uses from `beg` on, GetImpliedUser from any of them gives the address
-- after the last, whatever `n` is and whatever the memory held before; a step for each use is enough.
pub implied_user-init_tags :
    (beg n o : ℕ) (m : Memory)
    → o < n
    → implied_user n (beg + o) (init_tags beg n m) ≡ some (beg + n)
implied_user-init_tags beg n o m h =
    let here : beg + n - suc (n - suc o) ≡ beg + o = omega arith in
    ap (λ (t : ℕ). implied_user n t (init_tags beg n m)) (sym here)
    ∙ implied_user-count (n - suc o) n (beg + n) n (init_tags beg n m) tagged (omega arith)
        (omega arith) (omega arith)
  where
    tagged : IsTagged (init_tags beg n m) (beg + n) n
    tagged k less =
        let place : beg + n - suc k ≡ beg + (n - suc k) = omega arith in
        let distance : n - suc (n - suc k) ≡ k = omega arith in
        ap (init_tags beg n m) place
        ∙ init_tags-at beg n (n - suc k) m (omega arith)
        ∙ ap tag_at distance
