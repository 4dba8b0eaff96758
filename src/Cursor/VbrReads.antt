-- ===== src/Cursor/VbrReads.antt =====
-- The loop of ReadVBR and ReadVBR64 of Src/BitstreamReader.cpp on chunks in the VBR format.
use dilithium.Base.{
  ℕ, zero, suc, ◌+◌, ◌-◌, ◌*◌, ◌/◌, ◌%◌, ◌^◌, ◌≤◌, ◌<◌, ◌≡◌, refl, ap, ◌∙◌, sym, arith, inl, inr,
}
use dilithium.Base.{two_pow-add, two_pow_pos}
use dilithium.Base.{List, [], ◌∷◌, length}
use native.Mathlib.Nat.{
  add-mod_right, mod-le, mul-le-mul_right, mod-eq_of_lt, mod-lt, div-lt_iff_lt-mul,
  le-div_iff_mul-le,
}
use mathlib.Core.Path.{subst, subst₂}
use dilithium.Cursor.State.{Cursor, ok, source}
use dilithium.Cursor.Word.{read}
use dilithium.Cursor.Vbr.{add_piece, vbr_loop}
use dilithium.Cursor.Sound.{IsSound, position, le_or_lt}
use dilithium.Cursor.Reads.{Moved, SameBlock, read-Moved}
use dilithium.Cursor.VbrFormat.{
  IsStored, last_chunk, inner_chunk, add_piece-eq, next_low, next_sum, lt_of_two_pow-lt,
}
use dilithium.Cursor.VbrFormat.{head_chunk, tail_chunks, small_chunk, large_chunk, head_chunk-lt}

-- What the loop does with a number of which `rest` is still to be read.
abbrev pub LoopReads : ℕ → ℕ → ℕ → ℕ → ℕ → ℕ → List ℕ → Cursor → ℕ → Type 0
LoopReads fuel width n piece result nb rest c v =
    (c' : Cursor) × (vbr_loop fuel width n piece result nb c ≡ ok (v, c'))
    × Moved (n * length rest) c c'

pub Moved-refl : (n : ℕ) (c : Cursor) → IsSound c → n ≡ 0 → Moved n c c
Moved-refl n c h e = record {
  sound = h;
  moved = omega arith;
  same = record {
    source_eq = refl;
    infos_eq = refl;
    width_eq = refl;
    abbrevs_eq = refl;
    scope_eq = refl;
  };
}

SameBlock-trans : {a b c : Cursor} → SameBlock a b → SameBlock b c → SameBlock a c
SameBlock-trans h k = record {
  source_eq = k.source_eq ∙ h.source_eq;
  infos_eq = k.infos_eq ∙ h.infos_eq;
  width_eq = k.width_eq ∙ h.width_eq;
  abbrevs_eq = k.abbrevs_eq ∙ h.abbrevs_eq;
  scope_eq = k.scope_eq ∙ h.scope_eq;
}

pub Moved-trans : {m n k : ℕ} {a b c : Cursor} → Moved m a b → Moved n b c → k ≡ m + n → Moved k a c
Moved-trans h k e = record {
  sound = k.sound;
  moved = omega (arith, h.moved, k.moved);
  same = SameBlock-trans h.same k.same;
}

-- A last chunk ends the loop.
last_round :
    (fuel width n w result nb : ℕ) (c : Cursor)
    → IsSound c
    → w < 2 ^ (n - 1)
    → nb < width
    → result < 2 ^ nb
    → result + w * 2 ^ nb < 2 ^ width
    → LoopReads (suc fuel) width n w result nb [] c (result + w * 2 ^ nb)
unfolding vbr_loop
last_round fuel width n w result nb c h small nb_lt low fits = (
  c,
  ground (arith, last_chunk (n - 1) w small, mod-eq_of_lt small, added),
  Moved-refl (n * 0) c h (omega arith),
)
  where
    whole : w % 2 ^ (n - 1) ≡ w
    whole = mod-eq_of_lt small

    added : add_piece width n w result nb ≡ result + w * 2 ^ nb
    added =
        add_piece-eq width n w result nb low (rw whole (omega arith))
        ∙ ap (λ (t : ℕ). result + t * 2 ^ nb) whole

-- An inner chunk goes on with the next, `p`.
inner_round :
    (fuel width n w result nb p v : ℕ) (rest : List ℕ) (c c1 : Cursor)
    → nb < width
    → result < 2 ^ nb
    → result + w * 2 ^ nb < 2 ^ width
    → p < 2 ^ 32
    → read n c ≡ ok (p, c1)
    → Moved n c c1
    → LoopReads fuel width n p (result + w % 2 ^ (n - 1) * 2 ^ nb) (nb + (n - 1)) rest c1 v
    → LoopReads (suc fuel) width n (w % 2 ^ (n - 1) + 2 ^ (n - 1)) result nb (p ∷ rest) c v
unfolding vbr_loop
inner_round fuel width n w result nb p v rest c c1 nb_lt low fits small e m (c', loop, k) = (
  c',
  ground (
    arith,
    inner_chunk (n - 1) (w % 2 ^ (n - 1)) chunk_lt,
    two_pow_pos (n - 1),
    mod-eq_of_lt small,
    added,
  ),
  Moved-trans m k (omega arith),
)
  where
    chunk_lt : w % 2 ^ (n - 1) < 2 ^ (n - 1)
    chunk_lt = mod-lt w (two_pow_pos (n - 1))

    chunk_eq : (w % 2 ^ (n - 1) + 2 ^ (n - 1)) % 2 ^ (n - 1) ≡ w % 2 ^ (n - 1)
    chunk_eq = add-mod_right (w % 2 ^ (n - 1)) (2 ^ (n - 1)) ∙ mod-eq_of_lt chunk_lt

    chunk_fits : w % 2 ^ (n - 1) * 2 ^ nb < 2 ^ width
    chunk_fits = omega (arith, mul-le-mul_right (2 ^ nb) (mod-le w (2 ^ (n - 1))))

    added :
        add_piece width n (w % 2 ^ (n - 1) + 2 ^ (n - 1)) result nb
        ≡ result + w % 2 ^ (n - 1) * 2 ^ nb
    added =
        add_piece-eq width n (w % 2 ^ (n - 1) + 2 ^ (n - 1)) result nb low (rw chunk_eq chunk_fits)
        ∙ ap (λ (t : ℕ). result + t * 2 ^ nb) chunk_eq

pub IsStored-at :
    (n : ℕ) (xs : List ℕ) {a b : List ℕ} {p q : ℕ}
    → b ≡ a
    → q ≡ p
    → IsStored a n p xs
    → IsStored b n q xs
IsStored-at n xs e f h = subst₂ (λ s t. IsStored s n t xs) (sym e) (sym f) h

pub rest_lt : (j k w : ℕ) → w < 2 ^ (k * suc (suc j)) → w / 2 ^ k < 2 ^ (k * suc j)
rest_lt j k w h =
    let more : k * suc (suc j) ≡ k * suc j + k = omega arith in
    (div-lt_iff_lt-mul (two_pow_pos k)).1
      (omega (arith, ap (λ (t : ℕ). 2 ^ t) more, two_pow-add (k * suc j) k))

next_bit-lt :
    (k w result nb width : ℕ)
    → 2 ^ k ≤ w
    → result + w % 2 ^ k * 2 ^ nb + w / 2 ^ k * 2 ^ (nb + k) < 2 ^ width
    → nb + k < width
next_bit-lt k w result nb width large fits =
    let some_left : 1 ≤ w / 2 ^ k = (le-div_iff_mul-le (two_pow_pos k)).1 (omega arith) in
    lt_of_two_pow-lt (nb + k) width (omega (arith, mul-le-mul_right (2 ^ (nb + k)) some_left))

-- The loop reads the chunks that are stored from the cursor on behind the one at hand.
pub chunks_read :
    (j fuel width n w result nb : ℕ) (c : Cursor)
    → IsSound c
    → 2 ≤ n
    → n ≤ 32
    → w < 2 ^ ((n - 1) * suc j)
    → nb < width
    → result < 2 ^ nb
    → result + w * 2 ^ nb < 2 ^ width
    → IsStored (source c) n (position c) (tail_chunks j (n - 1) w)
    → position c + n * length (tail_chunks j (n - 1) w) ≤ 8 * length (source c)
    → length (tail_chunks j (n - 1) w) < fuel
    → LoopReads fuel width n
        (head_chunk j (n - 1) w)
        result
        nb
        (tail_chunks j (n - 1) w)
        c
        (result + w * 2 ^ nb)
chunks_read j zero width n w result nb c h two_n n_32 few nb_lt low fits stored room enough =
    absurd (omega arith)
chunks_read zero (suc fuel) width n w result nb c h two_n n_32 few nb_lt low fits stored room
      enough =
    let one : (n - 1) * 1 ≡ n - 1 = omega arith in
    let small : w < 2 ^ (n - 1) = rw one at few in
    let (hd, tl) = small_chunk zero (n - 1) w small in
    rw (hd, tl) (last_round fuel width n w result nb c h small nb_lt low fits)
chunks_read (suc j) (suc fuel) width n w result nb c h two_n n_32 few nb_lt low fits stored room
      enough =
    elim (le_or_lt (2 ^ (n - 1)) w) [
      | inr small ↦
          let (hd, tl) = small_chunk (suc j) (n - 1) w small in
          rw (hd, tl) (last_round fuel width n w result nb c h small nb_lt low fits)
      | inl large ↦
          let (hd, tl) = large_chunk j (n - 1) w large in
          let next = head_chunk j (n - 1) (w / 2 ^ (n - 1)) in
          let rest = tail_chunks j (n - 1) (w / 2 ^ (n - 1)) in
          let here : IsStored (source c) n (position c) (next ∷ rest) =
            subst (IsStored (source c) n (position c)) tl stored in
          let count : length (tail_chunks (suc j) (n - 1) w) ≡ suc (length rest) = ap length tl in
          let total : position c + (n + n * length rest) ≤ 8 * length (source c) =
            omega (arith, room, ap (λ (t : ℕ). n * t) count) in
          let (c1, e, m) = read-Moved n c h (omega arith) (omega arith) (omega (arith, total)) in
          let sum = next_sum (n - 1) w result nb in
          rw (hd, tl)
            (inner_round fuel width n w result nb next (result + w * 2 ^ nb) rest c c1 nb_lt low
              fits
              (head_chunk-lt j (n - 1) (w / 2 ^ (n - 1)) (omega arith) (rest_lt j (n - 1) w few))
              (e ∙ ap (λ (t : ℕ). ok (t, c1)) here.0) m
              (subst
                (LoopReads fuel width n next (result + w % 2 ^ (n - 1) * 2 ^ nb) (nb + (n - 1)) rest
                  c1)
                sum
                (chunks_read j fuel width n (w / 2 ^ (n - 1)) (result + w % 2 ^ (n - 1) * 2 ^ nb)
                  (nb + (n - 1)) c1 m.sound two_n n_32 (rest_lt j (n - 1) w few)
                  (next_bit-lt (n - 1) w result nb width large (rw sum fits))
                  (next_low (n - 1) w result nb low) (rw sum fits)
                  (IsStored-at n rest m.same.source_eq m.moved here.1)
                  (omega (arith, total, m.moved, ap length m.same.source_eq))
                  (omega (arith, count, enough)))))
    ]
