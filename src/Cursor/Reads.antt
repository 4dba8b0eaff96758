-- ===== src/Cursor/Reads.antt =====
-- Read of Src/BitstreamReader.cpp against its specification, the next bits of the stream, whether
-- or not they stand in one word.
use dilithium.Base.{ℕ, ◌+◌, ◌-◌, ◌*◌, ◌%◌, ◌^◌, ◌≤◌, ◌<◌, ◌≡◌, refl, ap, ◌∙◌, arith}
use dilithium.Base.{
  bit_and, bit_or, bit_or_fields, slice, slice-lt, slice-add, slice-zero, two_pow-add, two_pow_pos,
}
use dilithium.Base.{inl, inr, List, length, if◌then◌else◌, ◌==◌}
use mathlib.Core.Path.{ap₂}
use native.Mathlib.Nat.{mod-eq_of_lt, pow-le-pow_right, mul-lt-mul_of_pos_right}
use dilithium.Cursor.State.{Cursor, ok, source}
use dilithium.Base.{le_value}
use dilithium.Cursor.Word.{fill_curr_word, drop_bits, read_high, read, word_mask}
use dilithium.Cursor.Masks.{mask-slice}
use dilithium.Stream.{IStream}
use dilithium.Cursor.Sound.{position, bits_at, IsSound, IsGood, drop_bits-IsSound, le_or_lt}
use dilithium.Cursor.Sound.{filled, advanced, at_tail, fill_full, fill_tail}

-- What Read leaves alone.
pub record SameBlock (c c' : Cursor) : Type 0 where
  pub source_eq : source c' ≡ source c
  pub infos_eq : c'.reader.block_infos ≡ c.reader.block_infos
  pub width_eq : c'.curr_code_size ≡ c.curr_code_size
  pub abbrevs_eq : c'.curr_abbrevs ≡ c.curr_abbrevs
  pub scope_eq : c'.block_scope ≡ c.block_scope

-- `c'` is `c` after `n` bits.
pub record Moved (n : ℕ) (c c' : Cursor) : Type 0 where
  pub sound : IsSound c'
  pub moved : position c' ≡ position c + n
  pub same : SameBlock c c'

-- What Read promises of a sound cursor: the bits, and the move over them.
abbrev pub ReadsBits : ℕ → Cursor → Type 0
ReadsBits n c =
    (c' : Cursor) × (read n c ≡ ok (bits_at (source c) (position c) n, c')) × Moved n c c'

word_value :
    (n : ℕ) (c : Cursor)
    → IsSound c
    → 0 < n
    → n ≤ 64
    → n ≤ c.bits_in_curr_word
    → bit_and c.curr_word (word_mask n) ≡ bits_at (source c) (position c) n
unfolding bits_at
word_value n c h pos_n small le_n = elim h.word [
  | inl none_left ↦ absurd (omega arith)
  | inr e ↦ rw e (mask-slice (le_value (source c)) (position c) c.bits_in_curr_word n le_n small)
]

low_value :
    (c : Cursor)
    → IsSound c
    → (if c.bits_in_curr_word == 0 then 0 else c.curr_word)
      ≡ bits_at (source c) (position c) c.bits_in_curr_word
unfolding bits_at
low_value c h = ground (arith, h.word, slice-zero (le_value (source c)) (position c))

fields_lt : (v p b left : ℕ) → b + left ≤ 64 → slice v (p + b) left * 2 ^ b < 2 ^ 64
fields_lt v p b left small =
    let whole : 2 ^ (b + left) ≤ 2 ^ 64 = pow-le-pow_right (omega arith) small in
    let below : slice v (p + b) left * 2 ^ b < 2 ^ left * 2 ^ b =
      mul-lt-mul_of_pos_right (slice-lt v (p + b) left) (two_pow_pos b) in
    omega (arith, two_pow-add b left, whole, below)

-- Bits `low` below bits `high`, as Read joins them.
join_bits :
    (v p b left : ℕ)
    → b + left ≤ 64
    → bit_or (slice v p b) (slice v (p + b) left * 2 ^ b % 2 ^ 64) ≡ slice v p (b + left)
join_bits v p b left small =
    ap (bit_or (slice v p b)) (mod-eq_of_lt (fields_lt v p b left small))
    ∙ bit_or_fields b (slice v p b) (slice v (p + b) left) (slice-lt v p b)
    ∙ omega (arith, slice-add v p b left)

module _ (n : ℕ) (c c1 : Cursor) (h : IsSound c) (h1 : IsSound c1) (same : SameBlock c c1)
    (at1 : position c1 ≡ position c + c.bits_in_curr_word) (less : c.bits_in_curr_word < n)
    (small : n ≤ 64) (enough : n - c.bits_in_curr_word ≤ c1.bits_in_curr_word) where
  high_value :
      bit_and c1.curr_word (word_mask (n - c.bits_in_curr_word))
      ≡ bits_at (source c) (position c + c.bits_in_curr_word) (n - c.bits_in_curr_word)
  high_value =
      word_value (n - c.bits_in_curr_word) c1 h1 (omega arith) (omega arith) enough
      ∙ ap₂ (λ (s : List ℕ) (p : ℕ). bits_at s p (n - c.bits_in_curr_word)) same.source_eq at1

  joined_value :
      bit_or (if c.bits_in_curr_word == 0 then 0 else c.curr_word) (
        bit_and c1.curr_word (word_mask (n - c.bits_in_curr_word))
        * 2 ^ (n - (n - c.bits_in_curr_word))
        % 2 ^ 64)
      ≡ bits_at (source c) (position c) n
  unfolding bits_at
  joined_value =
      let low : n - (n - c.bits_in_curr_word) ≡ c.bits_in_curr_word = omega arith in
      let all : c.bits_in_curr_word + (n - c.bits_in_curr_word) ≡ n = omega arith in
      rw (low_value c h, high_value, low)
        (join_bits (le_value (source c)) (position c) c.bits_in_curr_word (n - c.bits_in_curr_word)
            (omega arith)
          ∙ ap (slice (le_value (source c)) (position c)) all)

  read_high_value :
      read_high n (if c.bits_in_curr_word == 0 then 0 else c.curr_word) (n - c.bits_in_curr_word) c1
      ≡ (bits_at (source c) (position c) n, drop_bits (n - c.bits_in_curr_word) c1)
  unfolding read_high
  read_high_value = ground (arith, joined_value)

  refilled_read :
      fill_curr_word c ≡ ok (tt, c1)
      → read n c ≡ ok (bits_at (source c) (position c) n, drop_bits (n - c.bits_in_curr_word) c1)
  unfolding read
  refilled_read e = rw e (ground (arith, read_high_value))

  refilled_Moved : Moved n c (drop_bits (n - c.bits_in_curr_word) c1)
  refilled_Moved =
      let (sound, moved) = drop_bits-IsSound (n - c.bits_in_curr_word) c1 h1 enough in
      record { sound = sound; moved = omega (arith, moved); same = dropped_SameBlock }
    where
      dropped_SameBlock : SameBlock c (drop_bits (n - c.bits_in_curr_word) c1)
      dropped_SameBlock = record {
        source_eq = same.source_eq;
        infos_eq = same.infos_eq;
        width_eq = same.width_eq;
        abbrevs_eq = same.abbrevs_eq;
        scope_eq = same.scope_eq;
      }

  refilled_ReadsBits : fill_curr_word c ≡ ok (tt, c1) → ReadsBits n c
  refilled_ReadsBits e = (drop_bits (n - c.bits_in_curr_word) c1, refilled_read e, refilled_Moved)

in_word_read :
    (n : ℕ) (c : Cursor)
    → IsSound c
    → 0 < n
    → n ≤ 64
    → n ≤ c.bits_in_curr_word
    → read n c ≡ ok (bits_at (source c) (position c) n, drop_bits n c)
unfolding read
in_word_read n c h pos_n small le_n = ground (arith, word_value n c h pos_n small le_n)

in_word_ReadsBits :
    (n : ℕ) (c : Cursor) → IsSound c → 0 < n → n ≤ 64 → n ≤ c.bits_in_curr_word → ReadsBits n c
in_word_ReadsBits n c h pos_n small le_n =
    let (sound, moved) = drop_bits-IsSound n c h le_n in
    (
      drop_bits n c,
      in_word_read n c h pos_n small le_n,
      record { sound = sound; moved = moved; same = unchanged },
    )
  where
    unchanged : SameBlock c (drop_bits n c)
    unchanged = record {
      source_eq = refl;
      infos_eq = refl;
      width_eq = refl;
      abbrevs_eq = refl;
      scope_eq = refl;
    }

-- The refill of a good stream, by whether it has a whole word left.
good_ReadsBits :
    (n : ℕ) (c : Cursor)
    → IsSound c
    → IsGood c.reader.stream
    → c.bits_in_curr_word < n
    → n ≤ 64
    → position c + n ≤ 8 * length (source c)
    → ReadsBits n c
good_ReadsBits n c h g less small room =
    elim (le_or_lt (c.reader.stream.buf.current + 8) (length (source c))) [
      | inl whole ↦
          let (e, sound) = fill_full c h g whole in
          refilled_ReadsBits n c _ h sound (kept 8 _ (advanced 8 c.reader.stream) refl)
            (omega arith) less small (omega arith) e
      | inr partial ↦
          let (e, sound) = fill_tail c h g (omega (arith, h.fetched)) partial in
          refilled_ReadsBits n c _ h sound (kept _ _ (at_tail c.reader.stream) refl) (omega arith)
            less small (omega (arith, h.fetched)) e
    ]
  where
    kept :
        (k at_char : ℕ) (s : IStream) → s.buf.bytes ≡ source c → SameBlock c (filled k at_char s c)
    kept k at_char s e = record {
      source_eq = e;
      infos_eq = refl;
      width_eq = refl;
      abbrevs_eq = refl;
      scope_eq = refl;
    }

-- Read of 1 to 64 bits on a sound cursor that has them left answers these bits of the stream,
-- moves over them and leaves a sound cursor in the same block.
pub read-Moved :
    (n : ℕ) (c : Cursor)
    → IsSound c
    → 0 < n
    → n ≤ 64
    → position c + n ≤ 8 * length (source c)
    → ReadsBits n c
read-Moved n c h pos_n small room = elim (le_or_lt n c.bits_in_curr_word) [
  | inl le_n ↦ in_word_ReadsBits n c h pos_n small le_n
  | inr less ↦ elim h.located [
    | inl (g, _) ↦ good_ReadsBits n c h g less small room
    | inr (_, at_end, _) ↦ absurd (omega (arith, h.fetched))
  ]
]
