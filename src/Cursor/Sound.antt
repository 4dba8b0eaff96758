-- ===== src/Cursor/Sound.antt =====
-- When the cursor of Src/BitstreamReader.cpp stands on a bit of its stream. The stream is taken as
-- one number, its first byte the lowest.
use dilithium.Base.{ℕ, ◌+◌, ◌-◌, ◌*◌, ◌/◌, ◌^◌, ◌≤◌, ◌<◌, ◌≡◌, refl, arith}
use dilithium.Base.{bit_and, slice}
use dilithium.Base.{
  true, false, ◌⊎◌, inl, inr, List, All, length, take, drop, length-take, length-drop,
}
use dilithium.Stream.{IStream}
use dilithium.Stream.Laws.{stream_read_full, stream_read_short, tellg_good, tellg_failed}
use dilithium.Cursor.State.{Cursor, ok, source}
use dilithium.Base.{le_value, IsByte, le_value-slice}
use dilithium.Cursor.Word.{fill_curr_word, drop_bits}
use dilithium.Cursor.Masks.{shift-slice}

-- Bit number of the next bit to be read.
abbrev pub position : Cursor → ℕ
position c = 8 * c.reader.stream.buf.current - c.bits_in_curr_word

-- The `n` bits of the stream from bit `p` on.
unfoldable pub bits_at : List ℕ → ℕ → ℕ → ℕ
bits_at bytes p n = slice (le_value bytes) p n

abbrev pub IsGood : IStream → Type 0
IsGood s = (s.eofbit ≡ false) × (s.failbit ≡ false)

-- The last word of a stream of other than whole 64-bit words fails the stream, and `next_char` is
-- lost, but the word is at hand.
abbrev pub IsAtTail : Cursor → Type 0
IsAtTail c =
    (c.reader.stream.failbit ≡ true)
    × (c.reader.stream.buf.current ≡ length (source c))
    × (c.next_char ≡ 2 ^ 64 - 1)

pub record IsSound (c : Cursor) : Type 0 where
  pub bytes : All IsByte (source c)
  pub inside : c.reader.stream.buf.current ≤ length (source c)
  pub fetched : c.bits_in_curr_word ≤ 8 * c.reader.stream.buf.current
  pub fits : c.bits_in_curr_word ≤ 64
  pub fresh : c.size ≡ 0
  pub word :
      (c.bits_in_curr_word ≡ 0)
      ⊎ (c.curr_word ≡ bits_at (source c) (position c) c.bits_in_curr_word)
  pub located : (IsGood c.reader.stream × (c.next_char ≡ c.reader.stream.buf.current)) ⊎ IsAtTail c

pub le_or_lt : (a b : ℕ) → (a ≤ b) ⊎ (b < a)
le_or_lt a b = omega arith

eq_or_lt : (a b : ℕ) → a ≤ b → (a ≡ b) ⊎ (a < b)
eq_or_lt a b h = omega arith

-- The end of a move of `n` bits within the word.
drop_bits_word :
    (n : ℕ) (c : Cursor)
    → IsSound c
    → n ≤ c.bits_in_curr_word
    → (c.bits_in_curr_word - n ≡ 0)
      ⊎ (c.curr_word / 2 ^ bit_and n 0x3f
          ≡ bits_at (source c) (position c + n) (c.bits_in_curr_word - n))
unfolding bits_at
drop_bits_word n c h le_n = elim (eq_or_lt n c.bits_in_curr_word le_n) [
  | inl all ↦ inl (omega arith)
  | inr some_left ↦ elim h.word [
    | inl zero_bits ↦ absurd (omega arith)
    | inr e ↦ inr (
        rw e (
          shift-slice (le_value (source c)) (position c) c.bits_in_curr_word n le_n
            (omega (arith, h.fits))))
  ]
]

pub drop_bits-IsSound :
    (n : ℕ) (c : Cursor)
    → IsSound c
    → n ≤ c.bits_in_curr_word
    → IsSound (drop_bits n c) × (position (drop_bits n c) ≡ position c + n)
drop_bits-IsSound n c h le_n =
    let moved : position (drop_bits n c) ≡ position c + n = omega (arith, h.fetched) in
    (
      record {
        bytes = h.bytes;
        inside = h.inside;
        fetched = omega (arith, h.fetched);
        fits = omega (arith, h.fits);
        fresh = h.fresh;
        word = rw moved (drop_bits_word n c h le_n);
        located = h.located;
      },
      moved,
    )

-- The cursor with the next `k` bytes in its word, over a stream that is now `s`.
abbrev pub filled : ℕ → ℕ → IStream → Cursor → Cursor
filled k at_char s c = record c {
  reader = record c.reader { stream = s };
  next_char = at_char;
  curr_word = le_value (take k (drop c.reader.stream.buf.current (source c)));
  bits_in_curr_word = k * 8;
}

filled_word :
    (k : ℕ) (c : Cursor)
    → IsSound c
    → le_value (take k (drop c.reader.stream.buf.current (source c)))
      ≡ bits_at (source c) (8 * (c.reader.stream.buf.current + k) - k * 8) (k * 8)
unfolding bits_at
filled_word k c h = ground (arith, le_value-slice c.reader.stream.buf.current k (source c) h.bytes)

abbrev pub advanced : ℕ → IStream → IStream
advanced k s = record s { buf = record s.buf { current = s.buf.current + k } }

abbrev pub at_tail : IStream → IStream
at_tail s = record {
  buf = record s.buf { current = length s.buf.bytes };
  eofbit = true;
  failbit = true;
}

-- The refill where eight bytes are left.
pub fill_full :
    (c : Cursor)
    → IsSound c
    → IsGood c.reader.stream
    → c.reader.stream.buf.current + 8 ≤ length (source c)
    → let s = advanced 8 c.reader.stream in
      let c' = filled 8 (c.reader.stream.buf.current + 8) s c in
      (fill_curr_word c ≡ ok (tt, c')) × IsSound c'
unfolding fill_curr_word
fill_full c h g room = (
  ground (
    arith,
    stream_read_full 8 c.reader.stream g.0 g.1 room,
    tellg_good (advanced 8 c.reader.stream) g.0 g.1 room,
    length-take 8 (drop c.reader.stream.buf.current (source c)),
    length-drop c.reader.stream.buf.current (source c),
  ),
  record {
    bytes = h.bytes;
    inside = room;
    fetched = omega arith;
    fits = omega arith;
    fresh = h.fresh;
    word = inr (filled_word 8 c h);
    located = inl (g, refl);
  },
)

-- The refill where there are fewer, but some.
pub fill_tail :
    (c : Cursor)
    → IsSound c
    → IsGood c.reader.stream
    → c.reader.stream.buf.current < length (source c)
    → length (source c) < c.reader.stream.buf.current + 8
    → let k = length (source c) - c.reader.stream.buf.current in
      let c' = filled k (2 ^ 64 - 1) (at_tail c.reader.stream) c in
      (fill_curr_word c ≡ ok (tt, c')) × IsSound c'
unfolding fill_curr_word
fill_tail c h g some_left room =
    let k = length (source c) - c.reader.stream.buf.current in
    (
      ground (
        arith,
        stream_read_short 8 c.reader.stream g.0 g.1 h.inside room,
        tellg_failed (at_tail c.reader.stream) refl,
        length-take k (drop c.reader.stream.buf.current (source c)),
        length-drop c.reader.stream.buf.current (source c),
      ),
      record {
        bytes = h.bytes;
        inside = omega arith;
        fetched = omega arith;
        fits = omega arith;
        fresh = h.fresh;
        word = inr (rw tail_end at (filled_word k c h));
        located = inr (refl, refl, refl);
      },
    )
  where
    tail_end :
        c.reader.stream.buf.current + (length (source c) - c.reader.stream.buf.current)
        ≡ length (source c)
    tail_end = omega arith
