-- ===== src/Cursor/Word.antt =====
-- Src/BitstreamReader.cpp: FillCurrWord, Read, AtEndOfStream, JumpToBit, SkipToFourByteBoundary.
use dilithium.Base.{ℕ, ◌-◌, ◌*◌, ◌/◌, ◌%◌, ◌^◌, bit_and, bit_or}
use dilithium.Base.{Bool, false, not, ◌&&◌, ◌||◌, if◌then◌else◌, ltb, leb, ◌==◌}
use dilithium.Base.{none, some, List, length, le_value}
use dilithium.Stream.{stream_read, tellg, seekg}
use dilithium.Cursor.State.{Cursor, M, ◌>>=◌, ◌>>◌, pure, get, modify, asserting}
use dilithium.Cursor.State.{ok, fail, fatal, assertion, undefined, can_skip_to_pos}

-- What is left of FillCurrWord once the bytes are read and the position is known.
abbrev pub take_word : List ℕ → ℕ → Cursor → Cursor
take_word got at_char c =
    if length got == 0 then record c { next_char = at_char; size = at_char } else record c {
      next_char = at_char;
      curr_word = le_value got;
      bits_in_curr_word = length got * 8;
    }

unfoldable pub fill_curr_word : M (Unit {0})
fill_curr_word c =
    if not (c.size == 0) && leb c.size c.next_char
    then fail fatal
    else (let (got, s) = stream_read 8 c.reader.stream in
        let (at_char, s') = tellg s in
        ok (tt, take_word got at_char (record c { reader = record c.reader { stream = s' } })))

-- ~word_t(0) >> (MAX_CHUNK_SIZE - n)
unfoldable pub word_mask : ℕ → ℕ
word_mask n = (2 ^ 64 - 1) / 2 ^ (64 - n)

-- Takes `n` of the bits in the current word: `curr_word_ >>= n & 0x3F` and the count.
abbrev pub drop_bits : ℕ → Cursor → Cursor
drop_bits n c = record c {
  curr_word = c.curr_word / 2 ^ bit_and n 0x3f;
  bits_in_curr_word = c.bits_in_curr_word - n;
}

-- The end of Read, after the refill: `left` bits of the new word go above the `ret` at hand.
unfoldable pub read_high : ℕ → ℕ → ℕ → Cursor → ℕ × Cursor
unfolding word_mask
read_high n ret left c = if ltb c.bits_in_curr_word left then (0, c) else (
  bit_or ret (bit_and c.curr_word (word_mask left) * 2 ^ (n - left) % 2 ^ 64),
  drop_bits left c,
)

unfoldable pub read : ℕ → M ℕ
read n c =
    if n == 0 || ltb 64 n
    then fail assertion
    else if leb n c.bits_in_curr_word
    then ok (bit_and c.curr_word (word_mask n), drop_bits n c)
    else (let ret = if c.bits_in_curr_word == 0 then 0 else c.curr_word in
        let left = n - c.bits_in_curr_word in
        elim (fill_curr_word c) [ fail e ↦ fail e | ok (_, c') ↦ ok (read_high n ret left c') ])

unfoldable pub at_end_of_stream : M Bool
at_end_of_stream c =
    if not (c.bits_in_curr_word == 0)
    then ok (false, c)
    else if not (c.size == 0)
    then ok (c.size == c.next_char, c)
    else elim (fill_curr_word c) [
      | fail e ↦ fail e
      | ok (_, c') ↦ ok (c'.bits_in_curr_word == 0, c')
    ]

-- The seek of JumpToBit, to byte `byte_no`.
unfoldable pub seek_to : ℕ → M (Unit {0})
seek_to byte_no c = elim (seekg byte_no c.reader.stream) [
  | none ↦ fail undefined
  | some s ↦
      let (at_char, s') = tellg s in
      ok (
        tt,
        record c {
          reader = record c.reader { stream = s' };
          next_char = at_char;
          bits_in_curr_word = 0;
        },
      )
]

unfoldable pub jump_to_bit : ℕ → M (Unit {0})
unfolding seek_to read can_skip_to_pos
jump_to_bit bit_no = do
  let byte_no = bit_no / 8 / 8 * 8
  let word_bit_no = bit_and bit_no 63
  c ← get
  asserting (can_skip_to_pos c byte_no)
  seek_to byte_no
  if word_bit_no == 0 then pure tt else (read word_bit_no >> pure tt)

unfoldable pub align_word : Cursor → Cursor
align_word c =
    if leb 32 c.bits_in_curr_word
    then record c {
      curr_word = c.curr_word / 2 ^ (c.bits_in_curr_word - 32);
      bits_in_curr_word = 32;
    }
    else record c { bits_in_curr_word = 0 }

unfoldable pub skip_to_four_byte_boundary : M (Unit {0})
unfolding align_word
skip_to_four_byte_boundary = modify align_word
