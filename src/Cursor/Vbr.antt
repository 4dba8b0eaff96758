-- ===== src/Cursor/Vbr.antt =====
-- Src/BitstreamReader.cpp: ReadVBR and ReadVBR64, which differ in the width of the result alone.
use dilithium.Base.{ℕ, zero, suc, ◌+◌, ◌-◌, ◌*◌, ◌%◌, ◌^◌, bit_and, bit_or}
use dilithium.Base.{if◌then◌else◌, ltb, leb, ◌==◌, length}
use dilithium.Cursor.State.{
  Cursor, M, ◌>>=◌, pure, throw, get, undefined, exhausted, source, ok, fail,
}
use dilithium.Cursor.Word.{read}

-- The bits that are left to read: those of the current word and those not yet fetched.
abbrev pub bits_left : Cursor → ℕ
bits_left c = 8 * (length (source c) - c.reader.stream.buf.current) + c.bits_in_curr_word

-- piece & (1U << (num_bits - 1))
abbrev pub more_bit : ℕ → ℕ → ℕ
more_bit n piece = bit_and piece (2 ^ (n - 1))

-- result | ((piece & ((1U << (num_bits - 1)) - 1)) << next_bit), at `width` bits.
abbrev pub add_piece : ℕ → ℕ → ℕ → ℕ → ℕ → ℕ
add_piece width n piece result next_bit =
    bit_or result (bit_and piece (2 ^ (n - 1) - 1) * 2 ^ next_bit % 2 ^ width)

-- The loop. A shift by the width or more is undefined. Each further piece takes a bit at least,
-- or is the 0 at the end of the stream, so that `bits_left` and two rounds are enough.
unfoldable pub vbr_loop : ℕ → ℕ → ℕ → ℕ → ℕ → ℕ → M ℕ
vbr_loop zero width n piece result next_bit c = fail exhausted
vbr_loop (suc fuel) width n piece result next_bit c =
    if leb width next_bit
    then fail undefined
    else if more_bit n piece == 0
    then ok (add_piece width n piece result next_bit, c)
    else elim (read n c) [
      | fail e ↦ fail e
      | ok (v, c') ↦
          vbr_loop fuel width n (v % 2 ^ 32) (add_piece width n piece result next_bit)
            (next_bit + (n - 1)) c'
    ]

unfoldable pub read_vbr_at : ℕ → ℕ → M ℕ
unfolding vbr_loop
read_vbr_at width n = do
  v ← read n
  let piece = v % 2 ^ 32
  c ← get
  if ltb 32 n
      then throw undefined
      else if more_bit n piece == 0
      then pure piece
      else vbr_loop (suc (suc (bits_left c))) width n piece 0 0

unfoldable pub read_vbr : ℕ → M ℕ
unfolding read_vbr_at
read_vbr = read_vbr_at 32

unfoldable pub read_vbr64 : ℕ → M ℕ
unfolding read_vbr_at
read_vbr64 = read_vbr_at 64
