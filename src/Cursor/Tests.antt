-- ===== src/Cursor/Tests.antt =====
-- The cursor on short streams.
use dilithium.Base.{ℕ, ◌*◌, ◌≡◌, refl, arith, List, [], ◌∷◌, length, All, IsByte}
use dilithium.Base.{le_value, slice}
use dilithium.Stream.{open_stream, open_buf, stream_read, tellg, seekoff, xsgetn}
use dilithium.Cursor.State.{Cursor, init, Outcome, ok, fail}
use dilithium.Cursor.Word.{read, fill_curr_word, read_high, word_mask}
use dilithium.Cursor.Vbr.{read_vbr64}
use dilithium.Cursor.Entry.{advance}
use dilithium.Cursor.Sound.{IsSound, bits_at}
use dilithium.Cursor.Reads.{ReadsBits, Moved, read-Moved}
use dilithium.Cursor.VbrFormat.{vbr_chunks}
use dilithium.Cursor.VbrRoundTrip.{read_vbr64-chunks}
use dilithium.Cursor.Ends.{Ends, Kept, Progress, read-Ends}
use dilithium.Cursor.Entries.{advance-Ends}
use dilithium.Cursor.Starts.{cursor_on, cursor_on-IsSound, cursor_on-IsWithin}

-- The magic number of LLVM bitcode and the first bytes that follow it.
abbrev magic : List ℕ
magic = b'B' ∷ b'C' ∷ 0xc0 ∷ 0xde ∷ 0x35 ∷ 0x14 ∷ 0 ∷ 0 ∷ []

magic-IsByte : All IsByte magic
magic-IsByte = (
  omega arith,
  (
    omega arith,
    (omega arith, (omega arith, (omega arith, (omega arith, (omega arith, (omega arith, tt)))))),
  ),
)

abbrev start : Cursor
start = cursor_on magic 0

start-IsSound : IsSound start
start-IsSound = cursor_on-IsSound magic 0 magic-IsByte

read-Moved_example : ReadsBits 12 start
unfolding init open_stream
read-Moved_example = read-Moved 12 start start-IsSound (omega arith) (omega arith) (omega arith)

-- 98 in chunks of 6 bits: 34 and 3.
abbrev chunks : List ℕ
chunks = 0xe2 ∷ 0 ∷ 0 ∷ 0 ∷ []

chunks-IsByte : All IsByte chunks
chunks-IsByte = (omega arith, (omega arith, (omega arith, (omega arith, tt))))

read_vbr64-chunks_example :
    (c' : Cursor) × (read_vbr64 6 (cursor_on chunks 0) ≡ ok (98, c'))
    × Moved (6 * length (vbr_chunks 1 5 98)) (cursor_on chunks 0) c'
unfolding init open_stream vbr_chunks bits_at slice le_value
read_vbr64-chunks_example =
    read_vbr64-chunks 1 6 98 (cursor_on chunks 0) (cursor_on-IsSound chunks 0 chunks-IsByte)
      (omega arith) (omega arith) (omega arith) (omega arith) (refl, (refl, tt)) (omega arith)

advance-Ends_example : Ends (Kept start) (advance 0 start)
advance-Ends_example = advance-Ends 0 start (cursor_on-IsWithin magic 0)

read-Ends_example : Ends (Progress start) (read 40 start)
read-Ends_example = read-Ends 40 start (cursor_on-IsWithin magic 0)

abbrev value : Outcome (ℕ × Cursor) → ℕ
value (ok (a, c)) = a
value (fail e) = 0

read_magic : value (read 16 start) ≡ 0x4342
unfolding read read_high word_mask fill_curr_word stream_read xsgetn tellg seekoff le_value init
    open_stream open_buf
read_magic = refl
