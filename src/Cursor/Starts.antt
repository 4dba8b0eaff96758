-- ===== src/Cursor/Starts.antt =====
-- A cursor of Src/BitstreamReader.cpp that was just set on a stream of bytes.
use dilithium.Base.{ℕ, refl, arith, inl, List, [], All, IsByte}
use dilithium.Stream.{open_stream}
use dilithium.Cursor.State.{Cursor, init}
use dilithium.Cursor.Sound.{IsSound}
use dilithium.Cursor.Ends.{IsWithin}

-- The reader over `bytes`, and a cursor at its start; `word` is what the memory of `curr_word_`
-- held.
abbrev pub cursor_on : List ℕ → ℕ → Cursor
cursor_on bytes word = init (record { stream = open_stream bytes; block_infos = [] }) word

pub cursor_on-IsSound :
    (bytes : List ℕ) (word : ℕ) → All IsByte bytes → IsSound (cursor_on bytes word)
unfolding init open_stream
cursor_on-IsSound bytes word h = record {
  bytes = h;
  inside = omega arith;
  fetched = omega arith;
  fits = omega arith;
  fresh = refl;
  word = inl refl;
  located = inl ((refl, refl), refl);
}

pub cursor_on-IsWithin : (bytes : List ℕ) (word : ℕ) → IsWithin (cursor_on bytes word)
unfolding init open_stream
cursor_on-IsWithin bytes word = omega arith
