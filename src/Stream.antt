-- ===== src/Stream.antt =====
-- Src/MemStreamBuf.cpp, and std::istream over it as Src/BitstreamReader.cpp uses it. The buffer
-- [begin_, end_) is a list of bytes, and `current` is `current_ - begin_`. Plain char is signed.
pub mod Laws
use dilithium.Base.{ℕ, zero, suc, ◌+◌, ◌-◌, ◌*◌, ◌/◌, ◌%◌, ◌^◌, ◌≤◌, ◌<◌}
use dilithium.Base.{Bool, true, false, not, ◌&&◌, ◌||◌, if◌then◌else◌, ltb, leb, ◌==◌}
use dilithium.Base.{Option, none, some, List, [], ◌∷◌, length, get_elem?, take, drop}
use dilithium.Base.Int.{ℤ, pos, negsuc}

pub record MemStreamBuf : Type 0 where
  pub bytes : List ℕ
  pub current : ℕ

-- The assertion `begin_ <= end_` holds by the representation.
unfoldable pub open_buf : List ℕ → MemStreamBuf
open_buf bytes = record { bytes = bytes; current = 0 }

abbrev pub eof : ℤ
eof = negsuc 0

-- `return *c`: the conversion of a (signed) char to int_type.
unfoldable pub char_to_int : ℕ → ℤ
char_to_int b = if ltb b 128 then pos b else negsuc (255 - b)

-- `*current_` inside the buffer; past its end there is no such byte.
abbrev pub peek_char : MemStreamBuf → ℕ → ℤ
peek_char m i = elim (get_elem? m.bytes i) [ none ↦ eof | some b ↦ char_to_int b ]

unfoldable pub uflow : MemStreamBuf → ℤ × MemStreamBuf
uflow m =
    if m.current == length m.bytes
    then (eof, m)
    else (peek_char m m.current, record m { current = m.current + 1 })

unfoldable pub underflow : MemStreamBuf → ℤ
underflow m = if m.current == length m.bytes then eof else peek_char m m.current

-- The bytes copied to `s` stand for the count that is returned.
unfoldable pub xsgetn : ℕ → MemStreamBuf → List ℕ × MemStreamBuf
xsgetn count m =
    let n : ℕ =
      if leb (length m.bytes) (m.current + count) then length m.bytes - m.current else count in
    (take n (drop m.current m.bytes), record m { current = m.current + n })

abbrev int_eq : ℤ → ℤ → Bool
int_eq (pos a) (pos b) = a == b
int_eq (negsuc a) (negsuc b) = a == b
int_eq _ _ = false

unfoldable pub pbackfail : ℤ → MemStreamBuf → ℤ × MemStreamBuf
pbackfail ch m =
    if m.current == 0 || (not (int_eq ch eof) && not (int_eq ch (peek_char m (m.current - 1))))
    then (eof, m)
    else (peek_char m (m.current - 1), record m { current = m.current - 1 })

unfoldable pub showmanyc : MemStreamBuf → ℕ
showmanyc m = length m.bytes - m.current

pub data SeekDir : Type 0 where
  beg cur end : SeekDir

-- `none` is the position -1. The offsets that the callers pass are not negative.
unfoldable pub seekoff : ℕ → SeekDir → MemStreamBuf → Option ℕ × MemStreamBuf
seekoff off beg m =
    if leb off (length m.bytes) then (some off, record m { current = off }) else (none, m)
seekoff off end m =
    if leb off (length m.bytes)
    then (some (length m.bytes - off), record m { current = length m.bytes - off })
    else (none, m)
seekoff off cur m =
    if leb (m.current + off) (length m.bytes)
    then (some (m.current + off), record m { current = m.current + off })
    else (none, m)

-- `begin_ + static_cast<int>(sp)` leaves the buffer where `sp` does not fit an int: `none` then.
unfoldable pub seekpos : ℕ → MemStreamBuf → Option (Option ℕ × MemStreamBuf)
seekpos sp m =
    if ltb sp (length m.bytes)
    then (if ltb sp (2 ^ 31) then some (some sp, record m { current = sp }) else none)
    else some (none, m)

-- The state of a std::istream: its buffer, eofbit and failbit.
pub record IStream : Type 0 where
  pub buf : MemStreamBuf
  pub eofbit : Bool
  pub failbit : Bool

unfoldable pub open_stream : List ℕ → IStream
unfolding open_buf
open_stream bytes = record { buf = open_buf bytes; eofbit = false; failbit = false }

abbrev pub good : IStream → Bool
good s = not s.eofbit && not s.failbit

-- istream::read: the bytes read, whose number is gcount(). On a stream that is not good, or where
-- fewer bytes are left, failbit is set, and eofbit too in the second case.
unfoldable pub stream_read : ℕ → IStream → List ℕ × IStream
stream_read n s =
    let (got, m) = xsgetn n s.buf in
    if good s
    then if length got == n
      then (got, record s { buf = m })
      else (got, record { buf = m; eofbit = true; failbit = true })
    else ([], record s { failbit = true })

-- istream::tellg, as a size_t: -1 is 2 ^ 64 - 1. Its sentry fails a stream that is not good.
unfoldable pub tellg : IStream → ℕ × IStream
tellg s =
    if good s
    then (let (place, m) = seekoff 0 cur s.buf in
        (elim place [ none ↦ 2 ^ 64 - 1 | some p ↦ p ], record s { buf = m }))
    else (2 ^ 64 - 1, record s { failbit = true })

-- istream::seekg(pos): clears eofbit, does nothing on a failed stream, and sets failbit where the
-- buffer answers -1.
unfoldable pub seekg : ℕ → IStream → Option IStream
seekg sp s = if s.failbit then some (record s { eofbit = false }) else elim (seekpos sp s.buf) [
  | none ↦ none
  | some (none, m) ↦ some (record { buf = m; eofbit = false; failbit = true })
  | some (some p, m) ↦ some (record { buf = m; eofbit = false; failbit = false })
]

-- istream::seekg(0, std::ios_base::end)
unfoldable pub seekg_end : IStream → IStream
seekg_end s =
    if s.failbit
    then record s { eofbit = false }
    else (let (place, m) = seekoff 0 end s.buf in
        record { buf = m; eofbit = false; failbit = elim place [ none ↦ true | some p ↦ false ] })
