-- ===== src/Stream/Laws.antt =====
-- What reads and seeks do to a stream: see Src/MemStreamBuf.cpp.
use dilithium.Base.{
  ℕ, ◌+◌, ◌-◌, ◌≤◌, ◌<◌, ◌^◌, ◌≡◌, arith, length, take, drop, length-take, length-drop,
}
use dilithium.Base.{true, false, List, []}
use dilithium.Stream.{IStream, stream_read, xsgetn, tellg, seekoff}

-- With `n` bytes left, all of them are read and the position is the byte behind them.
pub stream_read_full :
    (n : ℕ) (s : IStream)
    → s.eofbit ≡ false
    → s.failbit ≡ false
    → s.buf.current + n ≤ length s.buf.bytes
    → stream_read n s ≡ (
      take n (drop s.buf.current s.buf.bytes),
      record s { buf = record s.buf { current = s.buf.current + n } },
    )
unfolding stream_read xsgetn
stream_read_full n s he hf h =
    ground
      (arith, length-take n (drop s.buf.current s.buf.bytes), length-drop s.buf.current s.buf.bytes)

-- With fewer left, what there is is read, and the stream fails.
pub stream_read_short :
    (n : ℕ) (s : IStream)
    → s.eofbit ≡ false
    → s.failbit ≡ false
    → s.buf.current ≤ length s.buf.bytes
    → length s.buf.bytes < s.buf.current + n
    → stream_read n s ≡ (
      take (length s.buf.bytes - s.buf.current) (drop s.buf.current s.buf.bytes),
      record { buf = record s.buf { current = length s.buf.bytes }; eofbit = true; failbit = true },
    )
unfolding stream_read xsgetn
stream_read_short n s he hf hc h = ground (
  arith,
  length-take (length s.buf.bytes - s.buf.current) (drop s.buf.current s.buf.bytes),
  length-drop s.buf.current s.buf.bytes,
)

-- A failed stream reads nothing.
pub stream_read_failed : (n : ℕ) (s : IStream) → s.failbit ≡ true → stream_read n s ≡ ([], s)
unfolding stream_read xsgetn
stream_read_failed n s h = ground arith

-- The position of a good stream within its buffer.
pub tellg_good :
    (s : IStream)
    → s.eofbit ≡ false
    → s.failbit ≡ false
    → s.buf.current ≤ length s.buf.bytes
    → tellg s ≡ (s.buf.current, s)
unfolding tellg seekoff
tellg_good s he hf h = ground arith

-- A failed stream is at the position -1.
pub tellg_failed : (s : IStream) → s.failbit ≡ true → tellg s ≡ (2 ^ 64 - 1, s)
unfolding tellg
tellg_failed s h = ground arith

-- A read takes what it returns from the buffer, whatever the state of the stream.
pub record Takes (s : IStream) (got : List ℕ) (s' : IStream) : Type 0 where
  pub same_bytes : s'.buf.bytes ≡ s.buf.bytes
  pub current_eq : s'.buf.current ≡ s.buf.current + length got
  pub within : s'.buf.current ≤ length s'.buf.bytes

pub stream_read-Takes :
    (n : ℕ) (s : IStream)
    → s.buf.current ≤ length s.buf.bytes
    → Takes s (stream_read n s).0 (stream_read n s).1
unfolding stream_read xsgetn
stream_read-Takes n s h = ground (
  arith,
  length-take n (drop s.buf.current s.buf.bytes),
  length-take (length s.buf.bytes - s.buf.current) (drop s.buf.current s.buf.bytes),
  length-drop s.buf.current s.buf.bytes,
)

pub tellg-buf : (s : IStream) → (tellg s).1.buf ≡ s.buf
unfolding tellg seekoff
tellg-buf s = ground arith
