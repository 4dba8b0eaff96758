-- ===== src/BitcodeReader/Wrapper.antt =====
-- The range of bytes behind the wrapper of a bitcode file.
use dilithium.Base.{ℕ, ◌+◌, ◌-◌, ◌^◌, ◌≤◌, ◌<◌, ◌≡◌, arith, true, some, List, read_le}
use dilithium.BitcodeReader.{wrapped_range, skip_bitcode_wrapper_header, offset_field, size_field}

wrapped_range-inside :
    (buf_beg buf_end offset size b e : ℕ)
    → buf_beg ≤ buf_end
    → buf_end - buf_beg < 2 ^ 32
    → offset + size < 2 ^ 32
    → wrapped_range buf_beg buf_end true offset size ≡ some (b, e)
    → (buf_beg ≤ b) × (b ≤ e) × (e ≤ buf_end)
wrapped_range-inside buf_beg buf_end offset size b e order small fits h = ground (arith, h)

-- Of a buffer of less than 2 ^ 32 bytes, where the offset and the size that its header has are below
-- 2 ^ 32 together, the range that SkipBitcodeWrapperHeader answers lies within the buffer, if it is
-- to verify the size.
pub skip_bitcode_wrapper_header-inside :
    (mem : List ℕ) (buf_beg buf_end offset size b e : ℕ)
    → buf_beg ≤ buf_end
    → buf_end - buf_beg < 2 ^ 32
    → read_le 4 mem (buf_beg + offset_field) ≡ some offset
    → read_le 4 mem (buf_beg + size_field) ≡ some size
    → offset + size < 2 ^ 32
    → skip_bitcode_wrapper_header mem buf_beg buf_end true ≡ some (some (b, e))
    → (buf_beg ≤ b) × (b ≤ e) × (e ≤ buf_end)
unfolding skip_bitcode_wrapper_header
skip_bitcode_wrapper_header-inside mem buf_beg buf_end offset size b e order small o s fits h =
    wrapped_range-inside buf_beg buf_end offset size b e order small fits (grind (arith, o, s, h))
