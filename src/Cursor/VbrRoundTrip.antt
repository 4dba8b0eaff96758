-- ===== src/Cursor/VbrRoundTrip.antt =====
-- ReadVBR and ReadVBR64 of Src/BitstreamReader.cpp as wholes, on chunks in the VBR format.
use dilithium.Base.{
  ℕ, zero, suc, ◌+◌, ◌-◌, ◌*◌, ◌%◌, ◌^◌, ◌≤◌, ◌<◌, ◌≡◌, refl, ap, ◌∙◌, sym, arith, inl, inr,
}
use dilithium.Base.{two_pow_pos}
use dilithium.Base.{List, [], ◌∷◌, length}
use native.Mathlib.Nat.{mul-le-mul_right, mod-eq_of_lt, mod-lt, pow-le-pow_right}
use mathlib.Core.Path.{subst, ap₂}
use dilithium.Cursor.State.{Cursor, ok, source}
use dilithium.Cursor.Word.{read}
use dilithium.Cursor.Vbr.{bits_left, vbr_loop, read_vbr_at, read_vbr64}
use dilithium.Cursor.Sound.{IsSound, position, bits_at, le_or_lt}
use dilithium.Cursor.Reads.{Moved, ReadsBits, read-Moved}
use dilithium.Cursor.VbrFormat.{vbr_chunks, IsStored, last_chunk, inner_chunk}
use dilithium.Cursor.VbrReads.{Moved-refl, Moved-trans, chunks_read, IsStored-at, LoopReads}
use dilithium.Cursor.VbrFormat.{
  head_chunk, tail_chunks, head_chunk-lt, vbr_chunks-cons, small_chunk, large_chunk,
}

-- A VBR field reads as `w`, and moves the cursor over its chunks.
abbrev pub ReadsVbr : ℕ → ℕ → ℕ → ℕ → Cursor → Type 0
ReadsVbr j width n w c =
    (c' : Cursor) × (read_vbr_at width n c ≡ ok (w, c'))
    × Moved (n * length (vbr_chunks j (n - 1) w)) c c'

-- A single chunk is returned before the loop.
single_read :
    (width n w : ℕ) (c c1 : Cursor)
    → w < 2 ^ (n - 1)
    → w < 2 ^ 32
    → n ≤ 32
    → read n c ≡ ok (w, c1)
    → read_vbr_at width n c ≡ ok (w, c1)
unfolding read_vbr_at
single_read width n w c c1 small fits n_32 e =
    ground (arith, e, mod-eq_of_lt fits, last_chunk (n - 1) w small)

-- Otherwise the loop starts with the first chunk.
loop_read :
    (width n r v : ℕ) (c c1 c' : Cursor)
    → r < 2 ^ (n - 1)
    → r + 2 ^ (n - 1) < 2 ^ 32
    → n ≤ 32
    → read n c ≡ ok (r + 2 ^ (n - 1), c1)
    → vbr_loop (suc (suc (bits_left c1))) width n (r + 2 ^ (n - 1)) 0 0 c1 ≡ ok (v, c')
    → read_vbr_at width n c ≡ ok (v, c')
unfolding read_vbr_at
loop_read width n r v c c1 c' small fits n_32 e l =
    ground (arith, e, mod-eq_of_lt fits, inner_chunk (n - 1) r small, two_pow_pos (n - 1), l)

fuel_enough :
    (n k : ℕ) (c : Cursor)
    → IsSound c
    → 2 ≤ n
    → position c + n * k ≤ 8 * length (source c)
    → k < suc (suc (bits_left c))
fuel_enough n k c h two_n room = omega (arith, h.fetched, h.inside, mul-le-mul_right k two_n, room)

-- The case of one chunk, and that of more.
small_ReadsVbr :
    (j width n w : ℕ) (c : Cursor)
    → IsSound c
    → 2 ≤ n
    → n ≤ 32
    → w < 2 ^ (n - 1)
    → IsStored (source c) n (position c) (vbr_chunks j (n - 1) w)
    → position c + n * length (vbr_chunks j (n - 1) w) ≤ 8 * length (source c)
    → ReadsVbr j width n w c
small_ReadsVbr j width n w c h two_n n_32 small stored room = (
  c1,
  single_read width n w c c1 small fits n_32 (e ∙ ap (λ (t : ℕ). ok (t, c1)) here.0),
  rw one (Moved-trans m (Moved-refl 0 c1 m.sound refl) (omega arith)),
)
  where
    one : vbr_chunks j (n - 1) w ≡ w ∷ []
    one =
        vbr_chunks-cons j (n - 1) w
        ∙ ap₂ ◌∷◌ (small_chunk j (n - 1) w small).0 (small_chunk j (n - 1) w small).1

    here : IsStored (source c) n (position c) (w ∷ [])
    here = subst (IsStored (source c) n (position c)) one stored

    fits : w < 2 ^ 32
    fits = omega (arith, pow-le-pow_right {n = 2} (omega arith) {i = n - 1} {j = 32} (omega arith))

    reads : ReadsBits n c
    reads =
        read-Moved n c h (omega arith) (omega arith)
          (omega (arith, room, ap (λ (t : List ℕ). n * length t) one))

    c1 : Cursor
    c1 = reads.0

    e : read n c ≡ ok (bits_at (source c) (position c) n, c1)
    e = reads.1

    m : Moved n c c1
    m = reads.2

large_ReadsVbr :
    (j width n w : ℕ) (c : Cursor)
    → IsSound c
    → 2 ≤ n
    → n ≤ 32
    → w < 2 ^ ((n - 1) * suc (suc j))
    → w < 2 ^ width
    → 0 < width
    → 2 ^ (n - 1) ≤ w
    → IsStored (source c) n (position c) (vbr_chunks (suc j) (n - 1) w)
    → position c + n * length (vbr_chunks (suc j) (n - 1) w) ≤ 8 * length (source c)
    → ReadsVbr (suc j) width n w c
large_ReadsVbr j width n w c h two_n n_32 few fits wide large stored room = (
  loop.0,
  loop_read width n (w % 2 ^ (n - 1)) w c c1 loop.0 (mod-lt w (two_pow_pos (n - 1))) hd_lt n_32
      (first ∙ ap (λ (t : ℕ). ok (t, c1)) hd)
      (ap (λ (t : ℕ). vbr_loop (suc (suc (bits_left c1))) width n t 0 0 c1) (sym hd)
        ∙ loop.1
        ∙ ap (λ (t : ℕ). ok (t, loop.0)) (omega arith)),
  Moved-trans m loop.2 (omega (arith, ap (λ (t : List ℕ). n * length t) chunks)),
)
  where
    rest : List ℕ
    rest = tail_chunks (suc j) (n - 1) w

    hd : head_chunk (suc j) (n - 1) w ≡ w % 2 ^ (n - 1) + 2 ^ (n - 1)
    hd = (large_chunk j (n - 1) w large).0

    hd_lt : w % 2 ^ (n - 1) + 2 ^ (n - 1) < 2 ^ 32
    hd_lt = rw hd at (head_chunk-lt (suc j) (n - 1) w (omega arith) few)

    chunks : vbr_chunks (suc j) (n - 1) w ≡ head_chunk (suc j) (n - 1) w ∷ rest
    chunks = vbr_chunks-cons (suc j) (n - 1) w

    here : IsStored (source c) n (position c) (head_chunk (suc j) (n - 1) w ∷ rest)
    here = subst (IsStored (source c) n (position c)) chunks stored

    total : position c + (n + n * length rest) ≤ 8 * length (source c)
    total = omega (arith, room, ap (λ (t : List ℕ). n * length t) chunks)

    reads : ReadsBits n c
    reads = read-Moved n c h (omega arith) (omega arith) (omega (arith, total))

    c1 : Cursor
    c1 = reads.0

    m : Moved n c c1
    m = reads.2

    first : read n c ≡ ok (head_chunk (suc j) (n - 1) w, c1)
    first = reads.1 ∙ ap (λ (t : ℕ). ok (t, c1)) here.0

    room1 : position c1 + n * length rest ≤ 8 * length (source c1)
    room1 = omega (arith, total, m.moved, ap length m.same.source_eq)

    loop :
        LoopReads
          (suc (suc (bits_left c1)))
          width
          n
          (head_chunk (suc j) (n - 1) w)
          0
          0
          rest
          c1
          (0 + w * 2 ^ 0)
    loop =
        chunks_read (suc j) (suc (suc (bits_left c1))) width n w 0 0 c1 m.sound two_n n_32 few wide
          (omega arith) (omega arith) (IsStored-at n rest m.same.source_eq m.moved here.1) room1
          (fuel_enough n (length rest) c1 m.sound two_n room1)

-- ReadVBR and ReadVBR64, by the width of their result.
pub read_vbr_at-chunks :
    (j width n w : ℕ) (c : Cursor)
    → IsSound c
    → 2 ≤ n
    → n ≤ 32
    → w < 2 ^ ((n - 1) * suc j)
    → w < 2 ^ width
    → 0 < width
    → IsStored (source c) n (position c) (vbr_chunks j (n - 1) w)
    → position c + n * length (vbr_chunks j (n - 1) w) ≤ 8 * length (source c)
    → ReadsVbr j width n w c
read_vbr_at-chunks zero width n w c h two_n n_32 few fits wide stored room =
    let one : (n - 1) * 1 ≡ n - 1 = omega arith in
    small_ReadsVbr zero width n w c h two_n n_32 (rw one at few) stored room
read_vbr_at-chunks (suc j) width n w c h two_n n_32 few fits wide stored room =
    elim (le_or_lt (2 ^ (n - 1)) w) [
      | inl large ↦ large_ReadsVbr j width n w c h two_n n_32 few fits wide large stored room
      | inr small ↦ small_ReadsVbr (suc j) width n w c h two_n n_32 small stored room
    ]

-- On a sound cursor, at whose position the VBR chunks of a 64-bit number are stored, `n` bits each
-- (2 to 32), ReadVBR64 answers the number, moves over exactly its chunks and stays in the block.
pub read_vbr64-chunks :
    (j n w : ℕ) (c : Cursor)
    → IsSound c
    → 2 ≤ n
    → n ≤ 32
    → w < 2 ^ ((n - 1) * suc j)
    → w < 2 ^ 64
    → IsStored (source c) n (position c) (vbr_chunks j (n - 1) w)
    → position c + n * length (vbr_chunks j (n - 1) w) ≤ 8 * length (source c)
    → (c' : Cursor) × (read_vbr64 n c ≡ ok (w, c'))
      × Moved (n * length (vbr_chunks j (n - 1) w)) c c'
unfolding read_vbr64
read_vbr64-chunks j n w c h two_n n_32 few fits =
    read_vbr_at-chunks j 64 n w c h two_n n_32 few fits (omega arith)
